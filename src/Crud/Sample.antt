-- ===== src/Crud/Sample.antt =====
-- Sample data for the tests: a small university, with one student who has an account.
use system_uni.Prelude.{some, true, false, [], ◌∷◌, ◌≡◌, str_eq, str_eq_iff, arith, String}
use system_uni.Models.{
  Db, User, Student, Enrollment, College, Department, Course, Teacher, CourseOffering, user,
}
use system_uni.Session.{World}
use system_uni.Crud.Accounts.{Passwords}
use system_uni.Worker.Sample.{empty}

abbrev pub ada : User
ada = record {
  id = 1;
  username = "ada";
  email = "ada@uni.edu";
  role = user;
  created_at = 1;
  password_hash = "hash";
  token_version = 0;
}

abbrev pub student : Student
student = record {
  id = 4;
  name = "Ada";
  age = some 20;
  email = "ada@uni.edu";
  created_at = 1;
  department_id = 2;
  user_id = some 1;
  version_id = 1;
}

abbrev pub enrolled : Enrollment
enrolled = record {
  id = 9;
  student_id = 4;
  course_offering_id = 6;
  enrollment_code = "E-9";
  grade = some 88;
  is_active = true;
  is_withdrawn = false;
  created_at = 2;
}

abbrev pub science : College
science = record { id = 1; name = "Science"; code = "SCI"; created_at = 1 }

abbrev pub maths : Department
maths = record { id = 2; name = "Maths"; code = "MAT"; created_at = 1; college_id = 1 }

abbrev pub rings : Course
rings = record { id = 3; name = "Rings"; code = "RIN"; created_at = 1; department_id = some 2 }

abbrev pub limits : Course
limits = record rings { id = 4; name = "Limits"; code = "LIM" }

abbrev pub noether : Teacher
noether = record { id = 3; name = "Noether"; created_at = 1; department_id = 2 }

abbrev pub algebra : CourseOffering
algebra = record {
  id = 5;
  course_id = 3;
  teacher_id = 3;
  semester = "fall";
  academic_year = 2025;
  section = "A";
  created_at = 1;
}

abbrev pub analysis : CourseOffering
analysis = record algebra { id = 6; course_id = 4 }

abbrev pub campus : Db
campus = record empty {
  colleges = science ∷ [];
  departments = maths ∷ [];
  courses = rings ∷ limits ∷ [];
  teachers = noether ∷ [];
  offerings = algebra ∷ analysis ∷ [];
  users = ada ∷ [];
  students = student ∷ [];
  enrollments = enrolled ∷ [];
}

abbrev pub world : World
world = record { db = campus; tick = 0 }

pub equal_to_itself : (p : String) → str_eq p p ≡ true
equal_to_itself p = ground (arith, str_eq_iff p p)

abbrev pub clear : Passwords
clear = record { hash = λ p. p; verify = str_eq; verify-hash = equal_to_itself }

abbrev pub as_written : String → String
as_written s = s
