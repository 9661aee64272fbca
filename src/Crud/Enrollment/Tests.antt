-- ===== src/Crud/Enrollment/Tests.antt =====
-- The theorems on app/crud/enrollment.py at concrete inputs.
use system_uni.Prelude.{none, true, false, ◌≡◌, refl}
use system_uni.Session.{Holds, ok, query, statement}
use system_uni.Worker.Sample.{quiet, strict}
use system_uni.Crud.Response.{success}
use system_uni.Crud.Enrollment.{
  EnrollmentCreate, insert_enrollment, read_enrollment, read_enrollments, visible,
}
use system_uni.Crud.Enrollment.Arbiter.{Enrolls, insert_enrollment-Enrolls}
use system_uni.Crud.Enrollment.Scope.{Lists, read_enrollments-Lists}
use system_uni.Crud.Sample.{ada, enrolled, world}

abbrev request : EnrollmentCreate
request = record {
  student_id = 4;
  course_offering_id = 5;
  enrollment_code = "E-1";
  grade = none;
  is_active = true;
  is_withdrawn = false;
}

insert_enrollment-Enrolls_example :
    Holds (Enrolls request) (insert_enrollment quiet strict request world)
insert_enrollment-Enrolls_example = (insert_enrollment-Enrolls quiet strict request).ensured world

read_enrollments-Lists_example : Holds (Lists 10 ada) (read_enrollments quiet ada 0 10 world)
read_enrollments-Lists_example = (read_enrollments-Lists quiet ada 0 10).ensured world

read_own : (read_enrollment quiet 9 ada world).0 ≡ ok (success enrolled)
unfolding read_enrollment query statement visible
read_own = refl
