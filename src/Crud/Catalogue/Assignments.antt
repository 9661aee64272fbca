-- ===== src/Crud/Catalogue/Assignments.antt =====
-- What an update request assigns to a row of the six catalogue tables, and the columns that are written
-- for it.
use system_uni.Prelude.{
  ℕ, ◌≡◌, refl, String, str_eq_iff, Option, none, some, true, str_eq, is_none, or_else, ◌==◌, arith,
}
use system_uni.Models.{College, Course, Teacher, Department, CourseOffering, CourseSchedule}
use system_uni.Crud.Students.{given_or, net_column}
use system_uni.Crud.Columns.{net}
use system_uni.Crud.Times.{Time, stored_clock}
use system_uni.Crud.Catalogue.Tables.{CollegeUpdate, CourseUpdate, TeacherUpdate}
use system_uni.Crud.Catalogue.Departments.{DepartmentUpdate}
use system_uni.Crud.Catalogue.Offerings.{CourseOfferingUpdate}
use system_uni.Crud.Catalogue.Schedules.{CourseScheduleUpdate, net_time}

-- The assignments `if update.column is not None: row.column = update.column` of the update handlers.
abbrev pub assign_college : CollegeUpdate → College → College
assign_college u r = record r { name = or_else u.name r.name; code = or_else u.code r.code }

abbrev pub assign_course : CourseUpdate → Course → Course
assign_course u r = record r {
  name = or_else u.name r.name;
  code = or_else u.code r.code;
  department_id = given_or u.department_id r.department_id;
}

abbrev pub assign_teacher : TeacherUpdate → Teacher → Teacher
assign_teacher u r = record r {
  name = or_else u.name r.name;
  department_id = or_else u.department_id r.department_id;
}

abbrev pub assign_department : DepartmentUpdate → Department → Department
assign_department u r = record r {
  name = or_else u.name r.name;
  code = or_else u.code r.code;
  college_id = or_else u.college_id r.college_id;
}

abbrev pub assign_course_offering : CourseOfferingUpdate → CourseOffering → CourseOffering
assign_course_offering u r = record r {
  course_id = or_else u.course_id r.course_id;
  teacher_id = or_else u.teacher_id r.teacher_id;
  semester = or_else u.semester r.semester;
  academic_year = or_else u.academic_year r.academic_year;
  section = or_else u.section r.section;
}

abbrev pub assign_course_schedule : CourseScheduleUpdate → CourseSchedule → CourseSchedule
assign_course_schedule u r = record r {
  day = or_else u.day r.day;
  schedule_type = or_else u.schedule_type r.schedule_type;
  start_time = stored_clock u.start_time r.start_time;
  end_time = stored_clock u.end_time r.end_time;
  room = or_else u.room r.room;
  course_offering_id = or_else u.course_offering_id r.course_offering_id;
}

pub or_else-is_none : {A : Type 0} (u : Option A) (a : A) → is_none u ≡ true → or_else u a ≡ a
or_else-is_none none a h = refl
or_else-is_none (some b) a h = cc

pub given_or-is_none : (u a : Option ℕ) → is_none u ≡ true → given_or u a ≡ a
given_or-is_none none a h = refl
given_or-is_none (some b) a h = cc

pub stored_clock-is_none : (u : Option Time) (a : ℕ) → is_none u ≡ true → stored_clock u a ≡ a
stored_clock-is_none none a h = refl
stored_clock-is_none (some b) a h = cc

-- A column that is not written as it has the given value already has that value.
pub or_else-net_text : (u : Option String) (a : String) → or_else (net str_eq u a) a ≡ or_else u a
or_else-net_text none a = refl
or_else-net_text (some b) a = ground (arith, str_eq_iff a b, str_eq_iff b a)

pub or_else-net_number : (u : Option ℕ) (a : ℕ) → or_else (net ◌==◌ u a) a ≡ or_else u a
or_else-net_number none a = refl
or_else-net_number (some b) a = ground arith

pub given_or-net_column : (u a : Option ℕ) → given_or (net_column u a) a ≡ given_or u a
given_or-net_column none a = refl
given_or-net_column (some b) none = refl
given_or-net_column (some b) (some a) = ground arith

pub stored_clock-net_time :
    (u : Option Time) (a : ℕ) → stored_clock (net_time u a) a ≡ stored_clock u a
stored_clock-net_time none a = refl
stored_clock-net_time (some t) a = go t.offset refl
  where
    go : (o : Option ℕ) → t.offset ≡ o → stored_clock (net_time (some t) a) a ≡ t.clock
    go none e = rw e (ground arith)
    go (some x) e = rw e refl
