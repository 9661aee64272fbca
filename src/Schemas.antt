-- ===== src/Schemas.antt =====
-- app/schemas: what pydantic lets through to the handlers. A request is a record of the values that
-- were parsed; the predicates are the bounds of its fields. `EmailStr` is an argument.
use system_uni.Prelude.{
  ℕ, String, Option, none, some, Bool, true, false, not, ◌&&◌, leb, ltb, length,
}
use system_uni.Worker.Failure.{codes}
use system_uni.Crud.Catalogue.Tables.{
  CollegeCreate, CollegeUpdate, CourseCreate, CourseUpdate, TeacherCreate, TeacherUpdate,
}
use system_uni.Crud.Catalogue.Departments.{DepartmentCreate, DepartmentUpdate}
use system_uni.Crud.Catalogue.Offerings.{CourseOfferingCreate, CourseOfferingUpdate}
use system_uni.Crud.Catalogue.Schedules.{CourseScheduleCreate, CourseScheduleUpdate}
use system_uni.Crud.Times.{Time, is_not_after}
use system_uni.Crud.Enrollment.{EnrollmentCreate, EnrollmentUpdate}
use system_uni.Crud.Students.{StudentCreate, StudentUpdate}
use system_uni.Crud.Accounts.{UserCreate, UserUpdate}

-- `Field(min_length=..., max_length=...)`, in code points.
abbrev pub text_in : ℕ → ℕ → String → Bool
text_in shortest longest s = leb shortest (length (codes s)) && leb (length (codes s)) longest

-- `Field(ge=..., le=...)`.
abbrev pub between : ℕ → ℕ → ℕ → Bool
between lo hi n = leb lo n && leb n hi

-- `Field(gt=0)`.
abbrev pub positive : ℕ → Bool
positive n = ltb 0 n

-- A field that may be left out.
abbrev pub if_given : {A : Type 0} → (A → Bool) → Option A → Bool
if_given ok none = true
if_given ok (some a) = ok a

unfoldable pub college_create_ok : CollegeCreate → Bool
college_create_ok c = text_in 1 150 c.name && text_in 1 10 c.code

unfoldable pub college_update_ok : CollegeUpdate → Bool
college_update_ok c = if_given (text_in 1 150) c.name && if_given (text_in 1 10) c.code

unfoldable pub course_create_ok : CourseCreate → Bool
course_create_ok c =
    text_in 1 150 c.name && (text_in 1 10 c.code && if_given positive c.department_id)

unfoldable pub course_update_ok : CourseUpdate → Bool
course_update_ok c =
    if_given (text_in 1 150) c.name
    && (if_given (text_in 1 10) c.code && if_given positive c.department_id)

unfoldable pub teacher_create_ok : TeacherCreate → Bool
teacher_create_ok c = text_in 1 150 c.name && positive c.department_id

unfoldable pub teacher_update_ok : TeacherUpdate → Bool
teacher_update_ok c = if_given (text_in 1 150) c.name && if_given positive c.department_id

unfoldable pub department_create_ok : DepartmentCreate → Bool
department_create_ok c = text_in 1 150 c.name && (text_in 1 10 c.code && positive c.college_id)

unfoldable pub department_update_ok : DepartmentUpdate → Bool
department_update_ok c =
    if_given (text_in 1 150) c.name
    && (if_given (text_in 1 10) c.code && if_given positive c.college_id)

unfoldable pub offering_create_ok : CourseOfferingCreate → Bool
offering_create_ok c =
    positive c.course_id
    && (positive c.teacher_id
        && (text_in 1 10 c.semester
            && (between 2000 2100 c.academic_year && text_in 1 10 c.section)))

unfoldable pub offering_update_ok : CourseOfferingUpdate → Bool
offering_update_ok c =
    if_given positive c.course_id
    && (if_given positive c.teacher_id
        && (if_given (text_in 1 10) c.semester
            && (if_given (between 2000 2100) c.academic_year && if_given (text_in 1 10) c.section)))

-- `validate_time_range`. A TypeError of the comparison is no validation error of pydantic: the request
-- is answered with 500, and as one that is refused it does not reach its handler.
abbrev pub is_ordered : Time → Time → Bool
is_ordered start_time end_time = elim (is_not_after end_time start_time) [
  | none ↦ false
  | some late ↦ not late
]

unfoldable pub schedule_create_ok : CourseScheduleCreate → Bool
schedule_create_ok c =
    text_in 1 10 c.day
    && (text_in 1 10 c.schedule_type
        && (text_in 1 10 c.room
            && (positive c.course_offering_id && is_ordered c.start_time c.end_time)))

-- The times of an update are compared only if both are given.
abbrev pub times_ok : Option Time → Option Time → Bool
times_ok (some a) (some b) = is_ordered a b
times_ok (some a) none = true
times_ok none b = true

unfoldable pub schedule_update_ok : CourseScheduleUpdate → Bool
schedule_update_ok c =
    if_given (text_in 1 10) c.day
    && (if_given (text_in 1 10) c.schedule_type
        && (if_given (text_in 1 10) c.room
            && (if_given positive c.course_offering_id && times_ok c.start_time c.end_time)))

unfoldable pub enrollment_create_ok : EnrollmentCreate → Bool
enrollment_create_ok c =
    positive c.student_id
    && (positive c.course_offering_id
        && (text_in 1 50 c.enrollment_code && if_given (between 0 100) c.grade))

unfoldable pub enrollment_update_ok : EnrollmentUpdate → Bool
enrollment_update_ok c =
    if_given positive c.student_id
    && (if_given positive c.course_offering_id
        && (if_given (text_in 1 50) c.enrollment_code && if_given (between 0 100) c.grade))

module _ (email_ok : String → Bool) where
  unfoldable pub student_create_ok : StudentCreate → Bool
  student_create_ok c =
      text_in 1 150 c.name
      && (positive c.department_id && (if_given (between 1 120) c.age && email_ok c.email))

  unfoldable pub student_update_ok : StudentUpdate → Bool
  student_update_ok c =
      if_given (text_in 1 150) c.name
      && (if_given positive c.department_id
          && (if_given (between 1 120) c.age
              && (if_given email_ok c.email && if_given positive c.version_id)))

  unfoldable pub user_register_ok : String → String → String → Bool
  user_register_ok username email password =
      text_in 3 150 username && (email_ok email && text_in 8 128 password)

  unfoldable pub user_create_ok : UserCreate → Bool
  user_create_ok c = user_register_ok c.username c.email c.password

  unfoldable pub user_update_ok : UserUpdate → Bool
  user_update_ok c =
      if_given (text_in 3 150) c.username
      && (if_given email_ok c.email && if_given (text_in 8 128) c.password)
