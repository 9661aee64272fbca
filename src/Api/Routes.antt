-- ===== src/Api/Routes.antt =====
-- The endpoints of app/main.py that ask for a user, behind one door: the request's token is resolved to
-- a user, the endpoint's guard is asked, and then the endpoint is served.
pub mod Safety
use system_uni.Prelude.{ℕ, ◌≡◌, String, Option, none, some, Bool, true, false, List}
use system_uni.Models.{
  User, College, Course, Teacher, Department, CourseOffering, CourseSchedule, Postgres,
}
use system_uni.Session.{Session, Moment, pure, ◌>>=◌}
use system_uni.Services.Reports.{Rounding}
use system_uni.Security.{Jwt, get_current_user}
use system_uni.Crud.Response.{Response, success, http_error}
use system_uni.Crud.Catalogue.{create_row, update_row}
use system_uni.Crud.Catalogue.Tables.{
  CollegeCreate, CollegeUpdate, CourseCreate, CourseUpdate, TeacherCreate, TeacherUpdate, colleges,
  courses, teachers,
}
use system_uni.Crud.Catalogue.Departments.{DepartmentCreate, DepartmentUpdate, departments}
use system_uni.Crud.Catalogue.Offerings.{
  CourseOfferingCreate, CourseOfferingUpdate, course_offerings,
}
use system_uni.Crud.Catalogue.Schedules.{
  CourseScheduleCreate, CourseScheduleUpdate, course_schedules, create_course_schedule,
  update_course_schedule,
}
use system_uni.Crud.Accounts.{Passwords}
use system_uni.Crud.Students.Reads.{Redis}
use system_uni.Schemas.{
  college_create_ok, college_update_ok, course_create_ok, course_update_ok, teacher_create_ok,
  teacher_update_ok, department_create_ok, department_update_ok, offering_create_ok,
  offering_update_ok, schedule_create_ok, schedule_update_ok,
}
use system_uni.Api.Guards.{Guard, guard}
use system_uni.Api.Catalogue.{
  CatalogueRoute, CatalogueResult, reads_catalogue, catalogue_guard, Resource, serve_catalogue,
}
use system_uni.Api.Reports.Reads.{
  ReportRoute, ReportResult, reads_reports, report_guard, serve_reports,
}
use system_uni.Api.Students.{
  StudentRoute, StudentResult, reads_students, student_guard, serve_students,
}
use system_uni.Api.Enrollments.{
  EnrollmentRoute, EnrollmentResult, reads_enrollments, enrollment_guard, serve_enrollments,
}
use system_uni.Api.Users.{UserRoute, UserResult, reads_users, user_guard, serve_users}

pub data Route : Type 0 where
  on_reports : ReportRoute → Route
  on_colleges : CatalogueRoute CollegeCreate CollegeUpdate → Route
  on_courses : CatalogueRoute CourseCreate CourseUpdate → Route
  on_offerings : CatalogueRoute CourseOfferingCreate CourseOfferingUpdate → Route
  on_departments : CatalogueRoute DepartmentCreate DepartmentUpdate → Route
  on_teachers : CatalogueRoute TeacherCreate TeacherUpdate → Route
  on_students : StudentRoute → Route
  on_enrollments : EnrollmentRoute → Route
  on_schedules : CatalogueRoute CourseScheduleCreate CourseScheduleUpdate → Route
  on_users : UserRoute → Route

abbrev pub Result : Route → Type 0
Result (on_reports r) = ReportResult r
Result (on_colleges r) = CatalogueResult College r
Result (on_courses r) = CatalogueResult Course r
Result (on_offerings r) = CatalogueResult CourseOffering r
Result (on_departments r) = CatalogueResult Department r
Result (on_teachers r) = CatalogueResult Teacher r
Result (on_students r) = StudentResult r
Result (on_enrollments r) = EnrollmentResult r
Result (on_schedules r) = CatalogueResult CourseSchedule r
Result (on_users r) = UserResult r

-- Whether the request is a GET.
unfoldable pub is_get : Route → Bool
is_get (on_reports r) = reads_reports r
is_get (on_colleges r) = reads_catalogue r
is_get (on_courses r) = reads_catalogue r
is_get (on_offerings r) = reads_catalogue r
is_get (on_departments r) = reads_catalogue r
is_get (on_teachers r) = reads_catalogue r
is_get (on_students r) = reads_students r
is_get (on_enrollments r) = reads_enrollments r
is_get (on_schedules r) = reads_catalogue r
is_get (on_users r) = reads_users r

unfoldable pub guard_of : Route → Guard
guard_of (on_reports r) = report_guard r
guard_of (on_colleges r) = catalogue_guard r
guard_of (on_courses r) = catalogue_guard r
guard_of (on_offerings r) = catalogue_guard r
guard_of (on_departments r) = catalogue_guard r
guard_of (on_teachers r) = catalogue_guard r
guard_of (on_students r) = student_guard r
guard_of (on_enrollments r) = enrollment_guard r
guard_of (on_schedules r) = catalogue_guard r
guard_of (on_users r) = user_guard r

-- What the process is built with.
pub record Server (Token : Type 0) : Type 0 where
  pub env : ℕ → Moment
  pub pg : Postgres
  pub jwt : Jwt Token
  pub passwords : Passwords
  pub lower : String → String
  pub email_ok : String → Bool
  pub redis : Redis
  pub floats : Rounding

module _ {Token : Type 0} (s : Server Token) where
  abbrev pub college_resource : Resource College CollegeCreate CollegeUpdate
  college_resource = record {
    table = colleges;
    create_ok = college_create_ok;
    update_ok = college_update_ok;
    creates = create_row colleges s.env s.pg;
    updates = update_row colleges s.env s.pg;
  }

  abbrev pub course_resource : Resource Course CourseCreate CourseUpdate
  course_resource = record {
    table = courses;
    create_ok = course_create_ok;
    update_ok = course_update_ok;
    creates = create_row courses s.env s.pg;
    updates = update_row courses s.env s.pg;
  }

  abbrev pub offering_resource : Resource CourseOffering CourseOfferingCreate CourseOfferingUpdate
  offering_resource = record {
    table = course_offerings;
    create_ok = offering_create_ok;
    update_ok = offering_update_ok;
    creates = create_row course_offerings s.env s.pg;
    updates = update_row course_offerings s.env s.pg;
  }

  abbrev pub department_resource : Resource Department DepartmentCreate DepartmentUpdate
  department_resource = record {
    table = departments;
    create_ok = department_create_ok;
    update_ok = department_update_ok;
    creates = create_row departments s.env s.pg;
    updates = update_row departments s.env s.pg;
  }

  abbrev pub teacher_resource : Resource Teacher TeacherCreate TeacherUpdate
  teacher_resource = record {
    table = teachers;
    create_ok = teacher_create_ok;
    update_ok = teacher_update_ok;
    creates = create_row teachers s.env s.pg;
    updates = update_row teachers s.env s.pg;
  }

  abbrev pub schedule_resource : Resource CourseSchedule CourseScheduleCreate CourseScheduleUpdate
  schedule_resource = record {
    table = course_schedules;
    create_ok = schedule_create_ok;
    update_ok = schedule_update_ok;
    creates = create_course_schedule s.env s.pg;
    updates = update_course_schedule s.env s.pg;
  }

  unfoldable pub serve : (r : Route) → User → Session (Response (Result r))
  serve (on_reports r) u = serve_reports s.env s.pg s.floats r u
  serve (on_colleges r) u = serve_catalogue s.env s.pg college_resource r
  serve (on_courses r) u = serve_catalogue s.env s.pg course_resource r
  serve (on_offerings r) u = serve_catalogue s.env s.pg offering_resource r
  serve (on_departments r) u = serve_catalogue s.env s.pg department_resource r
  serve (on_teachers r) u = serve_catalogue s.env s.pg teacher_resource r
  serve (on_students r) u = serve_students s.env s.pg s.redis s.email_ok r u
  serve (on_enrollments r) u = serve_enrollments s.env s.pg r u
  serve (on_schedules r) u = serve_catalogue s.env s.pg schedule_resource r
  serve (on_users r) u = serve_users s.env s.pg s.lower s.passwords s.email_ok r u

  unfoldable pub let_in : (r : Route) → Response User → Session (Response (Result r))
  let_in r (http_error code detail) = pure (http_error code detail)
  let_in r (success u) = serve r u

  -- The user that the token stands for, through the guard, to the endpoint.
  unfoldable pub after_login : (r : Route) → Response User → Session (Response (Result r))
  after_login r answer = let_in r (guard (guard_of r) answer)

  unfoldable pub request : Option Token → ℕ → (r : Route) → Session (Response (Result r))
  request credentials now r = get_current_user s.env s.jwt now credentials >>= after_login r
