-- ===== src/Crud/Catalogue/Tests.antt =====
-- The theorems on the catalogue at concrete inputs.
use system_uni.Prelude.{refl, some, none, true, [], ◌∷◌, ◌≡◌, inl}
use system_uni.Models.{
  CourseSchedule, constraints, users_ok, students_ok, colleges_ok, departments_ok, courses_ok,
  teachers_ok, offerings_ok, schedules_ok, enrollments_ok, jobs_ok, reports_ok,
}
use system_uni.Crud.Catalogue.{without_row}
use system_uni.Worker.Sample.{strict, quiet, quiet-IsCalm}
use system_uni.Crud.Response.{flush}
use system_uni.Crud.Catalogue.Departments.{departments}
use system_uni.Crud.Catalogue.Departments.Removal.{Removes, remove_department-Removes}
use system_uni.Crud.Catalogue.Schedules.{CourseScheduleUpdate, update_course_schedule}
use system_uni.Crud.Catalogue.Order.{
  ordering, update_course_schedule-ordering, update_course_schedule-type_error,
}
use system_uni.Crud.Catalogue.Tables.{CourseUpdate}
use system_uni.Session.{World, raised, type_error}
use system_uni.Worker.Failure.{codes}
use system_uni.Crud.Sample.{campus}

remove_department-Removes_example :
    Removes 2 campus (flush strict (some (tt {0}, without_row departments 2 campus)) campus)
remove_department-Removes_example = remove_department-Removes strict 2 campus

abbrev monday : CourseSchedule
monday = record {
  id = 1;
  day = "mon";
  schedule_type = "lecture";
  start_time = 540;
  end_time = 600;
  room = "B12";
  course_offering_id = 5;
  created_at = 1;
}

abbrev later_start : CourseScheduleUpdate
later_start = record {
  day = none;
  schedule_type = none;
  start_time = some (record { clock = 610; offset = none });
  end_time = none;
  room = none;
  course_offering_id = none;
}

abbrev moved : CourseScheduleUpdate
moved = record later_start { start_time = some (record { clock = 610; offset = some 86400000000 }) }

abbrev taught : World
taught = record { db = record campus { schedules = monday ∷ [] }; tick = 0 }

taught_valid : constraints taught.db ≡ true
unfolding constraints users_ok students_ok colleges_ok departments_ok courses_ok teachers_ok
    offerings_ok schedules_ok enrollments_ok jobs_ok reports_ok
taught_valid = refl

update_course_schedule-ordering_example :
    update_course_schedule quiet strict later_start 1 taught
    ≡ ordering strict later_start 1 taught (some monday)
update_course_schedule-ordering_example =
    update_course_schedule-ordering quiet strict later_start 1 taught quiet-IsCalm taught_valid refl
      refl

update_course_schedule-type_error_example : update_course_schedule quiet strict moved 1 taught ≡ (
  raised (type_error (codes "can't compare offset-naive and offset-aware times")),
  record { db = taught.db; tick = 1 },
)
update_course_schedule-type_error_example =
    update_course_schedule-type_error quiet strict moved 1 taught quiet-IsCalm monday refl
      (inl (refl, refl))

abbrev renamed_rings : CourseUpdate
renamed_rings = record { name = some "Rings II"; code = none; department_id = none }

abbrev open_campus : World
open_campus = record { db = campus; tick = 0 }
