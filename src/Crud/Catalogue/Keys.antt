-- ===== src/Crud/Catalogue/Keys.antt =====
-- The update handlers of the six catalogue tables, by their keys and columns.
use system_uni.Crud.Catalogue.Assignments.{
  assign_college, assign_course, assign_teacher, assign_department, assign_course_offering,
  assign_course_schedule, or_else-is_none, given_or-is_none, stored_clock-is_none, or_else-net_text,
  or_else-net_number, given_or-net_column, stored_clock-net_time,
}
use system_uni.Prelude.{
  ◌≡◌, refl, Bool, true, false, ◌&&◌, ◌||◌, List, [], ◌∷◌, str_eq, any, is_unique, ◌==◌, arith,
}
use system_uni.Models.{
  College, Course, Teacher, Department, CourseOffering, CourseSchedule, courses_clash,
  offerings_clash, schedules_clash, constraints, colleges_ok, departments_ok, courses_ok,
  teachers_ok, offerings_ok, schedules_ok,
}
use system_uni.Crud.Catalogue.Updates.{Keyed}
use system_uni.Crud.Catalogue.Tables.{colleges, courses, teachers}
use system_uni.Crud.Catalogue.Departments.{departments}
use system_uni.Crud.Catalogue.Offerings.{course_offerings}
use system_uni.Crud.Catalogue.Schedules.{course_schedules}

any-weaken :
    {A : Type 0} (p q : A → Bool) (xs : List A)
    → ((a : A) → q a ≡ true → p a ≡ true)
    → any p xs ≡ false
    → any q xs ≡ false
any-weaken p q [] h n = refl
any-weaken p q (x ∷ xs) h n = ground (arith, any-weaken p q xs h, h x)

-- A table without two rows that clash has none that clash in a part of the columns.
is_unique-weaken :
    {A : Type 0} (clash same : A → A → Bool) (xs : List A)
    → ((a b : A) → same a b ≡ true → clash a b ≡ true)
    → is_unique clash xs ≡ true
    → is_unique same xs ≡ true
is_unique-weaken clash same [] h u = refl
is_unique-weaken clash same (x ∷ xs) h u =
    let apart = any-weaken (clash x) (same x) xs (h x) (ground arith) in
    ground (arith, is_unique-weaken clash same xs h)

pub colleges-Keyed : Keyed colleges assign_college
unfolding constraints colleges_ok
colleges-Keyed = record {
  unique_keys = λ d h.
      is_unique-weaken (λ (a b : College). a.id == b.id || str_eq a.code b.code)
        (λ (a b : College). a.id == b.id) d.colleges (λ a b e. ground arith) (ground arith);
  write-is_empty = λ u r h.
      rw
        (or_else-is_none u.name r.name (ground arith), or_else-is_none u.code r.code (ground arith))
        refl;
  write-net_update =
      λ u r. rw (or_else-net_text u.name r.name, or_else-net_text u.code r.code) refl;
  same_rows = λ d. refl;
}

pub courses-Keyed : Keyed courses assign_course
unfolding constraints courses_ok
courses-Keyed = record {
  unique_keys = λ d h.
      is_unique-weaken (λ (a b : Course). courses_clash a b) (λ (a b : Course). a.id == b.id)
        d.courses (λ a b e. ground arith) (ground arith);
  write-is_empty = λ u r h.
      rw
        (
          or_else-is_none u.name r.name (ground arith),
          or_else-is_none u.code r.code (ground arith),
          given_or-is_none u.department_id r.department_id (ground arith),
        )
        refl;
  write-net_update = λ u r.
      rw
        (
          or_else-net_text u.name r.name,
          or_else-net_text u.code r.code,
          given_or-net_column u.department_id r.department_id,
        )
        refl;
  same_rows = λ d. refl;
}

pub teachers-Keyed : Keyed teachers assign_teacher
unfolding constraints teachers_ok
teachers-Keyed = record {
  unique_keys = λ d h.
      is_unique-weaken (λ (a b : Teacher). a.id == b.id) (λ (a b : Teacher). a.id == b.id)
        d.teachers (λ a b e. ground arith) (ground arith);
  write-is_empty = λ u r h.
      rw
        (
          or_else-is_none u.name r.name (ground arith),
          or_else-is_none u.department_id r.department_id (ground arith),
        )
        refl;
  write-net_update = λ u r.
      rw (or_else-net_text u.name r.name, or_else-net_number u.department_id r.department_id) refl;
  same_rows = λ d. refl;
}

pub departments-Keyed : Keyed departments assign_department
unfolding constraints departments_ok
departments-Keyed = record {
  unique_keys = λ d h.
      is_unique-weaken
        (λ (a b : Department).
          a.id == b.id
          || a.college_id == b.college_id && (str_eq a.name b.name || str_eq a.code b.code))
        (λ (a b : Department). a.id == b.id) d.departments (λ a b e. ground arith) (ground arith);
  write-is_empty = λ u r h.
      rw
        (
          or_else-is_none u.name r.name (ground arith),
          or_else-is_none u.code r.code (ground arith),
          or_else-is_none u.college_id r.college_id (ground arith),
        )
        refl;
  write-net_update = λ u r.
      rw
        (
          or_else-net_text u.name r.name,
          or_else-net_text u.code r.code,
          or_else-net_number u.college_id r.college_id,
        )
        refl;
  same_rows = λ d. refl;
}

pub course_offerings-Keyed : Keyed course_offerings assign_course_offering
unfolding constraints offerings_ok
course_offerings-Keyed = record {
  unique_keys = λ d h.
      is_unique-weaken (λ (a b : CourseOffering). offerings_clash a b)
        (λ (a b : CourseOffering). a.id == b.id) d.offerings (λ a b e. ground arith) (ground arith);
  write-is_empty = λ u r h.
      rw
        (
          or_else-is_none u.course_id r.course_id (ground arith),
          or_else-is_none u.teacher_id r.teacher_id (ground arith),
          or_else-is_none u.semester r.semester (ground arith),
          or_else-is_none u.academic_year r.academic_year (ground arith),
          or_else-is_none u.section r.section (ground arith),
        )
        refl;
  write-net_update = λ u r.
      rw
        (
          or_else-net_number u.course_id r.course_id,
          or_else-net_number u.teacher_id r.teacher_id,
          or_else-net_text u.semester r.semester,
          or_else-net_number u.academic_year r.academic_year,
          or_else-net_text u.section r.section,
        )
        refl;
  same_rows = λ d. refl;
}

pub course_schedules-Keyed : Keyed course_schedules assign_course_schedule
unfolding constraints schedules_ok
course_schedules-Keyed = record {
  unique_keys = λ d h.
      is_unique-weaken (λ (a b : CourseSchedule). schedules_clash a b)
        (λ (a b : CourseSchedule). a.id == b.id) d.schedules (λ a b e. ground arith) (ground arith);
  write-is_empty = λ u r h.
      rw
        (
          or_else-is_none u.day r.day (ground arith),
          or_else-is_none u.schedule_type r.schedule_type (ground arith),
          stored_clock-is_none u.start_time r.start_time (ground arith),
          stored_clock-is_none u.end_time r.end_time (ground arith),
          or_else-is_none u.room r.room (ground arith),
          or_else-is_none u.course_offering_id r.course_offering_id (ground arith),
        )
        refl;
  write-net_update = λ u r.
      rw
        (
          or_else-net_text u.day r.day,
          or_else-net_text u.schedule_type r.schedule_type,
          stored_clock-net_time u.start_time r.start_time,
          stored_clock-net_time u.end_time r.end_time,
          or_else-net_text u.room r.room,
          or_else-net_number u.course_offering_id r.course_offering_id,
        )
        refl;
  same_rows = λ d. refl;
}
