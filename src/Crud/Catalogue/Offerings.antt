-- ===== src/Crud/Catalogue/Offerings.antt =====
-- app/crud/courseoffering.py as a table.
use system_uni.Prelude.{ℕ, refl, String, Option, ◌&&◌, ◌==◌, str_eq, is_none, or_else}
use system_uni.Models.{CourseOffering}
use system_uni.Crud.Columns.{net}
use system_uni.Crud.Catalogue.{Table}

pub record CourseOfferingCreate : Type 0 where
  pub course_id : ℕ
  pub teacher_id : ℕ
  pub semester : String
  pub academic_year : ℕ
  pub section : String

pub record CourseOfferingUpdate : Type 0 where
  pub course_id : Option ℕ
  pub teacher_id : Option ℕ
  pub semester : Option String
  pub academic_year : Option ℕ
  pub section : Option String

abbrev pub course_offerings : Table CourseOffering CourseOfferingCreate CourseOfferingUpdate
course_offerings = record {
  rows = λ d. d.offerings;
  with_rows = λ xs d. record d { offerings = xs };
  detach = λ k d. d;
  key = λ r. r.id;
  make = λ c m. record {
    id = m.serial;
    course_id = c.course_id;
    teacher_id = c.teacher_id;
    semester = c.semester;
    academic_year = c.academic_year;
    section = c.section;
    created_at = m.now;
  };
  net_update = λ u r. record {
    course_id = net ◌==◌ u.course_id r.course_id;
    teacher_id = net ◌==◌ u.teacher_id r.teacher_id;
    semester = net str_eq u.semester r.semester;
    academic_year = net ◌==◌ u.academic_year r.academic_year;
    section = net str_eq u.section r.section;
  };
  is_empty = λ u.
      is_none u.course_id
      && (is_none u.teacher_id
          && (is_none u.semester && (is_none u.academic_year && is_none u.section)));
  write = λ u r. record r {
    course_id = or_else u.course_id r.course_id;
    teacher_id = or_else u.teacher_id r.teacher_id;
    semester = or_else u.semester r.semester;
    academic_year = or_else u.academic_year r.academic_year;
    section = or_else u.section r.section;
  };
  not_found = "Course offering not found";
  create_conflict = "Duplicate course offering constraint";
  update_conflict = "Course offering constraint conflict";
  invalid = "Invalid course offering data";
  delete_conflict = "Cannot delete course offering due to active enrollments or schedules";
  deleted = "Course offering deleted successfully";
  rows-with_rows = λ xs d. refl;
  key-write = λ u r. refl;
}
