-- ===== src/Crud/Catalogue/Tables.antt =====
-- app/crud/college.py, app/crud/course.py and app/crud/teacher.py as tables.
use system_uni.Prelude.{ℕ, refl, String, Option, ◌&&◌, ◌==◌, str_eq, is_none, or_else}
use system_uni.Models.{College, Course, Teacher}
use system_uni.Crud.Columns.{net}
use system_uni.Crud.Students.{net_column, given_or}
use system_uni.Crud.Catalogue.{Table}

pub record CollegeCreate : Type 0 where
  pub name : String
  pub code : String

pub record CollegeUpdate : Type 0 where
  pub name : Option String
  pub code : Option String

abbrev pub colleges : Table College CollegeCreate CollegeUpdate
colleges = record {
  rows = λ d. d.colleges;
  with_rows = λ xs d. record d { colleges = xs };
  detach = λ k d. d;
  key = λ r. r.id;
  make = λ c m. record { id = m.serial; name = c.name; code = c.code; created_at = m.now };
  net_update = λ u r. record { name = net str_eq u.name r.name; code = net str_eq u.code r.code };
  is_empty = λ u. is_none u.name && is_none u.code;
  write = λ u r. record r { name = or_else u.name r.name; code = or_else u.code r.code };
  not_found = "College not found";
  create_conflict = "College code or constraint conflict";
  update_conflict = "College code conflict";
  invalid = "Invalid college data provided";
  delete_conflict = "Cannot delete college due to dependent records (e.g. departments)";
  deleted = "College deleted successfully";
  rows-with_rows = λ xs d. refl;
  key-write = λ u r. refl;
}

pub record CourseCreate : Type 0 where
  pub name : String
  pub code : String
  pub department_id : Option ℕ

pub record CourseUpdate : Type 0 where
  pub name : Option String
  pub code : Option String
  pub department_id : Option ℕ

abbrev pub courses : Table Course CourseCreate CourseUpdate
courses = record {
  rows = λ d. d.courses;
  with_rows = λ xs d. record d { courses = xs };
  detach = λ k d. d;
  key = λ r. r.id;
  make = λ c m. record {
    id = m.serial;
    name = c.name;
    code = c.code;
    created_at = m.now;
    department_id = c.department_id;
  };
  net_update = λ u r. record {
    name = net str_eq u.name r.name;
    code = net str_eq u.code r.code;
    department_id = net_column u.department_id r.department_id;
  };
  is_empty = λ u. is_none u.name && (is_none u.code && is_none u.department_id);
  write = λ u r. record r {
    name = or_else u.name r.name;
    code = or_else u.code r.code;
    department_id = given_or u.department_id r.department_id;
  };
  not_found = "Course not found";
  create_conflict = "Course code or name conflict in this department";
  update_conflict = "Course code or name conflict";
  invalid = "Invalid course data provided";
  delete_conflict = "Cannot delete course due to dependent course offerings";
  deleted = "Course deleted successfully";
  rows-with_rows = λ xs d. refl;
  key-write = λ u r. refl;
}

pub record TeacherCreate : Type 0 where
  pub name : String
  pub department_id : ℕ

pub record TeacherUpdate : Type 0 where
  pub name : Option String
  pub department_id : Option ℕ

abbrev pub teachers : Table Teacher TeacherCreate TeacherUpdate
teachers = record {
  rows = λ d. d.teachers;
  with_rows = λ xs d. record d { teachers = xs };
  detach = λ k d. d;
  key = λ r. r.id;
  make = λ c m. record {
    id = m.serial;
    name = c.name;
    created_at = m.now;
    department_id = c.department_id;
  };
  net_update = λ u r. record {
    name = net str_eq u.name r.name;
    department_id = net ◌==◌ u.department_id r.department_id;
  };
  is_empty = λ u. is_none u.name && is_none u.department_id;
  write = λ u r. record r {
    name = or_else u.name r.name;
    department_id = or_else u.department_id r.department_id;
  };
  not_found = "Teacher not found";
  create_conflict = "Teacher constraint conflict";
  update_conflict = "Teacher constraint conflict";
  invalid = "Invalid teacher data provided";
  delete_conflict = "Cannot delete teacher due to assigned course offerings";
  deleted = "Teacher deleted successfully";
  rows-with_rows = λ xs d. refl;
  key-write = λ u r. refl;
}
