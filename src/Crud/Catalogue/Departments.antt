-- ===== src/Crud/Catalogue/Departments.antt =====
-- app/crud/department.py as a table.
pub mod Removal
use system_uni.Prelude.{
  ℕ, ◌≡◌, refl, String, Option, none, some, Bool, ◌&&◌, List, ◌==◌, str_eq, is_none, or_else,
  eq_column, update_where,
}
use system_uni.Models.{Db, Department, Course}
use system_uni.Session.{Moment}
use system_uni.Crud.Columns.{net}
use system_uni.Crud.Catalogue.{Table}

pub record DepartmentCreate : Type 0 where
  pub name : String
  pub code : String
  pub college_id : ℕ

pub record DepartmentUpdate : Type 0 where
  pub name : Option String
  pub code : Option String
  pub college_id : Option ℕ

abbrev pub course_of : ℕ → Course → Bool
course_of k c = eq_column c.department_id k

abbrev pub without_department : Course → Course
without_department c = record c { department_id = none }

-- `course.department_id` may be NULL, and that of `teacher` and `student` may not.
unfoldable pub detach_courses : ℕ → Db → Db
detach_courses k d = record d { courses = update_where (course_of k) without_department d.courses }

abbrev pub departments : Table Department DepartmentCreate DepartmentUpdate
departments = record {
  rows = λ d. d.departments;
  with_rows = λ xs d. record d { departments = xs };
  detach = detach_courses;
  key = λ r. r.id;
  make = λ c m. record {
    id = m.serial;
    name = c.name;
    code = c.code;
    created_at = m.now;
    college_id = c.college_id;
  };
  net_update = λ u r. record {
    name = net str_eq u.name r.name;
    code = net str_eq u.code r.code;
    college_id = net ◌==◌ u.college_id r.college_id;
  };
  is_empty = λ u. is_none u.name && (is_none u.code && is_none u.college_id);
  write = λ u r. record r {
    name = or_else u.name r.name;
    code = or_else u.code r.code;
    college_id = or_else u.college_id r.college_id;
  };
  not_found = "Department not found";
  create_conflict = "Department code or name conflict in this college";
  update_conflict = "Department code or name conflict";
  invalid = "Invalid department data provided";
  delete_conflict =
      "Cannot delete department due to dependent records (teachers, students, courses)";
  deleted = "Department deleted successfully";
  rows-with_rows = λ xs d. refl;
  key-write = λ u r. refl;
}
