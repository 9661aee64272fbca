-- ===== src/Crud/Students.antt =====
-- app/crud/student.py: create, update and delete. `version_id` is SQLAlchemy's
-- version column: an UPDATE or DELETE of a student holds only for the version that was loaded.
pub mod Versions
pub mod Links
pub mod Reads
pub mod Cache
mod Tests
use system_uni.Prelude.{
  ℕ, ◌+◌, ◌≡◌, String, Option, none, some, Bool, true, false, not, ◌&&◌, List, [], ◌∷◌, ◌++◌, ◌==◌,
  str_eq, eq_column, or_else, if◌then◌else◌, find?, select_where, update_where, any, is_none,
}
use system_uni.Models.{Db, Student, User, UserRole, admin, user, guest, Postgres}
use system_uni.Session.{Session, Moment, query, pure, raise, ◌>>=◌, sqlalchemy_error}
use system_uni.Security.{get_user}
use system_uni.Crud.Columns.{net, page}
use system_uni.Crud.Response.{
  Response, success, http_error, Commit, written, integrity_failed, data_failed, stale, commit,
  refreshed, answer, answer_delete,
}
use system_uni.Crud.Enrollment.{get_student, is_guest}

-- app/schemas/student.py.
pub record StudentCreate : Type 0 where
  pub name : String
  pub age : Option ℕ
  pub email : String
  pub department_id : ℕ

pub record StudentUpdate : Type 0 where
  pub name : Option String
  pub age : Option ℕ
  pub email : Option String
  pub department_id : Option ℕ
  pub version_id : Option ℕ

abbrev pub new_student : StudentCreate → Moment → Student
new_student s m = record {
  id = m.serial;
  name = s.name;
  age = s.age;
  email = s.email;
  created_at = m.now;
  department_id = s.department_id;
  user_id = none;
  version_id = 1;
}

abbrev pub with_student : Student → Db → Db
with_student s d = record d { students = d.students ++ s ∷ [] }

module _ (env : ℕ → Moment) (pg : Postgres) (s : StudentCreate) where
  unfoldable pub create_student : Session (Response Student)
  create_student =
      commit env pg (λ m d. some (new_student s m, with_student (new_student s m) d))
      >>= answer (λ (row : Student). query env (get_student row.id) >>= refreshed)
          "Student email or constraint already exists" "Invalid student data provided"

-- The columns that an UPDATE sets, besides the version.
pub record StudentColumns : Type 0 where
  pub name : Option String
  pub age : Option ℕ
  pub email : Option String
  pub department_id : Option ℕ
  pub user_id : Option ℕ

abbrev pub net_column : Option ℕ → Option ℕ → Option ℕ
net_column none old = none
net_column (some v) old = if eq_column old v then none else some v

unfoldable pub assigned_student : StudentUpdate → Student → StudentColumns
assigned_student c s = record {
  name = net str_eq c.name s.name;
  age = net_column c.age s.age;
  email = net str_eq c.email s.email;
  department_id = net ◌==◌ c.department_id s.department_id;
  user_id = none;
}

abbrev pub no_student_column : StudentColumns → Bool
no_student_column c =
    is_none c.name
    && (is_none c.age && (is_none c.email && (is_none c.department_id && is_none c.user_id)))

abbrev pub given_or : Option ℕ → Option ℕ → Option ℕ
given_or none old = old
given_or (some v) old = some v

unfoldable pub write_student : ℕ → StudentColumns → Student → Student
write_student version c s = record s {
  name = or_else c.name s.name;
  age = given_or c.age s.age;
  email = or_else c.email s.email;
  department_id = or_else c.department_id s.department_id;
  user_id = given_or c.user_id s.user_id;
  version_id = version + 1;
}

-- The row `k`, at the version that was loaded.
abbrev pub at_version : ℕ → ℕ → Student → Bool
at_version k version s = s.id == k && s.version_id == version

-- `UPDATE student SET ..., version_id = version + 1 WHERE id = k AND version_id = version`, if a
-- column changed.
unfoldable pub flush_student : ℕ → ℕ → StudentColumns → Db → Option (Unit {0} × Db)
flush_student k version c d =
    if no_student_column c
    then some (tt, d)
    else if any (at_version k version) d.students
    then some (
      tt,
      record d {
        students = update_where (at_version k version) (write_student version c) d.students;
      },
    )
    else none

-- The handlers of an update also catch a StaleDataError.
unfoldable pub answer_versioned :
    {A B : Type 0}
    → (A → Session (Response B))
    → String
    → String
    → Session (Response B)
    → Commit A
    → Session (Response B)
answer_versioned rest conflict modified on_data_error (written a) = rest a
answer_versioned rest conflict modified on_data_error integrity_failed =
    pure (http_error 409 conflict)
answer_versioned rest conflict modified on_data_error data_failed = on_data_error
answer_versioned rest conflict modified on_data_error stale = pure (http_error 409 modified)

abbrev pub version_differs : Option ℕ → ℕ → Bool
version_differs none v = false
version_differs (some w) v = not (v == w)

module _ (env : ℕ → Moment) (pg : Postgres) where
  unfoldable pub write_loaded : StudentColumns → Student → Session (Commit (Unit {0}))
  write_loaded c s = commit env pg (λ m d. flush_student s.id s.version_id c d)

  unfoldable pub found_student : StudentUpdate → Option Student → Session (Response Student)
  found_student c none = pure (http_error 404 "Student not found")
  found_student c (some s) =
      if version_differs c.version_id s.version_id
      then pure (
          http_error 409
            "Student record has been modified by another transaction (version mismatch)")
      else (write_loaded (assigned_student c s) s
          >>= answer_versioned (λ (done : Unit {0}). query env (get_student s.id) >>= refreshed)
              "Student email or constraint conflict"
              "Student record has been modified by another transaction"
              (pure (http_error 422 "Invalid student data provided")))

  -- Dropping the row from the cache never fails and leaves the database alone.
  unfoldable pub update_student : StudentUpdate → ℕ → Session (Response Student)
  update_student c student_id = query env (get_student student_id) >>= found_student c

-- A DELETE holds for the loaded version only, too.
unfoldable pub flush_removal : ℕ → ℕ → Db → Option (Unit {0} × Db)
flush_removal k version d =
    if any (at_version k version) d.students
    then some (
      tt,
      record d {
        students = select_where (λ (s : Student). not (at_version k version s)) d.students;
      },
    )
    else none

module _ (env : ℕ → Moment) (pg : Postgres) where
  unfoldable pub found_for_removal : Option Student → Session (Response String)
  found_for_removal none = pure (http_error 404 "Student not found")
  found_for_removal (some s) =
      commit env pg (λ m d. flush_removal s.id s.version_id d)
      >>= answer_delete (pure (success "Student deleted successfully"))
          "Cannot delete student due to existing dependent records (e.g. enrollments)"

  unfoldable pub delete_student : ℕ → Session (Response String)
  delete_student student_id = query env (get_student student_id) >>= found_for_removal
