-- ===== src/Crud/Students/Links.antt =====
-- `link_student_to_user` and `get_current_student` of app/crud/student.py.
pub mod Laws
use system_uni.Prelude.{
  ℕ, Option, none, some, Bool, true, false, not, List, [], ◌==◌, eq_column, if◌then◌else◌, find?,
  is_none,
}
use system_uni.Models.{Db, Student, User, Postgres}
use system_uni.Session.{Session, Moment, query, pure, raise, ◌>>=◌, sqlalchemy_error}
use system_uni.Security.{get_user}
use system_uni.Crud.Response.{Response, http_error, refreshed}
use system_uni.Crud.Enrollment.{get_student}
use system_uni.Crud.Students.{StudentColumns, write_loaded, answer_versioned}

abbrev pub link_columns : ℕ → StudentColumns
link_columns k = record {
  name = none;
  age = none;
  email = none;
  department_id = none;
  user_id = some k;
}

abbrev pub student_of : ℕ → Db → Option Student
student_of user_id d = find? (λ (s : Student). eq_column s.user_id user_id) d.students

module _ (env : ℕ → Moment) (pg : Postgres) where
  -- Both rows are refreshed, and the student is returned.
  unfoldable pub user_refreshed : Response Student → Option User → Session (Response Student)
  user_refreshed r none = raise (sqlalchemy_error [])
  user_refreshed r (some u) = pure r

  unfoldable pub linked : ℕ → ℕ → Session (Response Student)
  linked student_id user_id =
      query env (get_student student_id)
      >>= refreshed
      >>= (λ (r : Response Student). query env (get_user user_id) >>= user_refreshed r)

  -- `link_student_to_user`: the user's student is loaded by a statement of its own.
  unfoldable pub link_unlinked : Student → ℕ → Option Student → Session (Response Student)
  link_unlinked s user_id (some other) = pure (http_error 409 "user already linked to student")
  link_unlinked s user_id none =
      write_loaded env pg (link_columns user_id) s
      >>= answer_versioned (λ (done : Unit {0}). linked s.id user_id)
          "Linking constraint failed: student or user already linked"
          "Student record has been modified by another transaction" (raise (sqlalchemy_error []))

  unfoldable pub get_current_student : ℕ → Session (Option Student)
  get_current_student user_id = query env (student_of user_id)

  unfoldable pub link_found : Student → Option User → Session (Response Student)
  link_found s none = pure (http_error 404 "User not found")
  link_found s (some u) =
      if not (is_none s.user_id)
      then pure (http_error 409 "student already linked to user")
      else (get_current_student u.id >>= link_unlinked s u.id)

  unfoldable pub link_loaded : ℕ → Option Student → Session (Response Student)
  link_loaded user_id none = pure (http_error 404 "Student not found")
  link_loaded user_id (some s) = query env (get_user user_id) >>= link_found s

  unfoldable pub link_student_to_user : ℕ → ℕ → Session (Response Student)
  link_student_to_user student_id user_id =
      query env (get_student student_id) >>= link_loaded user_id
