-- ===== src/Api/Students.antt =====
-- app/routers/student.py.
use system_uni.Prelude.{ℕ, ◌≡◌, refl, String, Option, none, some, Bool, true, false, List}
use system_uni.Models.{Db, Student, User, Postgres}
use system_uni.Session.{
  Session, Moment, pure, ◌>>=◌, Preorder, Respects, Guarantees, pure-Guarantees, query-Guarantees,
  >>=-Guarantees, if-Guarantees,
}
use system_uni.Crud.Response.{Response, http_error}
use system_uni.Crud.Students.{
  StudentCreate, StudentUpdate, create_student, update_student, delete_student,
}
use system_uni.Crud.Students.Links.{link_student_to_user}
use system_uni.Crud.Students.Reads.{
  Redis, Read, read_student, read_students, read_missed, cache_hit, refuse,
}
use system_uni.Crud.Enrollment.{is_guest}
use system_uni.Schemas.{student_create_ok, student_update_ok}
use system_uni.Api.Guards.{
  Guard, admin_only, admin_or_user, validated, limit_ok, validated-Guarantees,
}

pub data StudentRoute : Type 0 where
  create : StudentCreate → StudentRoute
  read : ℕ → StudentRoute
  list : ℕ → ℕ → StudentRoute
  update : StudentUpdate → ℕ → StudentRoute
  delete : ℕ → StudentRoute
  link : ℕ → ℕ → StudentRoute

abbrev pub StudentResult : StudentRoute → Type 0
StudentResult (create c) = Student
StudentResult (read k) = Student
StudentResult (list skip limit) = List Student
StudentResult (update c k) = Student
StudentResult (delete k) = String
StudentResult (link k n) = Student

abbrev pub reads_students : StudentRoute → Bool
reads_students (create c) = false
reads_students (read k) = true
reads_students (list skip limit) = true
reads_students (update c k) = false
reads_students (delete k) = false
reads_students (link k n) = false

abbrev pub student_guard : StudentRoute → Guard
student_guard (create c) = admin_only
student_guard (read k) = admin_or_user
student_guard (list skip limit) = admin_or_user
student_guard (update c k) = admin_only
student_guard (delete k) = admin_only
student_guard (link k n) = admin_only

abbrev pub respond : Read → Session (Response Student)
respond r = pure r.response

unfoldable pub serve_students :
    (ℕ → Moment)
    → Postgres
    → Redis
    → (String → Bool)
    → (r : StudentRoute) → User
    → Session (Response (StudentResult r))
serve_students env pg redis email_ok (create c) u =
    validated (student_create_ok email_ok c) (create_student env pg c)
serve_students env pg redis email_ok (read k) u = read_student env redis k u >>= respond
serve_students env pg redis email_ok (list skip limit) u =
    validated (limit_ok limit) (read_students env u skip limit)
serve_students env pg redis email_ok (update c k) u =
    validated (student_update_ok email_ok c) (update_student env pg c k)
serve_students env pg redis email_ok (delete k) u = delete_student env pg k
serve_students env pg redis email_ok (link k n) u = link_student_to_user env pg k n

module _ (R : Db → Db → Type 0) (order : Preorder R) (env : ℕ → Moment)
    (rely : Respects R env) where
  read_missed-Guarantees :
      (redis : Redis) (k : ℕ) (u : User) (hit : Option Student)
      → Guarantees R (read_missed env redis k u hit)
  unfolding read_missed
  read_missed-Guarantees redis k u none = query-Guarantees R order env _ rely
  read_missed-Guarantees redis k u (some s) = pure-Guarantees R order _

  read_student-Guarantees :
      (redis : Redis) (k : ℕ) (u : User) → Guarantees R (read_student env redis k u)
  unfolding read_student
  read_student-Guarantees redis k u =
      if-Guarantees R (is_guest u.role) (pure-Guarantees R order (refuse 403 "forbidden"))
        (read_missed-Guarantees redis k u (cache_hit redis k u))

  read_students-Guarantees :
      (u : User) (skip limit : ℕ) → Guarantees R (read_students env u skip limit)
  unfolding read_students
  read_students-Guarantees u skip limit =
      if-Guarantees R (is_guest u.role)
        (pure-Guarantees R order {A = Response (List Student)} (http_error 403 "forbidden"))
        (query-Guarantees R order env _ rely)

  pub serve_students-Guarantees :
      (pg : Postgres) (redis : Redis) (email_ok : String → Bool) (r : StudentRoute) (u : User)
      → reads_students r ≡ true
      → Guarantees R (serve_students env pg redis email_ok r u)
  unfolding serve_students
  serve_students-Guarantees pg redis email_ok (create c) u h = cc
  serve_students-Guarantees pg redis email_ok (read k) u h =
      >>=-Guarantees R order (read_student env redis k u) respond
        (read_student-Guarantees redis k u) (λ r. pure-Guarantees R order r.response)
  serve_students-Guarantees pg redis email_ok (list skip limit) u h =
      validated-Guarantees R order (limit_ok limit) (read_students env u skip limit)
        (read_students-Guarantees u skip limit)
  serve_students-Guarantees pg redis email_ok (update c k) u h = cc
  serve_students-Guarantees pg redis email_ok (delete k) u h = cc
  serve_students-Guarantees pg redis email_ok (link k n) u h = cc

pub students-admin_only :
    (r : StudentRoute) → reads_students r ≡ false → student_guard r ≡ admin_only
students-admin_only (create c) h = refl
students-admin_only (read k) h = cc
students-admin_only (list skip limit) h = cc
students-admin_only (update c k) h = refl
students-admin_only (delete k) h = refl
students-admin_only (link k n) h = refl
