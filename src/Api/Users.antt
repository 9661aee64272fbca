-- ===== src/Api/Users.antt =====
-- app/routers/user.py: the endpoints for users that are signed in, and register and login.
use system_uni.Prelude.{
  ℕ, ◌≡◌, refl, String, Option, none, some, Bool, true, false, List, if◌then◌else◌,
}
use system_uni.Models.{Db, User, Student, Postgres}
use system_uni.Session.{
  Session, Moment, pure, ◌>>=◌, Preorder, Respects, Guarantees, pure-Guarantees, query-Guarantees,
  >>=-Guarantees, if-Guarantees,
}
use system_uni.Crud.Response.{Response, success, http_error}
use system_uni.Crud.Enrollment.{is_guest}
use system_uni.Security.{Jwt}
use system_uni.Crud.Accounts.{
  Passwords, UserUpdate, update_user, update_user_me, delete_user, read_user, read_users,
  register_user, login_user,
}
use system_uni.Crud.Students.Links.{get_current_student}
use system_uni.Schemas.{user_update_ok, user_register_ok}
use system_uni.Api.Guards.{Guard, signed_in, admin_only, validated, limit_ok, validated-Guarantees}

pub data UserRoute : Type 0 where
  me my_student : UserRoute
  update_me : Option String → Option String → Option String → UserRoute
  read : ℕ → UserRoute
  list : ℕ → ℕ → UserRoute
  update : UserUpdate → ℕ → UserRoute
  delete : ℕ → UserRoute

abbrev pub UserResult : UserRoute → Type 0
UserResult me = User
UserResult my_student = Student
UserResult (update_me username email password) = User
UserResult (read k) = User
UserResult (list skip limit) = List User
UserResult (update c k) = User
UserResult (delete k) = String

abbrev pub reads_users : UserRoute → Bool
reads_users me = true
reads_users my_student = true
reads_users (update_me username email password) = false
reads_users (read k) = true
reads_users (list skip limit) = true
reads_users (update c k) = false
reads_users (delete k) = false

abbrev pub user_guard : UserRoute → Guard
user_guard me = signed_in
user_guard my_student = signed_in
user_guard (update_me username email password) = signed_in
user_guard (read k) = admin_only
user_guard (list skip limit) = admin_only
user_guard (update c k) = admin_only
user_guard (delete k) = admin_only

abbrev pub student_or_404 : Option Student → Session (Response Student)
student_or_404 none = pure (http_error 404 "Student record not found")
student_or_404 (some s) = pure (success s)

abbrev pub listed_users : List User → Session (Response (List User))
listed_users us = pure (success us)

module _ (env : ℕ → Moment) (pg : Postgres) where
  unfoldable pub get_current_student_endpoint : User → Session (Response Student)
  get_current_student_endpoint u =
      if is_guest u.role
      then pure (http_error 403 "forbidden")
      else (get_current_student env pg u.id >>= student_or_404)

  unfoldable pub serve_users :
      (String → String)
      → Passwords
      → (String → Bool)
      → (r : UserRoute) → User
      → Session (Response (UserResult r))
  serve_users lower passwords email_ok me u = pure (success u)
  serve_users lower passwords email_ok my_student u = get_current_student_endpoint u
  serve_users lower passwords email_ok (update_me username email password) u =
      validated
        (user_update_ok email_ok
          (record { username = username; email = email; role = none; password = password }))
        (update_user_me env pg lower passwords username email password u)
  serve_users lower passwords email_ok (read k) u = read_user env k
  serve_users lower passwords email_ok (list skip limit) u =
      validated (limit_ok limit) (read_users env skip limit >>= listed_users)
  serve_users lower passwords email_ok (update c k) u =
      validated (user_update_ok email_ok c) (update_user env pg lower passwords c k)
  serve_users lower passwords email_ok (delete k) u = delete_user env pg k

-- The two endpoints without a token, after the rate limit.
module _ (env : ℕ → Moment) (pg : Postgres) (lower : String → String) (passwords : Passwords)
    (email_ok : String → Bool) where
  unfoldable register_user_endpoint : String → String → String → Session (Response User)
  register_user_endpoint username email password =
      validated (user_register_ok email_ok username email password)
        (register_user env pg lower passwords username email password)

  unfoldable login_user_endpoint :
      {Token : Type 0} → Jwt Token → ℕ → ℕ → String → String → Session (Response Token)
  login_user_endpoint jwt expire_minutes now email password =
      validated (email_ok email)
        (login_user env jwt expire_minutes now lower passwords email password)

module _ (R : Db → Db → Type 0) (order : Preorder R) (env : ℕ → Moment)
    (rely : Respects R env) where
  student_or_404-Guarantees : (r : Option Student) → Guarantees R (student_or_404 r)
  student_or_404-Guarantees none =
      pure-Guarantees R order {A = Response Student} (http_error 404 "Student record not found")
  student_or_404-Guarantees (some s) = pure-Guarantees R order (success s)

  current_student-Guarantees :
      (pg : Postgres) (u : User) → Guarantees R (get_current_student_endpoint env pg u)
  unfolding get_current_student_endpoint get_current_student
  current_student-Guarantees pg u =
      if-Guarantees R (is_guest u.role)
        (pure-Guarantees R order {A = Response Student} (http_error 403 "forbidden"))
        (>>=-Guarantees R order _ student_or_404 (query-Guarantees R order env _ rely)
          student_or_404-Guarantees)

  pub serve_users-Guarantees :
      (pg : Postgres) (lower : String → String) (passwords : Passwords) (email_ok : String → Bool)
      (r : UserRoute) (u : User)
      → reads_users r ≡ true
      → Guarantees R (serve_users env pg lower passwords email_ok r u)
  unfolding serve_users read_user read_users
  serve_users-Guarantees pg lower passwords email_ok me u h = pure-Guarantees R order (success u)
  serve_users-Guarantees pg lower passwords email_ok my_student u h =
      current_student-Guarantees pg u
  serve_users-Guarantees pg lower passwords email_ok (update_me username email password) u h = cc
  serve_users-Guarantees pg lower passwords email_ok (read k) u h =
      query-Guarantees R order env _ rely
  serve_users-Guarantees pg lower passwords email_ok (list skip limit) u h =
      validated-Guarantees R order (limit_ok limit) (read_users env skip limit >>= listed_users) (
        >>=-Guarantees R order _ listed_users (query-Guarantees R order env _ rely)
          (λ us. pure-Guarantees R order (success us)))
  serve_users-Guarantees pg lower passwords email_ok (update c k) u h = cc
  serve_users-Guarantees pg lower passwords email_ok (delete k) u h = cc

-- The one request that writes the account of its sender.
abbrev pub writes_self : UserRoute → Bool
writes_self me = false
writes_self my_student = false
writes_self (update_me username email password) = true
writes_self (read k) = false
writes_self (list skip limit) = false
writes_self (update c k) = false
writes_self (delete k) = false

pub users-admin_only :
    (r : UserRoute) → reads_users r ≡ false → writes_self r ≡ false → user_guard r ≡ admin_only
users-admin_only (update_me username email password) h h' = cc
users-admin_only me h h' = cc
users-admin_only my_student h h' = cc
users-admin_only (read k) h h' = cc
users-admin_only (list skip limit) h h' = cc
users-admin_only (update c k) h h' = refl
users-admin_only (delete k) h h' = refl
