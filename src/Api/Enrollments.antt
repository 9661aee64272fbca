-- ===== src/Api/Enrollments.antt =====
-- app/routers/enrollment.py.
use system_uni.Prelude.{ℕ, ◌≡◌, refl, String, Bool, true, false, List}
use system_uni.Models.{Db, Enrollment, User, Postgres}
use system_uni.Session.{
  Session, Moment, Preorder, Respects, Guarantees, pure-Guarantees, query-Guarantees, if-Guarantees,
}
use system_uni.Crud.Response.{Response, http_error}
use system_uni.Crud.Enrollment.{
  EnrollmentCreate, EnrollmentUpdate, create_enrollment, update_enrollment, read_enrollment,
  read_enrollments, delete_enrollment, is_guest,
}
use system_uni.Schemas.{enrollment_create_ok, enrollment_update_ok}
use system_uni.Api.Guards.{
  Guard, admin_only, admin_or_user, validated, limit_ok, validated-Guarantees,
}

pub data EnrollmentRoute : Type 0 where
  create : EnrollmentCreate → EnrollmentRoute
  read : ℕ → EnrollmentRoute
  list : ℕ → ℕ → EnrollmentRoute
  update : EnrollmentUpdate → ℕ → EnrollmentRoute
  delete : ℕ → EnrollmentRoute

abbrev pub EnrollmentResult : EnrollmentRoute → Type 0
EnrollmentResult (create c) = Enrollment
EnrollmentResult (read k) = Enrollment
EnrollmentResult (list skip limit) = List Enrollment
EnrollmentResult (update c k) = Enrollment
EnrollmentResult (delete k) = String

abbrev pub reads_enrollments : EnrollmentRoute → Bool
reads_enrollments (create c) = false
reads_enrollments (read k) = true
reads_enrollments (list skip limit) = true
reads_enrollments (update c k) = false
reads_enrollments (delete k) = false

abbrev pub enrollment_guard : EnrollmentRoute → Guard
enrollment_guard (create c) = admin_only
enrollment_guard (read k) = admin_or_user
enrollment_guard (list skip limit) = admin_or_user
enrollment_guard (update c k) = admin_only
enrollment_guard (delete k) = admin_only

unfoldable pub serve_enrollments :
    (ℕ → Moment) → Postgres → (r : EnrollmentRoute) → User → Session (Response (EnrollmentResult r))
serve_enrollments env pg (create c) u =
    validated (enrollment_create_ok c) (create_enrollment env pg c)
serve_enrollments env pg (read k) u = read_enrollment env k u
serve_enrollments env pg (list skip limit) u =
    validated (limit_ok limit) (read_enrollments env u skip limit)
serve_enrollments env pg (update c k) u =
    validated (enrollment_update_ok c) (update_enrollment env pg c k)
serve_enrollments env pg (delete k) u = delete_enrollment env pg k

module _ (R : Db → Db → Type 0) (order : Preorder R) (env : ℕ → Moment)
    (rely : Respects R env) where
  read_enrollment-Guarantees : (k : ℕ) (u : User) → Guarantees R (read_enrollment env k u)
  unfolding read_enrollment
  read_enrollment-Guarantees k u =
      if-Guarantees R (is_guest u.role)
        (pure-Guarantees R order {A = Response Enrollment} (http_error 403 "forbidden"))
        (query-Guarantees R order env _ rely)

  read_enrollments-Guarantees :
      (u : User) (skip limit : ℕ) → Guarantees R (read_enrollments env u skip limit)
  unfolding read_enrollments
  read_enrollments-Guarantees u skip limit =
      if-Guarantees R (is_guest u.role)
        (pure-Guarantees R order {A = Response (List Enrollment)} (http_error 403 "forbidden"))
        (query-Guarantees R order env _ rely)

  pub serve_enrollments-Guarantees :
      (pg : Postgres) (r : EnrollmentRoute) (u : User)
      → reads_enrollments r ≡ true
      → Guarantees R (serve_enrollments env pg r u)
  unfolding serve_enrollments
  serve_enrollments-Guarantees pg (create c) u h = cc
  serve_enrollments-Guarantees pg (read k) u h = read_enrollment-Guarantees k u
  serve_enrollments-Guarantees pg (list skip limit) u h =
      validated-Guarantees R order (limit_ok limit) (read_enrollments env u skip limit)
        (read_enrollments-Guarantees u skip limit)
  serve_enrollments-Guarantees pg (update c k) u h = cc
  serve_enrollments-Guarantees pg (delete k) u h = cc

pub enrollments-admin_only :
    (r : EnrollmentRoute) → reads_enrollments r ≡ false → enrollment_guard r ≡ admin_only
enrollments-admin_only (create c) h = refl
enrollments-admin_only (read k) h = cc
enrollments-admin_only (list skip limit) h = cc
enrollments-admin_only (update c k) h = refl
enrollments-admin_only (delete k) h = refl
