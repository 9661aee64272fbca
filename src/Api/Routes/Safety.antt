-- ===== src/Api/Routes/Safety.antt =====
-- The requests of the API by what they can change: GET requests, and requests that write.
use system_uni.Prelude.{ℕ, ◌≡◌, ◌∙◌, ap, Option, none, some, Bool, true, false, [], ◌∷◌}
use system_uni.Models.{Db, User, admin}
use system_uni.Session.{
  pure, Preorder, Respects, Guarantees, pure-Guarantees, query-Guarantees, >>=-Guarantees,
}
use system_uni.Security.{get_current_user, decoded, decode_access_token, authorize}
use system_uni.Crud.Response.{Response, success, http_error}
use system_uni.Crud.Accounts.{is_admin}
use system_uni.Api.Guards.{guard, admin_only}
use system_uni.Api.Catalogue.Reads.{serve_catalogue-Guarantees, catalogue-admin_only}
use system_uni.Api.Reports.Reads.{transcript, export, job_status, serve_reports-Guarantees}
use system_uni.Api.Students.{serve_students-Guarantees, students-admin_only}
use system_uni.Api.Enrollments.{serve_enrollments-Guarantees, enrollments-admin_only}
use system_uni.Api.Users.{serve_users-Guarantees, writes_self, users-admin_only}
use system_uni.Api.Routes.{
  Route, on_reports, on_colleges, on_courses, on_offerings, on_departments, on_teachers,
  on_students, on_enrollments, on_schedules, on_users, Result, is_get, guard_of, Server, serve,
  let_in, after_login, request, college_resource, course_resource, offering_resource,
  department_resource, teacher_resource, schedule_resource,
}

module _ {Token : Type 0} (s : Server Token) (R : Db → Db → Type 0) (order : Preorder R)
    (rely : Respects R s.env) where
  serve-Guarantees : (r : Route) (u : User) → is_get r ≡ true → Guarantees R (serve s r u)
  unfolding serve is_get
  serve-Guarantees (on_reports r) u h =
      serve_reports-Guarantees R order s.env rely s.pg s.floats r u h
  serve-Guarantees (on_colleges r) u h =
      serve_catalogue-Guarantees R order s.env rely s.pg (college_resource s) r h
  serve-Guarantees (on_courses r) u h =
      serve_catalogue-Guarantees R order s.env rely s.pg (course_resource s) r h
  serve-Guarantees (on_offerings r) u h =
      serve_catalogue-Guarantees R order s.env rely s.pg (offering_resource s) r h
  serve-Guarantees (on_departments r) u h =
      serve_catalogue-Guarantees R order s.env rely s.pg (department_resource s) r h
  serve-Guarantees (on_teachers r) u h =
      serve_catalogue-Guarantees R order s.env rely s.pg (teacher_resource s) r h
  serve-Guarantees (on_students r) u h =
      serve_students-Guarantees R order s.env rely s.pg s.redis s.email_ok r u h
  serve-Guarantees (on_enrollments r) u h =
      serve_enrollments-Guarantees R order s.env rely s.pg r u h
  serve-Guarantees (on_schedules r) u h =
      serve_catalogue-Guarantees R order s.env rely s.pg (schedule_resource s) r h
  serve-Guarantees (on_users r) u h =
      serve_users-Guarantees R order s.env rely s.pg s.lower s.passwords s.email_ok r u h

  let_in-Guarantees :
      (r : Route) (a : Response User) → is_get r ≡ true → Guarantees R (let_in s r a)
  unfolding let_in
  let_in-Guarantees r (http_error code detail) h =
      pure-Guarantees R order {A = Response (Result r)} (http_error code detail)
  let_in-Guarantees r (success u) h = serve-Guarantees r u h

  decoded-Guarantees : (t : Option (ℕ × ℕ)) → Guarantees R (decoded s.env t)
  unfolding decoded
  decoded-Guarantees none =
      pure-Guarantees R order {A = Response User} (http_error 401 "invalid token")
  decoded-Guarantees (some (k, v)) = query-Guarantees R order s.env _ rely

  get_current_user-Guarantees :
      (now : ℕ) (credentials : Option Token)
      → Guarantees R (get_current_user s.env s.jwt now credentials)
  unfolding get_current_user
  get_current_user-Guarantees now none =
      pure-Guarantees R order {A = Response User} (http_error 401 "not authenticated")
  get_current_user-Guarantees now (some t) = decoded-Guarantees (decode_access_token s.jwt now t)

  -- A GET request changes nothing: whatever relation the other sessions keep between the database
  -- before and after their transactions holds of the database before and after the request.
  pub request-Guarantees :
      (credentials : Option Token) (now : ℕ) (r : Route)
      → is_get r ≡ true
      → Guarantees R (request s credentials now r)
  unfolding request after_login
  request-Guarantees credentials now r h =
      >>=-Guarantees R order (get_current_user s.env s.jwt now credentials) _
        (get_current_user-Guarantees now credentials)
        (λ a. let_in-Guarantees r (guard (guard_of r) a) h)

-- The requests that write on behalf of whoever sends them.
unfoldable pub writes_for_caller : Route → Bool
writes_for_caller (on_reports (transcript k)) = false
writes_for_caller (on_reports (export k)) = true
writes_for_caller (on_reports (job_status k)) = false
writes_for_caller (on_colleges r) = false
writes_for_caller (on_courses r) = false
writes_for_caller (on_offerings r) = false
writes_for_caller (on_departments r) = false
writes_for_caller (on_teachers r) = false
writes_for_caller (on_students r) = false
writes_for_caller (on_enrollments r) = false
writes_for_caller (on_schedules r) = false
writes_for_caller (on_users r) = writes_self r

guard_of-admin_only :
    (r : Route) → is_get r ≡ false → writes_for_caller r ≡ false → guard_of r ≡ admin_only
unfolding is_get writes_for_caller guard_of
guard_of-admin_only (on_reports (transcript k)) h h' = cc
guard_of-admin_only (on_reports (export k)) h h' = cc
guard_of-admin_only (on_reports (job_status k)) h h' = cc
guard_of-admin_only (on_colleges r) h h' = catalogue-admin_only r h
guard_of-admin_only (on_courses r) h h' = catalogue-admin_only r h
guard_of-admin_only (on_offerings r) h h' = catalogue-admin_only r h
guard_of-admin_only (on_departments r) h h' = catalogue-admin_only r h
guard_of-admin_only (on_teachers r) h h' = catalogue-admin_only r h
guard_of-admin_only (on_students r) h h' = students-admin_only r h
guard_of-admin_only (on_enrollments r) h h' = enrollments-admin_only r h
guard_of-admin_only (on_schedules r) h h' = catalogue-admin_only r h
guard_of-admin_only (on_users r) h h' = users-admin_only r h h'

authorize-403 :
    (u : User)
    → is_admin u ≡ false
    → authorize (admin ∷ []) (success u) ≡ http_error 403 "forbidden"
unfolding authorize
authorize-403 u h = simp (h)

-- Once the caller is authenticated and is not an admin, every request that writes is answered 403
-- without a further statement; the exceptions are an export and the update of one's own account.
pub after_login-403 :
    {Token : Type 0} (s : Server Token) (r : Route) (u : User)
    → is_get r ≡ false
    → writes_for_caller r ≡ false
    → is_admin u ≡ false
    → after_login s r (success u) ≡ pure (http_error 403 "forbidden")
unfolding after_login let_in
after_login-403 s r u h h' k =
    ap (λ g. let_in s r (guard g (success u))) (guard_of-admin_only r h h')
    ∙ ap (let_in s r) (authorize-403 u k)
