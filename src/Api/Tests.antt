-- ===== src/Api/Tests.antt =====
-- The theorems on the endpoints and the command line at concrete inputs.
use system_uni.Prelude.{suc, ◌≡◌, refl, String, some, none, true, false, [], ◌∷◌, ◌∙◌}
use system_uni.Models.{
  Db, User, Student, user, jobs_ok, constraints, users_ok, students_ok, colleges_ok, departments_ok,
  courses_ok, teachers_ok, offerings_ok, schedules_ok, enrollments_ok, reports_ok,
}
use system_uni.Session.{
  World, Preorder, Guarantees, try_except, ◌>>=◌, query, statement, Holds, pure, ok,
}
use system_uni.Security.{Claims, create_access_token}
use system_uni.Security.Sample.{plain}
use system_uni.Worker.Store.{get_job, find_report}
use system_uni.Worker.Sample.{quiet, quiet-IsCalm, quiet-Respects, strict, empty, floats}
use system_uni.Worker.System.Invariant.{IsSound}
use system_uni.Crud.Response.{http_error, success, commit}
use system_uni.Crud.Accounts.{check_login, find_email, with_user}
use system_uni.Api.Reports.{
  student_not_found, job_not_found, get_transcript_endpoint, export_transcript_async,
  get_job_status,
}
use system_uni.Api.Reports.Access.{Answers, hidden_rows_404}
use system_uni.Api.Reports.Export.{Exports, export_transcript_async-Exports}
use system_uni.Api.Reports.Progress.{Polls, get_job_status-Polls}
use system_uni.Api.Students.{delete, read}
use system_uni.Api.Routes.{Server, on_students, is_get, after_login, request}
use system_uni.Api.Routes.Safety.{writes_for_caller, request-Guarantees, after_login-403}
use system_uni.Crud.Sample.{clear}
use system_uni.Cli.{
  value, entered, Terminal, Credentials, resolve, ensure_admin, unless_existing, insert_admin,
  after_commit, shown, scalar_one_or_none, create_admin, new_admin,
}
use system_uni.Cli.Idempotence.{create_admin-again}
use system_uni.Cli.Outcomes.{creating, create_admin-creating}
use system_uni.Cli.Login.{new_admin-401}

abbrev ada : User
ada = record {
  id = 1;
  username = "ada";
  email = "ada@uni.edu";
  role = user;
  created_at = 1;
  password_hash = "hash";
  token_version = 0;
}

abbrev student : Student
student = record {
  id = 4;
  name = "Emmy";
  age = none;
  email = "emmy@uni.edu";
  created_at = 1;
  department_id = 2;
  user_id = none;
  version_id = 1;
}

abbrev not_linked : World
not_linked = record { db = record empty { users = ada ∷ []; students = student ∷ [] }; tick = 0 }

hidden_rows_404_example :
    Answers quiet not_linked student_not_found
      (get_transcript_endpoint quiet ada floats 4 not_linked)
    × Answers quiet not_linked student_not_found
        (export_transcript_async quiet ada strict 4 not_linked)
    × Answers quiet not_linked job_not_found (get_job_status quiet ada 9 not_linked)
hidden_rows_404_example =
    hidden_rows_404 quiet ada not_linked floats strict 4 9 refl refl (unfold get_job in refl)

export_transcript_async-Exports_example :
    Holds (Exports ada 4) (export_transcript_async quiet ada strict 4 not_linked)
export_transcript_async-Exports_example =
    (export_transcript_async-Exports quiet ada strict 4).ensured not_linked

no_jobs : IsSound not_linked.db
no_jobs = record {
  keys = unfold jobs_ok in refl;
  formed = λ k j h. unfold get_job in cc;
  reported = λ k j h. unfold get_job in cc;
  owned = λ k h. unfold find_report in refl;
}

get_job_status-Polls_example : Holds (Polls 9 ada) (get_job_status quiet ada 9 not_linked)
get_job_status-Polls_example = get_job_status-Polls quiet 9 ada not_linked quiet-Respects no_jobs

abbrev server : Server Claims
server = record {
  env = quiet;
  pg = strict;
  jwt = plain;
  passwords = clear;
  lower = λ s. s;
  email_ok = λ s. true;
  redis = record { connected = false; cached = λ k. none };
  floats = floats;
}

abbrev Same : Db → Db → Type 0
Same d d' = d ≡ d'

Same-Preorder : Preorder Same
Same-Preorder = record { reflexive = λ d. refl; transitive = λ a b c p q. p ∙ q }

request-Guarantees_example :
    Guarantees Same
      (request server (some (create_access_token plain 30 100 1 0)) 200 (on_students (read 4)))
request-Guarantees_example =
    request-Guarantees server Same Same-Preorder (λ n d. refl)
      (some (create_access_token plain 30 100 1 0)) 200 (on_students (read 4))
      (unfold is_get in refl)

after_login-403_example :
    after_login server (on_students (delete 4)) (success ada) ≡ pure (http_error 403 "forbidden")
after_login-403_example =
    after_login-403 server (on_students (delete 4)) ada (unfold is_get in refl)
      (unfold writes_for_caller in refl) refl

abbrev terminal : Terminal
terminal = record {
  email = some "Root@uni.edu";
  username = none;
  password = none;
  admin_email = none;
  admin_username = some "root";
  admin_password = none;
  isatty = true;
  prompt = entered "correct horse";
}

abbrev nobody : World
nobody = record { db = empty; tick = 0 }

made : (create_admin quiet strict clear terminal nobody).0 ≡ ok (value 0)
unfolding create_admin resolve ensure_admin unless_existing insert_admin after_commit shown
    scalar_one_or_none try_except ◌>>=◌ query statement pure commit constraints users_ok students_ok
    colleges_ok departments_ok courses_ok teachers_ok offerings_ok schedules_ok enrollments_ok
    jobs_ok reports_ok
made = refl

create_admin-creating_example :
    create_admin quiet strict clear terminal nobody
    ≡ creating quiet strict clear (resolve terminal) nobody
create_admin-creating_example =
    create_admin-creating quiet strict clear terminal nobody quiet-IsCalm

create_admin-again_example :
    let w' = (create_admin quiet strict clear terminal nobody).1 in
    create_admin quiet strict clear terminal w'
    ≡ (ok (value 0), record { db = w'.db; tick = suc w'.tick })
create_admin-again_example = create_admin-again quiet strict clear terminal nobody quiet-IsCalm made

abbrev capital : Credentials
capital = record { email = "Root@uni.edu"; username = "root"; password = "correct horse" }

abbrev to_lower : String → String
to_lower s = "root@uni.edu"

new_admin-401_example :
    check_login plain 30 100 clear "correct horse"
      (find_email "root@uni.edu" (with_user (new_admin clear capital (quiet 0)) empty))
    ≡ http_error 401 "user or password incorrect"
new_admin-401_example = new_admin-401 plain 30 100 to_lower clear capital (quiet 0) empty refl refl
