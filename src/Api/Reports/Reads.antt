-- ===== src/Api/Reports/Reads.antt =====
-- The three report endpoints as routes, and the two GET requests among them.
use system_uni.Prelude.{ℕ, ◌≡◌, Option, none, some, Bool, true, false}
use system_uni.Models.{Db, User, Student, Job, Transcript, Postgres}
use system_uni.Session.{
  Session, Moment, query, Preorder, Respects, Guarantees, pure-Guarantees, query-Guarantees,
  >>=-Guarantees, if-Guarantees,
}
use system_uni.Services.Reports.{
  Rounding, get_student, generate_student_transcript, transcript_for, enrollments_of, transcript_of,
}
use system_uni.Worker.Store.{get_job}
use system_uni.Crud.Response.{Response}
use system_uni.Api.Guards.{Guard, admin_or_user}
use system_uni.Api.Reports.{
  hides, hides_job, student_not_found, job_not_found, transcript_response, Queued, JobData,
  transcript_student, get_transcript_endpoint, export_transcript_async, status_job, get_job_status,
}

pub data ReportRoute : Type 0 where
  transcript export job_status : ℕ → ReportRoute

abbrev pub ReportResult : ReportRoute → Type 0
ReportResult (transcript k) = Transcript
ReportResult (export k) = Queued
ReportResult (job_status k) = JobData

abbrev pub reads_reports : ReportRoute → Bool
reads_reports (transcript k) = true
reads_reports (export k) = false
reads_reports (job_status k) = true

abbrev pub report_guard : ReportRoute → Guard
report_guard (transcript k) = admin_or_user
report_guard (export k) = admin_or_user
report_guard (job_status k) = admin_or_user

unfoldable pub serve_reports :
    (ℕ → Moment)
    → Postgres
    → Rounding
    → (r : ReportRoute) → User
    → Session (Response (ReportResult r))
serve_reports env pg floats (transcript k) u = get_transcript_endpoint env u floats k
serve_reports env pg floats (export k) u = export_transcript_async env u pg k
serve_reports env pg floats (job_status k) u = get_job_status env u k

module _ (R : Db → Db → Type 0) (order : Preorder R) (env : ℕ → Moment)
    (rely : Respects R env) where
  transcript_for-Guarantees :
      (floats : Rounding) (k : ℕ) (r : Option Student)
      → Guarantees R (transcript_for env floats k r)
  unfolding transcript_for
  transcript_for-Guarantees floats k none = pure-Guarantees R order none
  transcript_for-Guarantees floats k (some s) =
      >>=-Guarantees R order (query env (enrollments_of k)) _ (query-Guarantees R order env _ rely)
        (λ es. pure-Guarantees R order (some (transcript_of floats s es)))

  transcript_student-Guarantees :
      (u : User) (floats : Rounding) (k : ℕ) (r : Option Student)
      → Guarantees R (transcript_student env u floats k r)
  unfolding transcript_student generate_student_transcript
  transcript_student-Guarantees u floats k none =
      pure-Guarantees R order {A = Response Transcript} student_not_found
  transcript_student-Guarantees u floats k (some s) =
      if-Guarantees R (hides u s)
        (pure-Guarantees R order {A = Response Transcript} student_not_found)
        (>>=-Guarantees R order _ _
          (>>=-Guarantees R order (query env (get_student k)) (transcript_for env floats k)
            (query-Guarantees R order env _ rely) (transcript_for-Guarantees floats k))
          (λ t. pure-Guarantees R order (transcript_response t)))

  status_job-Guarantees : (u : User) (k : ℕ) (r : Option Job) → Guarantees R (status_job env u k r)
  unfolding status_job
  status_job-Guarantees u k none = pure-Guarantees R order {A = Response JobData} job_not_found
  status_job-Guarantees u k (some j) =
      if-Guarantees R (hides_job u j) (pure-Guarantees R order {A = Response JobData} job_not_found)
        (query-Guarantees R order env _ rely)

  pub serve_reports-Guarantees :
      (pg : Postgres) (floats : Rounding) (r : ReportRoute) (u : User)
      → reads_reports r ≡ true
      → Guarantees R (serve_reports env pg floats r u)
  unfolding serve_reports get_transcript_endpoint get_job_status
  serve_reports-Guarantees pg floats (transcript k) u h =
      >>=-Guarantees R order (query env (get_student k)) (transcript_student env u floats k)
        (query-Guarantees R order env _ rely) (transcript_student-Guarantees u floats k)
  serve_reports-Guarantees pg floats (export k) u h = cc
  serve_reports-Guarantees pg floats (job_status k) u h =
      >>=-Guarantees R order (query env (get_job k)) (status_job env u k)
        (query-Guarantees R order env _ rely) (status_job-Guarantees u k)
