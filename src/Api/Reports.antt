-- ===== src/Api/Reports.antt =====
-- app/routers/reports.py. The user is the one that `require_admin_or_user` has let through.
pub mod Access
pub mod Progress
pub mod Export
pub mod Reads
use system_uni.Prelude.{
  ℕ, String, Option, none, some, Bool, true, false, not, ◌&&◌, List, [], ◌==◌, eq_column,
  if◌then◌else◌, is_none,
}
use system_uni.Models.{
  Db, Student, User, UserRole, admin, Job, Report, Status, queued, completed, Transcript, Postgres,
  Verdict, committed, violated, invalid_data,
}
use system_uni.Session.{
  Session, Moment, query, pure, raise, statement, ◌>>=◌, integrity_error, sqlalchemy_error,
}
use system_uni.Services.Reports.{Rounding, get_student, generate_student_transcript}
use system_uni.Worker.Enqueue.{transcript_job, enqueue}
use system_uni.Worker.Store.{get_job, find_report}
use system_uni.Crud.Response.{Response, success, http_error}
use system_uni.Security.{same_role}

-- `current_user.role != UserRole.ADMIN and student.user_id != current_user.id`.
abbrev pub hides : User → Student → Bool
hides u s = not (same_role u.role admin) && not (eq_column s.user_id u.id)

-- `current_user.role != UserRole.ADMIN and current_user.id != db_job.owner_id`.
abbrev pub hides_job : User → Job → Bool
hides_job u j = not (same_role u.role admin) && not (u.id == j.owner_id)

abbrev pub student_not_found : {A : Type 0} → Response A
student_not_found = http_error 404 "Student not found"

abbrev pub job_not_found : {A : Type 0} → Response A
job_not_found = http_error 404 "Job not found"

unfoldable pub transcript_response : Option Transcript → Response Transcript
transcript_response none = student_not_found
transcript_response (some t) = success t

-- What `export_transcript_async` answers.
pub record Queued : Type 0 where
  pub message : String
  pub job_id : ℕ
  pub student_id : ℕ
  pub status : String

-- `job_data` of `get_job_status`.
pub record JobData : Type 0 where
  pub job_id : ℕ
  pub status : Status
  pub owner_id : ℕ
  pub report_type : String
  pub target_id : ℕ
  pub result : Option Transcript

unfoldable pub job_data : ℕ → Job → Option Report → JobData
job_data k j none = record {
  job_id = k;
  status = j.status;
  owner_id = j.owner_id;
  report_type = j.report_type;
  target_id = j.target_id;
  result = none;
}
job_data k j (some r) = record {
  job_id = k;
  status = completed;
  owner_id = j.owner_id;
  report_type = j.report_type;
  target_id = j.target_id;
  result = some r.result;
}

-- An error of the commit is not caught.
unfoldable pub export_response : ℕ → Verdict × ℕ → Session (Response Queued)
export_response student_id (committed, job_id) = pure (
    success (record {
      message = "Report generation queued successfully";
      job_id = job_id;
      student_id = student_id;
      status = "queued";
    }))
export_response student_id (violated, job_id) = raise (integrity_error [])
export_response student_id (invalid_data, job_id) = raise (sqlalchemy_error [])

-- The uuid of the moment is the fresh job id.
abbrev pub export_statement : User → Postgres → ℕ → Moment → Db → (Verdict × ℕ) × Db
export_statement u pg student_id m d =
    let (v, d') = enqueue pg (transcript_job m.uuid u.id student_id m.now) d in ((v, m.uuid), d')

module _ (env : ℕ → Moment) (u : User) where
  unfoldable pub transcript_student : Rounding → ℕ → Option Student → Session (Response Transcript)
  transcript_student floats student_id none = pure student_not_found
  transcript_student floats student_id (some s) =
      if hides u s
      then pure student_not_found
      else (generate_student_transcript env floats student_id
          >>= (λ (t : Option Transcript). pure (transcript_response t)))

  unfoldable pub get_transcript_endpoint : Rounding → ℕ → Session (Response Transcript)
  get_transcript_endpoint floats student_id =
      query env (get_student student_id) >>= transcript_student floats student_id

  unfoldable pub export_student : Postgres → ℕ → Option Student → Session (Response Queued)
  export_student pg student_id none = pure student_not_found
  export_student pg student_id (some s) =
      if hides u s
      then pure student_not_found
      else (statement env (export_statement u pg student_id) >>= export_response student_id)

  unfoldable pub export_transcript_async : Postgres → ℕ → Session (Response Queued)
  export_transcript_async pg student_id =
      query env (get_student student_id) >>= export_student pg student_id

  unfoldable pub status_job : ℕ → Option Job → Session (Response JobData)
  status_job job_id none = pure job_not_found
  status_job job_id (some j) =
      if hides_job u j
      then pure job_not_found
      else query env (λ d. success (job_data job_id j (find_report job_id d)))

  unfoldable pub get_job_status : ℕ → Session (Response JobData)
  get_job_status job_id = query env (get_job job_id) >>= status_job job_id
