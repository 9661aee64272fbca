-- ===== src/Worker/Process.antt =====
-- `process_claimed_report` of app/workers/tasks.py: one execution of a claimed job, from the first
-- read to the word that it reports, with the three handlers.
pub mod Contract
pub mod Delivery
pub mod Result
pub mod Guards
use system_uni.Prelude.{
  ℕ, String, Option, none, some, Bool, true, false, not, List, ◌++◌, if◌then◌else◌, str_eq,
}
use system_uni.Models.{Db, Job, Report, Transcript, Postgres, completed}
use system_uni.Session.{
  Session, Moment, Exn, permanent_job_error, lease_lost_error, integrity_error, sqlalchemy_error,
  type_error, statement, query, pure, raise, try_except, ◌>>=◌,
}
use system_uni.Services.Reports.{Rounding, generate_student_transcript}
use system_uni.Worker.Settings.{Settings}
use system_uni.Worker.Columns.{ClaimedJob, is_processing, owns_job}
use system_uni.Worker.Store.{get_job}
use system_uni.Worker.Reconcile.{reconcile_reported_job}
use system_uni.Worker.Failure.{
  Jitter, ReturnStatus, job_not_found, already_processing, job_status, record_failure, codes,
}
use system_uni.Worker.Persist.{persist_or_adopt_report}

-- The dictionary that is returned.
pub record Returned : Type 0 where
  pub status : ReturnStatus
  pub job_id : ℕ
  pub result : Option Transcript

-- What an execution is given: the settings, what other code supplies, its claim, whether the
-- heartbeat has flagged a report by the end of the generation, and the digits of a number.
pub record Execution : Type 0 where
  pub settings : Settings
  pub postgres : Postgres
  pub floats : Rounding
  pub jitter : Jitter
  pub claim : ClaimedJob
  pub report_found : Bool
  pub digits : ℕ → List ℕ

abbrev pub without_result : Execution → ReturnStatus → Returned
without_result x s = record { status = s; job_id = x.claim.job_id; result = none }

abbrev pub with_result : Execution → Report → Returned
with_result x r = record {
  status = job_status completed;
  job_id = x.claim.job_id;
  result = some r.result;
}

module _ (env : ℕ → Moment) (x : Execution) where
  unfoldable pub adopt : Session Returned → Option Report → Session Returned
  adopt rest none = rest
  adopt rest (some r) = pure (with_result x r)

  -- A report that is there is adopted; if there is none, the rest runs.
  unfoldable pub adopt_or : Session Returned → Session Returned
  adopt_or rest =
      statement env (λ m d. reconcile_reported_job x.claim.job_id m.now d) >>= adopt rest

  -- After the heartbeat has stopped.
  unfoldable pub finish : ℕ → Option Transcript → Session Returned
  finish target_id none = adopt_or (
      raise (
        permanent_job_error
          (codes "Student " ++ (x.digits target_id ++ codes " no longer exists"))))
  finish target_id (some t) =
      adopt_or
        (persist_or_adopt_report env x.postgres x.claim.job_id t >>= λ r. pure (with_result x r))

  -- Once the transcript is generated, still under the heartbeat.
  unfoldable pub generated : ℕ → Option Transcript → Session Returned
  generated target_id transcript =
      if x.report_found then adopt_or (raise lease_lost_error) else finish target_id transcript

  -- Under the heartbeat.
  unfoldable pub generate : Job → Session Returned
  generate j = adopt_or (
      if not (str_eq j.report_type "transcript")
      then raise (permanent_job_error (codes "Unsupported report type: " ++ codes j.report_type))
      else generate_student_transcript env x.floats j.target_id >>= generated j.target_id)

  unfoldable pub start : Option Job → Session Returned
  start none = pure (without_result x job_not_found)
  start (some j) = adopt_or (
      if not (is_processing j.status)
      then pure (without_result x (job_status j.status))
      else if not (owns_job j x.claim)
      then pure (without_result x already_processing)
      else generate j)

  unfoldable pub fail : Exn → Bool → Session Returned
  fail e permanent = do
    s ← record_failure env x.settings x.jitter x.claim e permanent
    pure (without_result x s)

  -- The `except` clauses.
  unfoldable pub handle : Exn → Session Returned
  handle (permanent_job_error m) = fail (permanent_job_error m) true
  handle lease_lost_error = adopt_or (pure (without_result x already_processing))
  handle (integrity_error m) = adopt_or (fail (integrity_error m) false)
  handle (sqlalchemy_error m) = adopt_or (fail (sqlalchemy_error m) false)
  handle (type_error m) = adopt_or (fail (type_error m) false)

  unfoldable pub process_claimed_report : Session Returned
  process_claimed_report = try_except (query env (get_job x.claim.job_id) >>= start) handle
