-- ===== src/Worker/Failure.antt =====
-- `_record_failure` of app/workers/tasks.py: it reads the job, and then retires or requeues it by an
-- update that holds only for the execution that still owns the lease.
use Prim.Native.Char.{code}
use system_uni.Prelude.{
  ℕ, zero, suc, ◌+◌, ◌*◌, ◌/◌, ◌^◌, ◌≤◌, String, Option, none, some, Bool, not, ◌||◌, List, [], ◌∷◌,
  ◌++◌, leb, ◌==◌, if◌then◌else◌, count_where, take,
}
use system_uni.Models.{Db, Job, Status, failed, queued}
use system_uni.Session.{Session, Moment, Exn, statement, query, pure, ◌>>=◌}
use system_uni.Session.{
  permanent_job_error, lease_lost_error, integrity_error, sqlalchemy_error, type_error,
}
use system_uni.Worker.Settings.{Settings, seconds}
use system_uni.Worker.Columns.{ClaimedJob, is_processing, owns_job, leased_to, failure_values}
use system_uni.Worker.Store.{get_job, update_jobs}

-- The code points of a text.
abbrev pub codes : String → List ℕ
codes String.[] = []
codes (String.◌∷◌ c s) = code c ∷ codes s

-- `type(error).__name__`. What SQLAlchemy raises has many classes; their common base stands for them.
abbrev pub class_name : Exn → List ℕ
class_name (permanent_job_error m) = codes "PermanentJobError"
class_name lease_lost_error = codes "LeaseLostError"
class_name (integrity_error m) = codes "IntegrityError"
class_name (sqlalchemy_error m) = codes "SQLAlchemyError"
class_name (type_error m) = codes "TypeError"

abbrev pub message_of : Exn → List ℕ
message_of (permanent_job_error m) = m
message_of lease_lost_error = []
message_of (integrity_error m) = m
message_of (sqlalchemy_error m) = m
message_of (type_error m) = m

-- `f"{type(error).__name__}: {error}"[:1000]`.
unfoldable pub error_message : Exn → List ℕ
error_message e = take 1000 (class_name e ++ (codes ": " ++ message_of e))

-- `job_retry_base_seconds * 2 ** (attempt_count - 1)`: for a count of 0 the power is one half.
unfoldable pub retry_delay : Settings → ℕ → ℕ
retry_delay settings zero = seconds settings.job_retry_base_seconds / 2
retry_delay settings (suc n) = seconds settings.job_retry_base_seconds * 2 ^ n

-- `random.uniform(0, delay / 2)`, as a function of the delay: a number of its range.
pub record Jitter : Type 0 where
  pub uniform : ℕ → ℕ
  pub in_range : (delay : ℕ) → uniform delay ≤ delay / 2

-- What a call of the worker reports: a status of the job, or one of two words of its own.
pub data ReturnStatus : Type 0 where
  job_not_found already_processing : ReturnStatus
  job_status : Status → ReturnStatus

unfoldable pub is_exhausted : Settings → Bool → Job → Bool
is_exhausted settings permanent j = permanent || leb settings.job_max_attempts j.attempt_count

abbrev pub retry_time : Settings → Jitter → Bool → ℕ → Job → Option ℕ
retry_time settings jitter has_failed now j =
    let delay = retry_delay settings j.attempt_count in
    if has_failed then none else some (now + (delay + jitter.uniform delay))

-- The update, for the row `j` as it was read.
unfoldable pub write_failure :
    Settings → Jitter → ClaimedJob → Exn → Bool → Job → ℕ → Db → ReturnStatus × Db
write_failure settings jitter claim error permanent j now d =
    let has_failed = is_exhausted settings permanent j in
    (
      if count_where (leased_to claim) d.jobs == 1
          then job_status (if has_failed then failed else queued)
          else already_processing,
      update_jobs (leased_to claim)
          (failure_values has_failed (retry_time settings jitter has_failed now j)
            (error_message error) now)
          d,
    )

module _ (env : ℕ → Moment) (settings : Settings) (jitter : Jitter) (claim : ClaimedJob)
    (error : Exn) (permanent : Bool) where
  -- The early returns, and the update if the execution owned the job when it read it.
  unfoldable pub failure_of : Option Job → Session ReturnStatus
  failure_of none = pure job_not_found
  failure_of (some j) =
      if not (is_processing j.status)
      then pure (job_status j.status)
      else if not (owns_job j claim)
      then pure already_processing
      else statement env (λ m d. write_failure settings jitter claim error permanent j m.now d)

  unfoldable pub record_failure : Session ReturnStatus
  record_failure = query env (get_job claim.job_id) >>= failure_of
