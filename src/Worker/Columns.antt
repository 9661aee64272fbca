-- ===== src/Worker/Columns.antt =====
-- The conditions and the new column values of the statements of app/workers/tasks.py on one row of
-- the table `job`.
use system_uni.Prelude.{
  ℕ, ◌+◌, Option, none, some, Bool, true, false, ◌&&◌, ◌||◌, List, leb, ltb, ◌==◌, eq_column,
  if◌then◌else◌,
}
use system_uni.Models.{Status, queued, processing, completed, failed, Job}

abbrev pub is_queued : Status → Bool
is_queued queued = true
is_queued _ = false

abbrev pub is_processing : Status → Bool
is_processing processing = true
is_processing _ = false

abbrev pub is_completed : Status → Bool
is_completed completed = true
is_completed _ = false

pub record ClaimedJob : Type 0 where
  pub job_id : ℕ
  pub worker_token : ℕ
  pub job_version : ℕ

-- `retry_at IS NULL OR retry_at <= now`.
abbrev pub retry_due : ℕ → Option ℕ → Bool
retry_due now none = true
retry_due now (some t) = leb t now

-- `lease_until IS NULL OR lease_until < now`.
abbrev pub lease_expired : ℕ → Option ℕ → Bool
lease_expired now none = true
lease_expired now (some t) = ltb t now

abbrev pub ready : ℕ → Job → Bool
ready now j = is_queued j.status && retry_due now j.retry_at

abbrev pub abandoned : ℕ → Job → Bool
abandoned now j = is_processing j.status && lease_expired now j.lease_until

unfoldable pub claimable : ℕ → Job → Bool
claimable now j = ready now j || abandoned now j

unfoldable pub claim_values : ℕ → ℕ → ℕ → Job → Job
claim_values token now lease_until j = record j {
  status = processing;
  worker_token = some token;
  job_version = j.job_version + 1;
  attempt_count = j.attempt_count + 1;
  lease_until = some lease_until;
  retry_at = none;
  last_error = none;
  updated_at = now;
}

-- `_complete_values`.
unfoldable pub complete_values : ℕ → Job → Job
complete_values now j = record j {
  status = completed;
  worker_token = none;
  lease_until = none;
  retry_at = none;
  last_error = none;
  updated_at = now;
}

-- `_owns_job`.
unfoldable pub owns_job : Job → ClaimedJob → Bool
owns_job j claim = eq_column j.worker_token claim.worker_token && j.job_version == claim.job_version

-- The `where` that guards the statements of an execution: the job, and the lease it holds.
unfoldable pub leased_to : ClaimedJob → Job → Bool
leased_to claim j =
    j.job_id == claim.job_id
    && (is_processing j.status
        && (eq_column j.worker_token claim.worker_token && j.job_version == claim.job_version))

unfoldable pub renew_values : ℕ → ℕ → Job → Job
renew_values now lease_until j = record j { lease_until = some lease_until; updated_at = now }

-- The values of `_record_failure`.
unfoldable pub failure_values : Bool → Option ℕ → List ℕ → ℕ → Job → Job
failure_values has_failed retry_at message now j = record j {
  status = if has_failed then failed else queued;
  worker_token = none;
  lease_until = none;
  retry_at = retry_at;
  last_error = some message;
  updated_at = now;
}
