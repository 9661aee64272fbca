-- ===== src/Worker/Settings.antt =====
-- The settings of app/config.py that the worker reads, with the bounds of their fields. Times are
-- microseconds; the settings are in seconds.
use system_uni.Prelude.{ℕ, ◌*◌, ◌≤◌}

pub record Settings : Type 0 where
  pub job_lease_seconds : ℕ
  pub job_heartbeat_seconds : ℕ
  pub job_max_attempts : ℕ
  pub job_retry_base_seconds : ℕ
  pub worker_retry_attempts : ℕ

-- The `ge` bounds, which pydantic enforces.
pub record IsValid (s : Settings) : Type 0 where
  pub lease : 5 ≤ s.job_lease_seconds
  pub heartbeat : 1 ≤ s.job_heartbeat_seconds
  pub attempts : 1 ≤ s.job_max_attempts
  pub retry_base : 1 ≤ s.job_retry_base_seconds
  pub claims : 1 ≤ s.worker_retry_attempts

-- `timedelta(seconds=n)`.
abbrev pub seconds : ℕ → ℕ
seconds n = n * 1000000
