-- ===== src/Worker/Lease.antt =====
-- `_renew_lease` of app/workers/tasks.py. The clock is read once for a statement.
use system_uni.Prelude.{ℕ, ◌+◌, Bool, ◌==◌, count_where}
use system_uni.Models.{Db}
use system_uni.Worker.Settings.{Settings, seconds}
use system_uni.Worker.Columns.{ClaimedJob, leased_to, renew_values}
use system_uni.Worker.Store.{update_jobs}

-- Whether exactly one row was renewed.
unfoldable pub renew_lease : Settings → ClaimedJob → ℕ → Db → Bool × Db
renew_lease settings claim now d = (
  count_where (leased_to claim) d.jobs == 1,
  update_jobs (leased_to claim) (renew_values now (now + seconds settings.job_lease_seconds)) d,
)
