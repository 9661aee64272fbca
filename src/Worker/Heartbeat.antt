-- ===== src/Worker/Heartbeat.antt =====
-- `job_heartbeat` of app/workers/tasks.py: the loop of the heartbeat thread.
pub mod Laws
use system_uni.Prelude.{ℕ, zero, suc, Option, none, some, Bool, true, false}
use system_uni.Models.{Report}
use system_uni.Session.{Session, Moment, Exn, statement, pure, try_except, ◌>>=◌}
use system_uni.Worker.Settings.{Settings}
use system_uni.Worker.Columns.{ClaimedJob}
use system_uni.Worker.Reconcile.{reconcile_reported_job}
use system_uni.Worker.Lease.{renew_lease}

-- How one round ends: a report was found, the lease is lost, or the loop goes on.
pub data Beat : Type 0 where
  found lost alive : Beat

module _ (env : ℕ → Moment) (settings : Settings) (claim : ClaimedJob) where
  abbrev pub beat_of : Bool → Beat
  beat_of true = alive
  beat_of false = lost

  unfoldable pub renew_unless : Option Report → Session Beat
  renew_unless (some r) = pure found
  renew_unless none = statement env (λ m d. renew_lease settings claim m.now d) >>= λ renewed.
      pure (beat_of renewed)

  -- A SQLAlchemyError is logged, and the loop goes on.
  unfoldable pub beat : Session Beat
  beat =
      try_except
        (statement env (λ m d. reconcile_reported_job claim.job_id m.now d) >>= renew_unless)
        (λ e. pure alive)

  unfoldable pub go_on : Session Bool → Beat → Session Bool
  go_on rest found = pure true
  go_on rest lost = pure false
  go_on rest alive = rest

  -- The argument counts the waits that time out before `stop_event` is set. The result is whether
  -- `report_found` was set.
  unfoldable pub heartbeat_loop : ℕ → Session Bool
  heartbeat_loop zero = pure false
  heartbeat_loop (suc n) = beat >>= go_on (heartbeat_loop n)
