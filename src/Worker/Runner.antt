-- ===== src/Worker/Runner.antt =====
-- app/workers/runner.py: the start-up repair, the claim with retries, and the loop of the worker.
pub mod Laws
use system_uni.Prelude.{ℕ, zero, suc, Option, none, some, Bool, true, false}
use system_uni.Session.{
  Session, Moment, Exn, permanent_job_error, lease_lost_error, integrity_error, sqlalchemy_error,
  type_error, statement, pure, raise, try_except, ◌>>=◌,
}
use system_uni.Worker.Settings.{Settings}
use system_uni.Worker.Columns.{ClaimedJob}
use system_uni.Worker.Claim.{claim_next_job}
use system_uni.Worker.Reconcile.{reconcile_reported_jobs}
use system_uni.Worker.Process.{Execution, Returned, process_claimed_report}

module _ (env : ℕ → Moment) (settings : Settings) where
  -- A fault of the repair is logged.
  unfoldable pub reconcile_once : Session ℕ
  reconcile_once = try_except (statement env (λ m d. reconcile_reported_jobs m.now d)) (λ e. pure 0)

  unfoldable pub claim_statement : Session (Option ClaimedJob)
  claim_statement = statement env (λ m d. claim_next_job settings m.locked m.uuid m.now d)

  -- `except SQLAlchemyError`, with the number of attempts that are left and what they do.
  unfoldable pub retry_or_raise :
      ℕ → Session (Option ClaimedJob) → Exn → Session (Option ClaimedJob)
  retry_or_raise zero rest e = raise e
  retry_or_raise (suc n) rest (sqlalchemy_error text) = rest
  retry_or_raise (suc n) rest (integrity_error text) = rest
  retry_or_raise (suc n) rest (permanent_job_error text) = raise (permanent_job_error text)
  retry_or_raise (suc n) rest lease_lost_error = raise lease_lost_error
  retry_or_raise (suc n) rest (type_error text) = raise (type_error text)

  unfoldable pub claim_with_retry : ℕ → Session (Option ClaimedJob)
  claim_with_retry zero = pure none
  claim_with_retry (suc n) = try_except claim_statement (retry_or_raise n (claim_with_retry n))

  -- What an execution is given for a claim.
  module _ (x : ClaimedJob → Execution) where
    unfoldable pub run_claim : Option ClaimedJob → Session Bool
    run_claim none = pure false
    run_claim (some c) = process_claimed_report env (x c) >>= λ returned. pure true

    unfoldable pub run_once : Session Bool
    run_once = claim_with_retry settings.worker_retry_attempts >>= run_claim

    -- The first rounds of the endless loop of `main`; an exception ends a round, not the loop.
    unfoldable pub worker_rounds : ℕ → Session Bool
    worker_rounds zero = pure false
    worker_rounds (suc n) = try_except run_once (λ e. pure false) >>= λ claimed. worker_rounds n

    -- `main`, for a number of rounds.
    unfoldable pub worker_main : ℕ → Session Bool
    worker_main rounds = reconcile_once >>= λ reconciled. worker_rounds rounds
