-- ===== src/Worker/System.antt =====
-- The whole queue as a transition system: any number of workers, heartbeats and API requests, whose
-- statements interleave in any order, at any times and with any data.
pub mod Rows
pub mod Invariant
pub mod Updates
pub mod Inserts
pub mod Reachable
pub mod Programs
use system_uni.Prelude.{ℕ, ◌≡◌, Bool, not, is_none}
use system_uni.Models.{Db, Job, Report, Postgres}
use system_uni.Session.{Exn, Preorder}
use system_uni.Worker.Settings.{Settings}
use system_uni.Worker.Columns.{ClaimedJob}
use system_uni.Worker.Store.{find_report}
use system_uni.Worker.Claim.{claim_next_job}
use system_uni.Worker.Reconcile.{reconcile_reported_job, reconcile_reported_jobs}
use system_uni.Worker.Lease.{renew_lease}
use system_uni.Worker.Failure.{Jitter, write_failure}
use system_uni.Worker.Persist.{insert_report}
use system_uni.Worker.Enqueue.{transcript_job, enqueue}

-- One statement of one of the sessions; `elsewhere` is any that leaves jobs and reports alone.
pub data SystemStep (d : Db) (d' : Db) : Type 0 where
  claims :
      (settings : Settings) (locked : ℕ → Bool) (token now : ℕ)
      → d' ≡ (claim_next_job settings locked token now d).1
      → SystemStep d d'
  renews :
      (settings : Settings) (c : ClaimedJob) (now : ℕ)
      → d' ≡ (renew_lease settings c now d).1
      → SystemStep d d'
  reconciles : (k now : ℕ) → d' ≡ (reconcile_reported_job k now d).1 → SystemStep d d'
  reconciles_all : (now : ℕ) → d' ≡ (reconcile_reported_jobs now d).1 → SystemStep d d'
  fails :
      (settings : Settings) (jitter : Jitter) (c : ClaimedJob) (e : Exn) (permanent : Bool)
      (seen : Job) (now : ℕ)
      → d' ≡ (write_failure settings jitter c e permanent seen now d).1
      → SystemStep d d'
  reports :
      (pg : Postgres) (r : Report) (now : ℕ) → d' ≡ (insert_report pg r now d).1 → SystemStep d d'
  enqueues :
      (pg : Postgres) (job_id owner_id student_id now : ℕ)
      → d' ≡ (enqueue pg (transcript_job job_id owner_id student_id now) d).1
      → SystemStep d d'
  elsewhere : d'.jobs ≡ d.jobs → d'.reports ≡ d.reports → SystemStep d d'

pub data SystemSteps (d : Db) : Db → Type 0 where
  start : SystemSteps d d
  after : {e f : Db} → SystemSteps d e → SystemStep e f → SystemSteps d f

-- Whether the job `k` has a report.
abbrev pub has_report : ℕ → Db → Bool
has_report k d = not (is_none (find_report k d))

pub SystemSteps_trans : {d e f : Db} → SystemSteps d e → SystemSteps e f → SystemSteps d f
SystemSteps_trans r start = r
SystemSteps_trans r (after s st) = after (SystemSteps_trans r s) st

pub SystemSteps-Preorder : Preorder SystemSteps
SystemSteps-Preorder = record {
  reflexive = λ d. start;
  transitive = λ a b c r s. SystemSteps_trans r s;
}
