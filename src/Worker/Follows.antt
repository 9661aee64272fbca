-- ===== src/Worker/Follows.antt =====
-- The contract between the sessions that share the queue (workers, heartbeats, the API).
pub mod Statements
pub mod Claims
use system_uni.Prelude.{
  ℕ, ◌≡◌, ◌⊎◌, refl, sym, ◌∙◌, ap, some, none, Option, Bool, true, false, Bool-cases, inl, inr,
  if◌then◌else◌, some_injective, arith,
}
use system_uni.Models.{Db, Job, Report}
use system_uni.Session.{Preorder}
use system_uni.Worker.Store.{
  get_job, find_report, update_jobs, get_job-update_jobs, find_report-update_jobs, patch,
}
use system_uni.Worker.Lifecycle.{JobStep, JobSteps, here, next, JobSteps-trans}

-- The job `k` of the later state, and how it came about.
pub record Moved (k : ℕ) (j : Job) (d : Db) : Type 0 where
  pub job : Job
  pub stored : get_job k d ≡ some job
  pub steps : JobSteps j job

pub record Follows (d : Db) (d' : Db) : Type 0 where
  pub reports_kept : (k : ℕ) (r : Report) → find_report k d ≡ some r → find_report k d' ≡ some r
  pub jobs_kept : (k : ℕ) (j : Job) → get_job k d ≡ some j → Moved k j d'

pub Follows-refl : (d : Db) → Follows d d
Follows-refl d = record {
  reports_kept = λ k r h. h;
  jobs_kept = λ k j h. record { job = j; stored = h; steps = here };
}

pub Follows-trans : (a b c : Db) → Follows a b → Follows b c → Follows a c
Follows-trans a b c f g = record {
  reports_kept = λ k r h. g.reports_kept k r (f.reports_kept k r h);
  jobs_kept = λ k j h.
      let m = f.jobs_kept k j h in
      let n = g.jobs_kept k m.job m.stored in
      record { job = n.job; stored = n.stored; steps = JobSteps-trans m.steps n.steps };
}

pub Follows-Preorder : Preorder Follows
Follows-Preorder = record { reflexive = Follows-refl; transitive = Follows-trans }

-- An update of `job` whose rows each take a step of the lifecycle follows it.
pub update_jobs-Follows :
    (p : Job → Bool) (f : Job → Job) (d : Db)
    → ((j : Job) → (f j).job_id ≡ j.job_id)
    → ((j : Job) → p j ≡ true → JobStep j (f j))
    → Follows d (update_jobs p f d)
update_jobs-Follows p f d key step = record {
  reports_kept = λ k r h. find_report-update_jobs k p f d ∙ h;
  jobs_kept =
      λ k j h. moved k j (get_job-update_jobs k p f d key ∙ ap (patch p f) h) (Bool-cases (p j));
}
  where
    moved :
        (k : ℕ) (j : Job)
        → get_job k (update_jobs p f d) ≡ some (if p j then f j else j)
        → (p j ≡ true) ⊎ (p j ≡ false)
        → Moved k j (update_jobs p f d)
    moved k j at (inl h) = record { job = f j; stored = rw h at at; steps = next here (step j h) }
    moved k j at (inr h) = record { job = j; stored = rw h at at; steps = here }
