-- ===== src/Worker/Follows/Claims.antt =====
-- `claim_next_job` and the lifecycle of the jobs.
use system_uni.Prelude.{
  ℕ, ◌+◌, ◌≡◌, sym, ◌∙◌, ap, some, none, Option, Bool, true, false, Bool-cases, inl, inr, ◌==◌,
  ==→≡, some_injective, arith, ◌⊎◌,
}
use system_uni.Models.{Db, Job, jobs_ok}
use system_uni.Worker.Settings.{Settings, seconds}
use system_uni.Worker.Columns.{ClaimedJob, claim_values}
use system_uni.Worker.Store.{get_job, find_report}
use system_uni.Worker.Claim.{claim_next_job}
use system_uni.Worker.Claim.Laws.{Took, ClaimEnds, claim_next_job_ends}
use system_uni.Worker.Lifecycle.{claim, here, next}
use system_uni.Worker.Follows.{Follows, Follows-refl, Moved}

Took-Follows :
    (locked : ℕ → Bool) (token now until : ℕ) (d : Db) (c : ClaimedJob) (d' : Db)
    → Took locked token now until d c d'
    → Follows d d'
Took-Follows locked token now until d c d' t = record {
  reports_kept = λ k r h. unfold find_report in rw t.reports_kept h;
  jobs_kept = λ k j h. moved k j h (Bool-cases (k == c.job_id));
}
  where
    moved :
        (k : ℕ) (j : Job)
        → get_job k d ≡ some j
        → ((k == c.job_id) ≡ true) ⊎ ((k == c.job_id) ≡ false)
        → Moved k j d'
    moved k j h (inl e) =
        let same : k ≡ c.job_id = ==→≡ k c.job_id e in
        let eq : t.job ≡ j =
          some_injective
            (sym t.first.stored ∙ ap (λ (n : ℕ). get_job n d) (sym t.names_job ∙ sym same) ∙ h) in
        record {
          job = claim_values token now until t.job;
          stored = rw same t.leased;
          steps = next here (
              claim token now until (rw eq at t.first.claimable_now)
                (ap (claim_values token now until) eq));
        }
    moved k j h (inr e) = record {
      job = j;
      stored = t.others_kept k (λ same. ground arith) ∙ h;
      steps = here;
    }

pub claim_next_job-Follows :
    (settings : Settings) (locked : ℕ → Bool) (token now : ℕ) (d : Db)
    → jobs_ok d ≡ true
    → Follows d (claim_next_job settings locked token now d).1
claim_next_job-Follows settings locked token now d u =
    go (claim_next_job settings locked token now d)
      (claim_next_job_ends settings locked token now d u)
  where
    until : ℕ
    until = now + seconds settings.job_lease_seconds

    go : (r : Option ClaimedJob × Db) → ClaimEnds locked token now until d r → Follows d r.1
    go (none, d') ends = rw ends.0 (Follows-refl d)
    go (some c, d') ends = Took-Follows locked token now until d c d' ends
