-- ===== src/Worker/Lifecycle/Monotone.antt =====
-- What a job keeps along its lifecycle.
use system_uni.Prelude.{◌+◌, ◌≤◌, ◌≡◌, ◌⊎◌, ◌∙◌, inl, inr, none, arith}
use system_uni.Models.{Job, completed, failed}
use system_uni.Worker.Columns.{
  claimable, claim_values, complete_values, renew_values, failure_values,
}
use system_uni.Worker.Lifecycle.{
  JobStep, claim, renew, complete, give_up, retry, JobSteps, here, next,
}

-- What no step changes, and what steps change in one direction only.
pub record Evolves (j : Job) (j' : Job) : Type 0 where
  pub same_job : j'.job_id ≡ j.job_id
  pub same_owner : j'.owner_id ≡ j.owner_id
  pub same_type : j'.report_type ≡ j.report_type
  pub same_target : j'.target_id ≡ j.target_id
  pub version_grows : j.job_version ≤ j'.job_version
  pub attempts_follow : j'.attempt_count + j.job_version ≡ j.attempt_count + j'.job_version
  pub token_fenced :
      j'.job_version ≡ j.job_version → (j'.worker_token ≡ j.worker_token) ⊎ (j'.worker_token ≡ none)
  pub frozen : j.status ≡ completed → j' ≡ j
  pub failed_retired : j.status ≡ failed → (j' ≡ j) ⊎ (j'.status ≡ completed)

pub Evolves-refl : (j : Job) → Evolves j j
Evolves-refl j = ground arith

pub Evolves-trans : {i j k : Job} → Evolves i j → Evolves j k → Evolves i k
Evolves-trans {i} {j} {k} a b = record {
  same_job = ground arith;
  same_owner = ground arith;
  same_type = ground arith;
  same_target = ground arith;
  version_grows = ground arith;
  attempts_follow = ground arith;
  token_fenced = λ e. ground arith;
  frozen = λ c. frozen_twice c (a.frozen c);
  failed_retired = λ f. retired_twice (a.failed_retired f) f;
}
  where
    frozen_twice : i.status ≡ completed → j ≡ i → k ≡ i
    frozen_twice c e = b.frozen (rw e c) ∙ e

    retired_twice :
        (j ≡ i) ⊎ (j.status ≡ completed) → i.status ≡ failed → (k ≡ i) ⊎ (k.status ≡ completed)
    retired_twice (inl e) f = elim (b.failed_retired (rw e f)) [
      | inl e' ↦ inl (e' ∙ e)
      | inr c ↦ inr c
    ]
    retired_twice (inr c) f = inr (rw (b.frozen c) c)

JobStep-Evolves : {j j' : Job} → JobStep j j' → Evolves j j'
unfolding claimable claim_values renew_values complete_values failure_values
JobStep-Evolves (claim token now lease_until c e) = rw e (ground arith)
JobStep-Evolves (renew now lease_until p e) = rw e (ground arith)
JobStep-Evolves (complete now c e) = rw e (ground arith)
JobStep-Evolves (give_up message now p fit e) = rw e (ground arith)
JobStep-Evolves (retry at message now p fit e) = rw e (ground arith)

-- Along any steps of the lifecycle, a job keeps its key, owner, type and target; its version never
-- falls and counts the attempts that were added; at one version its token stays or goes; a
-- completed job stays as it is, and a failed one stays as it is or is completed.
JobSteps-Evolves : {j j' : Job} → JobSteps j j' → Evolves j j'
JobSteps-Evolves {j} here = Evolves-refl j
JobSteps-Evolves (next r s) = Evolves-trans (JobSteps-Evolves r) (JobStep-Evolves s)
