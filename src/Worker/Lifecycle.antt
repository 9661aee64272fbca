-- ===== src/Worker/Lifecycle.antt =====
-- The lifecycle of a job, as the README draws it: queued, claimed, renewed, retried, failed and
-- completed, as a step relation on one row, with its reachability.
pub mod Monotone
use system_uni.Prelude.{
  ℕ, ◌+◌, ◌≤◌, ◌≡◌, ◌⊎◌, refl, sym, ◌∙◌, ap, inl, inr, Option, none, some, Bool, true, false, List,
  length, is_none, arith,
}
use system_uni.Models.{Job, Status, queued, processing, completed, failed}
use system_uni.Worker.Columns.{
  is_queued, is_processing, is_completed, claimable, claim_values, complete_values, renew_values,
  failure_values,
}

pub data JobStep (j : Job) (j' : Job) : Type 0 where
  claim :
      (token now lease_until : ℕ)
      → claimable now j ≡ true
      → j' ≡ claim_values token now lease_until j
      → JobStep j j'
  renew :
      (now lease_until : ℕ)
      → is_processing j.status ≡ true
      → j' ≡ renew_values now lease_until j
      → JobStep j j'
  complete : (now : ℕ) → is_completed j.status ≡ false → j' ≡ complete_values now j → JobStep j j'
  give_up :
      (message : List ℕ) (now : ℕ)
      → is_processing j.status ≡ true
      → length message ≤ 1000
      → j' ≡ failure_values true none message now j
      → JobStep j j'
  retry :
      (at : ℕ) (message : List ℕ) (now : ℕ)
      → is_processing j.status ≡ true
      → length message ≤ 1000
      → j' ≡ failure_values false (some at) message now j
      → JobStep j j'

pub data JobSteps (j : Job) : Job → Type 0 where
  here : JobSteps j j
  next : {k l : Job} → JobSteps j k → JobStep k l → JobSteps j l

pub JobSteps-trans : {i j k : Job} → JobSteps i j → JobSteps j k → JobSteps i k
JobSteps-trans r here = r
JobSteps-trans r (next s st) = next (JobSteps-trans r s) st

abbrev pub Fits : Option (List ℕ) → Type 0
Fits none = Unit
Fits (some message) = length message ≤ 1000

abbrev pub not_processing : Status → Bool
not_processing processing = false
not_processing _ = true

-- A job that is processing, and no other, has a token and a lease; only a queued job waits for a
-- time; a failed job says why, and its message fits the column; every claim is one attempt.
pub record IsWellFormed (j : Job) : Type 0 where
  pub token_held : is_none j.worker_token ≡ not_processing j.status
  pub lease_held : is_none j.lease_until ≡ not_processing j.status
  pub waits_queued : is_queued j.status ≡ false → j.retry_at ≡ none
  pub failed_explained : j.status ≡ failed → is_none j.last_error ≡ false
  pub completed_clean : j.status ≡ completed → j.last_error ≡ none
  pub message_fits : Fits j.last_error
  pub attempts_counted : j.attempt_count ≡ j.job_version

-- Every step of the lifecycle keeps a job well formed.
pub JobStep-IsWellFormed : {j j' : Job} → JobStep j j' → IsWellFormed j → IsWellFormed j'
unfolding claim_values renew_values complete_values failure_values
JobStep-IsWellFormed (claim token now lease_until c e) v = rw e (ground arith)
JobStep-IsWellFormed (renew now lease_until p e) v = rw e (ground arith)
JobStep-IsWellFormed (complete now c e) v = rw e (ground arith)
JobStep-IsWellFormed (give_up message now p fit e) v = rw e (ground arith)
JobStep-IsWellFormed (retry at message now p fit e) v = rw e (ground arith)

pub JobSteps-IsWellFormed : {j j' : Job} → JobSteps j j' → IsWellFormed j → IsWellFormed j'
JobSteps-IsWellFormed here v = v
JobSteps-IsWellFormed (next r s) v = JobStep-IsWellFormed s (JobSteps-IsWellFormed r v)
