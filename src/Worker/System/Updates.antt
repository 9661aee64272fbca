-- ===== src/Worker/System/Updates.antt =====
-- The updates of existing jobs (claim, renewal, reconciliation, failure), and the invariant of the
-- queue.
use system_uni.Prelude.{
  ℕ, ◌+◌, ◌≡◌, refl, sym, ◌∙◌, ap, Option, none, some, Bool, true, false, not, ◌&&◌, ◌==◌, ==→≡,
  arith, if◌then◌else◌, some_injective,
}
use system_uni.Models.{Db, Job, Report, failed, queued}
use system_uni.Session.{Exn}
use system_uni.Worker.Settings.{Settings, seconds}
use system_uni.Worker.Columns.{
  ClaimedJob, is_processing, is_completed, leased_to, claimable, claim_values, renew_values,
  complete_values, failure_values,
}
use system_uni.Worker.Store.{get_job, find_report, get_job_key}
use system_uni.Worker.Claim.{claim_next_job, candidate, claim_candidate}
use system_uni.Worker.Claim.Laws.{candidate-IsFirst}
use system_uni.Worker.Reconcile.{
  complete_job, reconcile_reported_job, repair, reconcile_reported_jobs, unfinished,
}
use system_uni.Worker.Lease.{renew_lease}
use system_uni.Worker.Failure.{Jitter, is_exhausted, retry_time, error_message, write_failure}
use system_uni.Worker.Lifecycle.{claim, renew, complete}
use system_uni.Worker.Follows.Statements.{leased_to_processing, failure_step}
use system_uni.Worker.System.{has_report}
use system_uni.Worker.System.Invariant.{IsSound, update_jobs-IsSound}

-- A job that is claimable or processing has no report.
not_completed : (j : Job) → is_processing j.status ≡ true → is_completed j.status ≡ false
not_completed j h = ground arith

pub renew_lease-IsSound :
    (settings : Settings) (c : ClaimedJob) (now : ℕ) (d : Db)
    → IsSound d
    → IsSound (renew_lease settings c now d).1
unfolding renew_lease
renew_lease-IsSound settings c now d s =
    let until = now + seconds settings.job_lease_seconds in
    update_jobs-IsSound (leased_to c) (renew_values now until) d (λ j. unfold renew_values in refl)
      (λ k j at h. record {
        step = renew now until (leased_to_processing c j h) refl;
        in_line = unfold renew_values in s.reported k j at;
      })
      s

pub write_failure-IsSound :
    (settings : Settings) (jitter : Jitter) (c : ClaimedJob) (e : Exn) (permanent : Bool)
    (seen : Job) (now : ℕ) (d : Db)
    → IsSound d
    → IsSound (write_failure settings jitter c e permanent seen now d).1
unfolding write_failure
write_failure-IsSound settings jitter c e permanent seen now d s =
    let b = is_exhausted settings permanent seen in
    let f = failure_values b (retry_time settings jitter b now seen) (error_message e) now in
    update_jobs-IsSound (leased_to c) f d (λ j. unfold failure_values in refl)
      (λ k j at h. record {
        step = failure_step settings jitter e seen now b j (leased_to_processing c j h);
        in_line =
            unfold failure_values in
            failure_in_line b j (leased_to_processing c j h) ∙ s.reported k j at;
      })
      s
  where
    failure_in_line :
        (b : Bool) (j : Job)
        → is_processing j.status ≡ true
        → is_completed (if b then failed else queued) ≡ is_completed j.status
    failure_in_line b j h = ground arith

abbrev pub completes : ℕ → Job → Bool
completes k x = x.job_id == k && not (is_completed x.status)

pub complete_job-IsSound :
    (k now : ℕ) (d : Db) → has_report k d ≡ true → IsSound d → IsSound (complete_job k now d)
unfolding complete_job
complete_job-IsSound k now d r s =
    update_jobs-IsSound (completes k) (complete_values now) d (λ j. unfold complete_values in refl)
      (λ n j at h. record {
        step = complete now (ground arith) refl;
        in_line =
            unfold complete_values in
            sym r
            ∙ ap (λ (m : ℕ). has_report m d)
                (sym (==→≡ j.job_id k (ground arith)) ∙ get_job_key n d at);
      })
      s

pub reconcile_reported_job-IsSound :
    (k now : ℕ) (d : Db) → IsSound d → IsSound (reconcile_reported_job k now d).1
unfolding reconcile_reported_job
reconcile_reported_job-IsSound k now d s = go (find_report k d) refl
  where
    go : (r : Option Report) → find_report k d ≡ r → IsSound (repair r k now d).1
    go none e = s
    go (some r) e = complete_job-IsSound k now d (rw e refl) s

pub reconcile_reported_jobs-IsSound :
    (now : ℕ) (d : Db) → IsSound d → IsSound (reconcile_reported_jobs now d).1
unfolding reconcile_reported_jobs
reconcile_reported_jobs-IsSound now d s =
    update_jobs-IsSound (unfinished d) (complete_values now) d (λ j. unfold complete_values in refl)
      (λ n j at h. record {
        step = complete now (ground arith) refl;
        in_line =
            unfold complete_values in
            let r : has_report j.job_id d ≡ true = ground arith in
            sym r ∙ ap (λ (m : ℕ). has_report m d) (get_job_key n d at);
      })
      s

claimable_open : (now : ℕ) (j : Job) → claimable now j ≡ true → is_completed j.status ≡ false
unfolding claimable
claimable_open now j h = ground arith

pub claim_next_job-IsSound :
    (settings : Settings) (locked : ℕ → Bool) (token now : ℕ) (d : Db)
    → IsSound d
    → IsSound (claim_next_job settings locked token now d).1
unfolding claim_next_job
claim_next_job-IsSound settings locked token now d s = go (candidate locked now d) refl
  where
    until : ℕ
    until = now + seconds settings.job_lease_seconds

    go :
        (r : Option Job)
        → candidate locked now d ≡ r
        → IsSound (claim_candidate r token now until d).1
    go none e = unfold claim_candidate in s
    go (some c) e =
        let first = candidate-IsFirst locked now d s.keys e in
        unfold claim_candidate in
        update_jobs-IsSound (λ (x : Job). x.job_id == c.job_id) (claim_values token now until) d
          (λ j. unfold claim_values in refl)
          (λ k j at h.
            let same : c ≡ j = some_injective (
              sym first.stored
              ∙ ap (λ (m : ℕ). get_job m d) (sym (==→≡ j.job_id c.job_id h) ∙ get_job_key k d at)
              ∙ at) in
            let free : claimable now j ≡ true = rw same at first.claimable_now in
            record {
              step = claim token now until free refl;
              in_line = unfold claim_values in sym (claimable_open now j free) ∙ s.reported k j at;
            })
          s
