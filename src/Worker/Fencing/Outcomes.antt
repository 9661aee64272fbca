-- ===== src/Worker/Fencing/Outcomes.antt =====
-- `_renew_lease` and the update of `_record_failure`: what an execution achieves.
use system_uni.Prelude.{
  ℕ, suc, ◌^◌, ◌+◌, ◌*◌, ◌≤◌, ◌≡◌, refl, sym, some_injective, some, Bool, true, false,
  if◌then◌else◌, arith,
}
use system_uni.Models.{Db, Job, jobs_ok, failed, queued}
use system_uni.Session.{Exn}
use system_uni.Worker.Settings.{Settings, seconds}
use system_uni.Worker.Columns.{ClaimedJob, renew_values, failure_values}
use system_uni.Worker.Store.{get_job}
use system_uni.Worker.Lease.{renew_lease}
use system_uni.Worker.Failure.{
  Jitter, already_processing, job_status, is_exhausted, retry_time, retry_delay, error_message,
  write_failure,
}
use system_uni.Worker.Fencing.{holds, rowcount_leased, Guarded, update_jobs-Guarded}

-- `_renew_lease` reports whether the execution still owns the lease; if it does, its row, and no
-- other, gets a lease from now, and if it does not, every job stays as it is.
renew_lease_fenced :
    (settings : Settings) (c : ClaimedJob) (now : ℕ) (d : Db)
    → jobs_ok d ≡ true
    → let (renewed, d') = renew_lease settings c now d in
      (renewed ≡ holds c (get_job c.job_id d))
      × Guarded c (renew_values now (now + seconds settings.job_lease_seconds)) d d'
unfolding renew_lease
renew_lease_fenced settings c now d u = (
  rowcount_leased c d u,
  update_jobs-Guarded c (renew_values now (now + seconds settings.job_lease_seconds)) d
      (λ j. unfold renew_values in refl),
)

-- The update of `_record_failure`, for a job that was read as `seen`: an execution that owns the
-- lease when the update runs fails the job if the error is permanent or its attempts are used up, and
-- else queues it again with a time to retry; one that does not own the lease any more reports
-- `already_processing`. The values are written to its own row and to no other, and to none if the
-- lease is lost.
pub write_failure_fenced :
    (settings : Settings) (jitter : Jitter) (c : ClaimedJob) (e : Exn) (permanent : Bool)
    (seen : Job) (now : ℕ) (d : Db)
    → jobs_ok d ≡ true
    → let (s, d') = write_failure settings jitter c e permanent seen now d in
      let has_failed = is_exhausted settings permanent seen in
      (s ≡ (
        if holds c (get_job c.job_id d)
        then job_status (if has_failed then failed else queued)
        else already_processing))
      × Guarded c
          (failure_values has_failed
            (retry_time settings jitter has_failed now seen)
            (error_message e)
            now)
          d
          d'
unfolding write_failure
write_failure_fenced settings jitter c e permanent seen now d u = (
  rw (rowcount_leased c d u) refl,
  update_jobs-Guarded c _ d (λ j. unfold failure_values in refl),
)

-- The pause before a retry is the base doubled for each attempt after the first, with up to half of
-- that added; no retry is due before it is over.
pub retry_time_bounds :
    (settings : Settings) (jitter : Jitter) (now n t : ℕ) (j : Job)
    → j.attempt_count ≡ suc n
    → retry_time settings jitter false now j ≡ some t
    → let delay = seconds settings.job_retry_base_seconds * 2 ^ n in
      (now + delay ≤ t) × (2 * t ≤ 2 * now + 3 * delay)
unfolding retry_delay
retry_time_bounds settings jitter now n t j a h =
    let delay = seconds settings.job_retry_base_seconds * 2 ^ n in
    let e : t ≡ now + (delay + jitter.uniform delay) =
      some_injective (sym (rw (a, retry_delay) at h)) in
    let u = jitter.in_range delay in (omega arith, omega arith)
