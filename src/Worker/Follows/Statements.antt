-- ===== src/Worker/Follows/Statements.antt =====
-- The statements of app/workers/tasks.py and the lifecycle of the jobs.
use system_uni.Prelude.{
  ℕ, ◌+◌, ◌≡◌, refl, some, none, Option, Bool, true, false, not, ◌&&◌, ◌==◌, find?-append_some,
  length, length-take-le, ◌≤◌, arith,
}
use system_uni.Models.{Db, Job, Report, Postgres, Verdict, committed, violated, invalid_data}
use system_uni.Session.{Exn}
use system_uni.Worker.Settings.{Settings, seconds}
use system_uni.Worker.Columns.{
  ClaimedJob, is_processing, is_completed, complete_values, leased_to, renew_values, failure_values,
}
use system_uni.Worker.Store.{get_job, find_report}
use system_uni.Worker.Reconcile.{
  complete_job, reconcile_reported_job, repair, reconcile_reported_jobs, unfinished,
}
use system_uni.Worker.Lease.{renew_lease}
use system_uni.Worker.Failure.{Jitter, error_message, is_exhausted, retry_time, write_failure}
use system_uni.Worker.Persist.{with_report, settle_insert, insert_report}
use system_uni.Worker.Lifecycle.{JobStep, renew, complete, give_up, retry}
use system_uni.Worker.Follows.{Follows, Follows-refl, Follows-trans, update_jobs-Follows}
use system_uni.Worker.Lifecycle.{here}

complete_values_key : (now : ℕ) (j : Job) → (complete_values now j).job_id ≡ j.job_id
unfolding complete_values
complete_values_key now j = refl

pub complete_job-Follows : (k now : ℕ) (d : Db) → Follows d (complete_job k now d)
unfolding complete_job
complete_job-Follows k now d =
    update_jobs-Follows (λ (j : Job). j.job_id == k && not (is_completed j.status))
      (complete_values now) d (complete_values_key now) (λ j h. complete now (ground arith) refl)

pub reconcile_reported_job-Follows :
    (k now : ℕ) (d : Db) → Follows d (reconcile_reported_job k now d).1
unfolding reconcile_reported_job
reconcile_reported_job-Follows k now d = go (find_report k d)
  where
    go : (r : Option Report) → Follows d (repair r k now d).1
    go none = Follows-refl d
    go (some r) = complete_job-Follows k now d

pub reconcile_reported_jobs-Follows :
    (now : ℕ) (d : Db) → Follows d (reconcile_reported_jobs now d).1
unfolding reconcile_reported_jobs
reconcile_reported_jobs-Follows now d =
    update_jobs-Follows (unfinished d) (complete_values now) d (complete_values_key now)
      (λ j h. complete now (ground arith) refl)

pub renew_lease-Follows :
    (settings : Settings) (c : ClaimedJob) (now : ℕ) (d : Db)
    → Follows d (renew_lease settings c now d).1
unfolding renew_lease
renew_lease-Follows settings c now d =
    let until = now + seconds settings.job_lease_seconds in
    update_jobs-Follows (leased_to c) (renew_values now until) d (λ j. unfold renew_values in refl)
      (λ j h. renew now until (unfold leased_to in ground arith) refl)

pub leased_to_processing :
    (c : ClaimedJob) (j : Job) → leased_to c j ≡ true → is_processing j.status ≡ true
unfolding leased_to
leased_to_processing c j h = ground arith

error_message-le : (e : Exn) → length (error_message e) ≤ 1000
unfolding error_message
error_message-le e = length-take-le 1000 _

pub failure_step :
    (settings : Settings) (jitter : Jitter) (e : Exn) (seen : Job) (now : ℕ) (b : Bool) (j : Job)
    → is_processing j.status ≡ true
    → JobStep j (failure_values b (retry_time settings jitter b now seen) (error_message e) now j)
failure_step settings jitter e seen now true j h =
    give_up (error_message e) now h (error_message-le e) refl
failure_step settings jitter e seen now false j h =
    retry _ (error_message e) now h (error_message-le e) refl

pub write_failure-Follows :
    (settings : Settings) (jitter : Jitter) (c : ClaimedJob) (e : Exn) (permanent : Bool)
    (seen : Job) (now : ℕ) (d : Db)
    → Follows d (write_failure settings jitter c e permanent seen now d).1
unfolding write_failure
write_failure-Follows settings jitter c e permanent seen now d =
    let b = is_exhausted settings permanent seen in
    update_jobs-Follows (leased_to c)
      (failure_values b (retry_time settings jitter b now seen) (error_message e) now) d
      (λ j. unfold failure_values in refl)
      (λ j h. failure_step settings jitter e seen now b j (leased_to_processing c j h))

with_report-Follows : (r : Report) (d : Db) → Follows d (with_report r d)
unfolding find_report get_job
with_report-Follows r d = record {
  reports_kept = λ k x h. find?-append_some (λ (y : Report). y.job_id == k) d.reports _ x h;
  jobs_kept = λ k j h. record { job = j; stored = h; steps = here };
}

pub insert_report-Follows :
    (pg : Postgres) (r : Report) (now : ℕ) (d : Db) → Follows d (insert_report pg r now d).1
unfolding insert_report
insert_report-Follows pg r now d = go (pg.verdict (with_report r d))
  where
    go : (v : Verdict) → Follows d (settle_insert v r now d).1
    go committed =
        Follows-trans d (with_report r d) (complete_job r.job_id now (with_report r d))
          (with_report-Follows r d) (complete_job-Follows r.job_id now (with_report r d))
    go violated = Follows-refl d
    go invalid_data = Follows-refl d
