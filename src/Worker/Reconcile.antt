-- ===== src/Worker/Reconcile.antt =====
-- `reconcile_reported_job` and `reconcile_reported_jobs` of app/workers/tasks.py: a persisted report
-- is the final result, and the job's row is repaired from it.
use system_uni.Prelude.{ℕ, Option, none, some, Bool, not, ◌&&◌, ◌==◌, is_none, count_where}
use system_uni.Models.{Db, Job, Report}
use system_uni.Worker.Columns.{is_completed, complete_values}
use system_uni.Worker.Store.{find_report, update_jobs}

-- `update(Job).where(job_id == ...).where(status != "completed").values(_complete_values(now))`.
unfoldable pub complete_job : ℕ → ℕ → Db → Db
complete_job job_id now d =
    update_jobs (λ (j : Job). j.job_id == job_id && not (is_completed j.status))
      (complete_values now) d

abbrev pub repair : Option Report → ℕ → ℕ → Db → Option Report × Db
repair none job_id now d = (none, d)
repair (some r) job_id now d = (some r, complete_job job_id now d)

unfoldable pub reconcile_reported_job : ℕ → ℕ → Db → Option Report × Db
reconcile_reported_job job_id now d = repair (find_report job_id d) job_id now d

-- The jobs that have a report and are not completed.
abbrev pub unfinished : Db → Job → Bool
unfinished d j = not (is_completed j.status) && not (is_none (find_report j.job_id d))

-- The result is the `rowcount`.
unfoldable pub reconcile_reported_jobs : ℕ → Db → ℕ × Db
reconcile_reported_jobs now d =
    (count_where (unfinished d) d.jobs, update_jobs (unfinished d) (complete_values now) d)
