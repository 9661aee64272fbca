-- ===== src/Worker/Enqueue.antt =====
-- The job that `export_transcript_async` of app/routers/reports.py writes, and its commit.
use system_uni.Prelude.{ℕ, none, [], ◌∷◌, ◌++◌}
use system_uni.Models.{Db, Job, queued, Postgres, Verdict, committed}

-- `job_version` and `attempt_count` have the default 0; the times are the server's.
unfoldable pub transcript_job : ℕ → ℕ → ℕ → ℕ → Job
transcript_job job_id owner_id student_id now = record {
  job_id = job_id;
  job_version = 0;
  status = queued;
  owner_id = owner_id;
  worker_token = none;
  lease_until = none;
  report_type = "transcript";
  target_id = student_id;
  attempt_count = 0;
  retry_at = none;
  last_error = none;
  created_at = now;
  updated_at = now;
}

abbrev pub with_job : Job → Db → Db
with_job j d = record d { jobs = d.jobs ++ j ∷ [] }

abbrev pub settle_job : Verdict → Job → Db → Verdict × Db
settle_job committed j d = (committed, with_job j d)
settle_job v j d = (v, d)

unfoldable pub enqueue : Postgres → Job → Db → Verdict × Db
enqueue pg j d = settle_job (pg.verdict (with_job j d)) j d
