-- ===== src/Worker/Store.antt =====
-- The tables `job` and `report` as the worker reads and writes them: by key, and by `update`.
use system_uni.Prelude.{
  ℕ, ◌≡◌, refl, Option, none, some, Bool, List, [], ◌∷◌, ◌==◌, if◌then◌else◌, find?, update_where,
  arith, ==→≡, find?_passes,
}
use system_uni.Models.{Db, Job, Report}

-- `db.get(Job, job_id)`.
unfoldable pub get_job : ℕ → Db → Option Job
get_job job_id d = find? (λ (j : Job). j.job_id == job_id) d.jobs

-- `select(Report).where(Report.job_id == job_id)`.
unfoldable pub find_report : ℕ → Db → Option Report
find_report job_id d = find? (λ (r : Report). r.job_id == job_id) d.reports

-- `update(Job).where(p).values(f)`.
unfoldable pub update_jobs : (Job → Bool) → (Job → Job) → Db → Db
update_jobs p f d = record d { jobs = update_where p f d.jobs }

abbrev pub patch : (Job → Bool) → (Job → Job) → Option Job → Option Job
patch p f none = none
patch p f (some j) = some (if p j then f j else j)

find?-update_where :
    (k : ℕ) (p : Job → Bool) (f : Job → Job) (jobs : List Job)
    → ((j : Job) → (f j).job_id ≡ j.job_id)
    → find? (λ (j : Job). j.job_id == k) (update_where p f jobs)
      ≡ patch p f (find? (λ (j : Job). j.job_id == k) jobs)
find?-update_where k p f [] h = refl
find?-update_where k p f (x ∷ xs) h = ground (arith, h x, find?-update_where k p f xs h)

-- An update that keeps the key changes a job if the row passes the test, and keeps it if not.
pub get_job-update_jobs :
    (k : ℕ) (p : Job → Bool) (f : Job → Job) (d : Db)
    → ((j : Job) → (f j).job_id ≡ j.job_id)
    → get_job k (update_jobs p f d) ≡ patch p f (get_job k d)
unfolding get_job update_jobs
get_job-update_jobs k p f d h = find?-update_where k p f d.jobs h

pub find_report-update_jobs :
    (k : ℕ) (p : Job → Bool) (f : Job → Job) (d : Db)
    → find_report k (update_jobs p f d) ≡ find_report k d
unfolding find_report update_jobs
find_report-update_jobs k p f d = refl

pub get_job_key : (k : ℕ) (d : Db) {j : Job} → get_job k d ≡ some j → j.job_id ≡ k
unfolding get_job
get_job_key k d {j} h = ==→≡ j.job_id k (find?_passes (λ (x : Job). x.job_id == k) d.jobs j h)
