-- ===== src/Worker/System/Invariant.antt =====
-- The invariant of the queue: keys are unique, every job is well formed, the completed jobs are
-- exactly those with a report, and every report belongs to a job.
use system_uni.Prelude.{
  ℕ, ◌≡◌, ◌⊎◌, refl, sym, ◌∙◌, ap, Option, none, some, Bool, true, false, not, ◌||◌, List, [], ◌∷◌,
  ◌++◌, ◌==◌, arith, Bool-cases, inl, inr, is_none, find?,
}
use system_uni.Models.{Db, Job, Report, jobs_ok}
use system_uni.Worker.Columns.{is_completed}
use system_uni.Worker.Store.{
  get_job, find_report, update_jobs, get_job-update_jobs, find_report-update_jobs, patch,
}
use system_uni.Worker.Persist.{with_report}
use system_uni.Worker.Enqueue.{with_job}
use system_uni.Worker.Lifecycle.{JobStep, IsWellFormed, JobStep-IsWellFormed}
use system_uni.Worker.System.{has_report}
use system_uni.Worker.System.Rows.{jobs_ok-update_jobs, updated_row}

pub record IsSound (d : Db) : Type 0 where
  pub keys : jobs_ok d ≡ true
  pub formed : (k : ℕ) (j : Job) → get_job k d ≡ some j → IsWellFormed j
  pub reported : (k : ℕ) (j : Job) → get_job k d ≡ some j → is_completed j.status ≡ has_report k d
  pub owned : (k : ℕ) → get_job k d ≡ none → find_report k d ≡ none

-- A changed row takes a step, and is completed just if its job has a report.
pub record RowStep (k : ℕ) (j : Job) (j' : Job) (d : Db) : Type 0 where
  pub step : JobStep j j'
  pub in_line : is_completed j'.status ≡ has_report k d

pub get_job-update_jobs-none :
    (k : ℕ) (p : Job → Bool) (f : Job → Job) (d : Db)
    → ((j : Job) → (f j).job_id ≡ j.job_id)
    → get_job k (update_jobs p f d) ≡ none
    → get_job k d ≡ none
get_job-update_jobs-none k p f d key h =
    go (get_job k d) refl (sym (get_job-update_jobs k p f d key) ∙ h)
  where
    go : (r : Option Job) → get_job k d ≡ r → patch p f r ≡ none → get_job k d ≡ none
    go none e q = e
    go (some j) e q = cc

pub update_jobs-IsSound :
    (p : Job → Bool) (f : Job → Job) (d : Db)
    → ((j : Job) → (f j).job_id ≡ j.job_id)
    → ((k : ℕ) (j : Job) → get_job k d ≡ some j → p j ≡ true → RowStep k j (f j) d)
    → IsSound d
    → IsSound (update_jobs p f d)
update_jobs-IsSound p f d key row s = record {
  keys = jobs_ok-update_jobs p f d key ∙ s.keys;
  formed = λ k j' h. formed_row k j' (updated_row p f d key k j' h);
  reported = λ k j' h.
      reported_row k j' (updated_row p f d key k j' h)
      ∙ ap (λ (o : Option Report). not (is_none o)) (sym (find_report-update_jobs k p f d));
  owned =
      λ k h. find_report-update_jobs k p f d ∙ s.owned k (get_job-update_jobs-none k p f d key h);
}
  where
    formed_row :
        (k : ℕ) (j' : Job)
        → (j : Job) × (get_job k d ≡ some j)
          × ((p j ≡ true) × (j' ≡ f j) ⊎ (p j ≡ false) × (j' ≡ j))
        → IsWellFormed j'
    formed_row k j' (j, at, inl (t, e)) =
        rw e (JobStep-IsWellFormed (row k j at t).step (s.formed k j at))
    formed_row k j' (j, at, inr (t, e)) = rw e (s.formed k j at)

    reported_row :
        (k : ℕ) (j' : Job)
        → (j : Job) × (get_job k d ≡ some j)
          × ((p j ≡ true) × (j' ≡ f j) ⊎ (p j ≡ false) × (j' ≡ j))
        → is_completed j'.status ≡ has_report k d
    reported_row k j' (j, at, inl (t, e)) = rw e ((row k j at t).in_line)
    reported_row k j' (j, at, inr (t, e)) = rw e (s.reported k j at)

has_report_append :
    (k : ℕ) (r : Report) (xs : List Report)
    → not (is_none (find? (λ (x : Report). x.job_id == k) (xs ++ r ∷ [])))
      ≡ (not (is_none (find? (λ (x : Report). x.job_id == k) xs)) || r.job_id == k)
has_report_append k r [] = ground arith
has_report_append k r (x ∷ xs) = ground (arith, has_report_append k r xs)

-- After an insert, the jobs with a report are those before, and the new report's.
pub has_report-with_report :
    (k : ℕ) (r : Report) (d : Db)
    → has_report k (with_report r d) ≡ (has_report k d || r.job_id == k)
unfolding find_report
has_report-with_report k r d = has_report_append k r d.reports

find?_append_cases :
    (k : ℕ) (j j' : Job) (xs : List Job)
    → find? (λ (x : Job). x.job_id == k) (xs ++ j ∷ []) ≡ some j'
    → (find? (λ (x : Job). x.job_id == k) xs ≡ some j')
      ⊎ ((find? (λ (x : Job). x.job_id == k) xs ≡ none) × (j' ≡ j))
find?_append_cases k j j' [] h = inr (refl, ground arith)
find?_append_cases k j j' (x ∷ xs) h = elim (Bool-cases (x.job_id == k)) [
  | inl e ↦ inl (rw e (rw e at h))
  | inr e ↦ rw e (find?_append_cases k j j' xs (rw e at h))
]

-- A job after an insert is one before it, or the new one under a fresh key.
pub get_job-with_job :
    (k : ℕ) (j j' : Job) (d : Db)
    → get_job k (with_job j d) ≡ some j'
    → (get_job k d ≡ some j') ⊎ ((get_job k d ≡ none) × (j' ≡ j))
unfolding get_job
get_job-with_job k j j' d h = find?_append_cases k j j' d.jobs h
