-- ===== src/Worker/System/Inserts.antt =====
-- The inserts of reports and jobs, and the invariant of the queue.
use system_uni.Prelude.{
  ℕ, ◌≡◌, ◌⊎◌, refl, sym, ◌∙◌, ap, Option, none, some, Bool, true, false, not, ◌||◌, List, [], ◌∷◌,
  ◌++◌, ◌==◌, ==→≡, any, all, find?, arith, inl, inr, Bool-cases, is_none,
}
use system_uni.Models.{
  Db, Job, Report, Postgres, Verdict, committed, violated, invalid_data, jobs_ok, reports_ok,
  constraints-reports,
}
use system_uni.Worker.Columns.{is_completed, complete_values}
use system_uni.Worker.Store.{get_job, find_report, find_report-update_jobs, get_job_key}
use system_uni.Worker.Reconcile.{complete_job}
use system_uni.Worker.Persist.{with_report, settle_insert, insert_report}
use system_uni.Worker.Lifecycle.{IsWellFormed, complete, JobStep-IsWellFormed}
use system_uni.Worker.System.{has_report}
use system_uni.Worker.System.Rows.{jobs_ok-update_jobs, updated_row}
use system_uni.Worker.System.Invariant.{IsSound, has_report-with_report, get_job-update_jobs-none}
use system_uni.Worker.System.Updates.{completes}

all_last {ℓ} :
    {A : Type ℓ} (p : A → Bool) (xs : List A) (a : A) → all p (xs ++ a ∷ []) ≡ true → p a ≡ true
all_last p [] a h = ground arith
all_last p (x ∷ xs) a h = ground (arith, all_last p xs a)

any_found :
    (k : ℕ) (xs : List Job)
    → any (λ (j : Job). j.job_id == k) xs ≡ true
    → find? (λ (j : Job). j.job_id == k) xs ≡ none
    → ⊥
any_found k [] h e = cc
any_found k (x ∷ xs) h e = ground (arith, any_found k xs)

-- The foreign key: a report that the database let in belongs to a job.
report_owned :
    (r : Report) (d : Db) → reports_ok (with_report r d) ≡ true → get_job r.job_id d ≡ none → ⊥
unfolding reports_ok get_job
report_owned r d h e =
    any_found r.job_id d.jobs
      (all_last (λ (x : Report). any (λ (j : Job). j.job_id == x.job_id) d.jobs) d.reports r
        (ground arith))
      e

module _ (r : Report) (now : ℕ) (d : Db) where
  inserted : Db
  inserted = complete_job r.job_id now (with_report r d)

  has_report-inserted : (k : ℕ) → has_report k inserted ≡ (has_report k d || r.job_id == k)
  unfolding inserted complete_job
  has_report-inserted k =
      ap (λ (o : Option Report). not (is_none o))
        (find_report-update_jobs k (completes r.job_id) (complete_values now) (with_report r d))
      ∙ has_report-with_report k r d

  same_jobs : (k : ℕ) → get_job k (with_report r d) ≡ get_job k d
  same_jobs k = unfold get_job in refl

  RowBefore : ℕ → Job → Type 0
  RowBefore k j' =
      (j : Job) × (get_job k (with_report r d) ≡ some j)
      × ((completes r.job_id j ≡ true) × (j' ≡ complete_values now j)
          ⊎ (completes r.job_id j ≡ false) × (j' ≡ j))

  row_before : (k : ℕ) (j' : Job) → get_job k inserted ≡ some j' → RowBefore k j'
  unfolding inserted complete_job RowBefore
  row_before k j' h =
      updated_row (completes r.job_id) (complete_values now) (with_report r d)
        (λ j. unfold complete_values in refl) k j' h

  formed_row : IsSound d → (k : ℕ) (j' : Job) → RowBefore k j' → IsWellFormed j'
  unfolding RowBefore
  formed_row s k j' (j, at, inl (t, e)) = rw e (
      JobStep-IsWellFormed (complete now (ground arith) refl)
        (s.formed k j (sym (same_jobs k) ∙ at)))
  formed_row s k j' (j, at, inr (t, e)) = rw e (s.formed k j (sym (same_jobs k) ∙ at))

  reported_row :
      IsSound d
      → (k : ℕ) (j' : Job) → RowBefore k j'
      → is_completed j'.status ≡ (has_report k d || r.job_id == k)
  unfolding RowBefore
  reported_row s k j' (j, at, inl (t, e)) =
      rw e (unfold complete_values in ground (arith, get_job_key k (with_report r d) at))
  reported_row s k j' (j, at, inr (t, e)) =
      rw e (
        ground (arith, s.reported k j (sym (same_jobs k) ∙ at), get_job_key k (with_report r d) at))

  inserted-IsSound : reports_ok (with_report r d) ≡ true → IsSound d → IsSound inserted
  inserted-IsSound h s = record {
    keys =
        unfold inserted complete_job in
        jobs_ok-update_jobs (completes r.job_id) (complete_values now) (with_report r d)
          (λ j. unfold complete_values in refl)
        ∙ (unfold jobs_ok in s.keys);
    formed = λ k j at. formed_row s k j (row_before k j at);
    reported = λ k j at. reported_row s k j (row_before k j at) ∙ sym (has_report-inserted k);
    owned = λ k at. owned_row k (sym (same_jobs k) ∙ none_before k at);
  }
    where
      none_before : (k : ℕ) → get_job k inserted ≡ none → get_job k (with_report r d) ≡ none
      none_before k at =
          get_job-update_jobs-none k (completes r.job_id) (complete_values now) (with_report r d)
            (λ j. unfold complete_values in refl) (unfold inserted complete_job in at)

      owned_row : (k : ℕ) → get_job k d ≡ none → find_report k inserted ≡ none
      owned_row k e = elim (Bool-cases (r.job_id == k)) [
        | inl same ↦
            absurd (report_owned r d h (ap (λ (n : ℕ). get_job n d) (==→≡ r.job_id k same) ∙ e))
        | inr other ↦
            no_report (find_report k inserted)
              (has_report-inserted k ∙ rw (s.owned k e, other) refl)
      ]
        where
          no_report : (o : Option Report) → not (is_none o) ≡ false → o ≡ none
          no_report none q = refl
          no_report (some x) q = cc

pub insert_report-IsSound :
    (pg : Postgres) (r : Report) (now : ℕ) (d : Db)
    → IsSound d
    → IsSound (insert_report pg r now d).1
unfolding insert_report
insert_report-IsSound pg r now d s = go (pg.verdict (with_report r d)) refl
  where
    go : (v : Verdict) → pg.verdict (with_report r d) ≡ v → IsSound (settle_insert v r now d).1
    go committed e =
        unfold inserted in
        inserted-IsSound r now d
          (constraints-reports (with_report r d) (pg.accepts (with_report r d) e)) s
    go violated e = s
    go invalid_data e = s
