-- ===== src/Worker/Process/Delivery.antt =====
-- The statements of `process_claimed_report` that finish a job.
use system_uni.Prelude.{
  ℕ, ◌≡◌, refl, sym, ◌∙◌, Option, none, some, Bool, true, not, ◌&&◌, ◌||◌, ◌==◌, List, [], ◌∷◌,
  ◌++◌, arith, find?-of_unique, Memᴰ,
}
use system_uni.Models.{
  Db, Job, Report, Verdict, committed, violated, invalid_data, Postgres, constraints-reports,
  reports_ok,
}
use system_uni.Worker.Columns.{is_completed, complete_values}
use system_uni.Worker.Store.{
  get_job, find_report, get_job-update_jobs, get_job_key, find_report-update_jobs, patch,
}
use system_uni.Worker.Reconcile.{reconcile_reported_job, repair, complete_job}
use system_uni.Worker.Persist.{insert_report, settle_insert, with_report}

-- The report of the job `k` is stored, and the job, if it is there, is completed.
pub record Delivered (k : ℕ) (r : Report) (d : Db) : Type 0 where
  pub stored : find_report k d ≡ some r
  pub job_completed : (j : Job) → get_job k d ≡ some j → is_completed j.status ≡ true

complete_job-completed :
    (k now : ℕ) (d : Db) (j : Job)
    → get_job k (complete_job k now d) ≡ some j
    → is_completed j.status ≡ true
unfolding complete_job
complete_job-completed k now d j h = go (get_job k d) refl (
    sym (get_job-update_jobs k p (complete_values now) d (λ x. unfold complete_values in refl)) ∙ h)
  where
    p : Job → Bool
    p x = x.job_id == k && not (is_completed x.status)

    go :
        (r : Option Job)
        → get_job k d ≡ r
        → patch p (complete_values now) r ≡ some j
        → is_completed j.status ≡ true
    go none e h' = cc
    go (some x) e h' = unfold complete_values in ground (arith, get_job_key k d e)

find_report-complete_job :
    (k now : ℕ) (d : Db) → find_report k (complete_job k now d) ≡ find_report k d
unfolding complete_job
find_report-complete_job k now d = find_report-update_jobs k _ _ d

abbrev pub Adopted : ℕ → Option Report → Db → Type 0
Adopted k none d = Unit
Adopted k (some r) d = Delivered k r d

pub reconcile_reported_job-Adopted :
    (k now : ℕ) (d : Db)
    → Adopted k (reconcile_reported_job k now d).0 (reconcile_reported_job k now d).1
unfolding reconcile_reported_job
reconcile_reported_job-Adopted k now d = go (find_report k d) refl
  where
    go :
        (r : Option Report)
        → find_report k d ≡ r
        → Adopted k (repair r k now d).0 (repair r k now d).1
    go none e = tt
    go (some r) e = record {
      stored = find_report-complete_job k now d ∙ e;
      job_completed = complete_job-completed k now d;
    }

mem_last {ℓ} : {A : Type ℓ} (xs : List A) (x : A) → Memᴰ x (xs ++ x ∷ [])
mem_last [] x = Memᴰ.head refl
mem_last (y ∷ xs) x = Memᴰ.tail (mem_last xs x)

-- A report that the database let in is the one that is found.
with_report-found :
    (r : Report) (d : Db)
    → reports_ok (with_report r d) ≡ true
    → find_report r.job_id (with_report r d) ≡ some r
unfolding reports_ok find_report
with_report-found r d h =
    find?-of_unique (λ (a b : Report). a.id == b.id || a.job_id == b.job_id)
      (λ (a : Report). a.job_id == r.job_id) (d.reports ++ r ∷ []) (λ x y p q. ground arith)
      (ground arith) (mem_last d.reports r) (ground arith)

abbrev pub Inserted : Verdict → Report → Db → Type 0
Inserted committed r d = Delivered r.job_id r d
Inserted violated r d = Unit
Inserted invalid_data r d = Unit

pub insert_report-Inserted :
    (pg : Postgres) (r : Report) (now : ℕ) (d : Db)
    → Inserted (insert_report pg r now d).0 r (insert_report pg r now d).1
unfolding insert_report
insert_report-Inserted pg r now d = go (pg.verdict (with_report r d)) refl
  where
    go :
        (v : Verdict)
        → pg.verdict (with_report r d) ≡ v
        → Inserted (settle_insert v r now d).0 r (settle_insert v r now d).1
    go committed e = record {
      stored =
          find_report-complete_job r.job_id now (with_report r d)
          ∙ with_report-found r d
              (constraints-reports (with_report r d) (pg.accepts (with_report r d) e));
      job_completed = complete_job-completed r.job_id now (with_report r d);
    }
    go violated e = tt
    go invalid_data e = tt
