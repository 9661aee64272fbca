-- ===== src/Worker/System/Rows.antt =====
-- Updates of the table `job`, row by row: what they keep of its keys and of its rows.
use system_uni.Prelude.{
  ℕ, ◌≡◌, refl, sym, ◌∙◌, Option, none, some, Bool, true, false, List, [], ◌∷◌, ◌==◌, any,
  is_unique, update_where, arith, if◌then◌else◌, Bool-cases, inl, inr, ◌⊎◌,
}
use system_uni.Models.{Db, Job, jobs_ok}
use system_uni.Worker.Store.{get_job, update_jobs, get_job-update_jobs, patch}

any-update_where :
    (x x' : Job) (p : Job → Bool) (f : Job → Job) (xs : List Job)
    → x'.job_id ≡ x.job_id
    → ((j : Job) → (f j).job_id ≡ j.job_id)
    → any (λ (y : Job). x'.job_id == y.job_id) (update_where p f xs)
      ≡ any (λ (y : Job). x.job_id == y.job_id) xs
any-update_where x x' p f [] e key = refl
any-update_where x x' p f (y ∷ ys) e key = ground (arith, key y, any-update_where x x' p f ys e key)

is_unique-update_where :
    (p : Job → Bool) (f : Job → Job) (xs : List Job)
    → ((j : Job) → (f j).job_id ≡ j.job_id)
    → is_unique (λ (a b : Job). a.job_id == b.job_id) (update_where p f xs)
      ≡ is_unique (λ (a b : Job). a.job_id == b.job_id) xs
is_unique-update_where p f [] key = refl
is_unique-update_where p f (x ∷ xs) key =
    let x' = if p x then f x else x in
    let same : x'.job_id ≡ x.job_id = ground (arith, key x) in
    rw (any-update_where x x' p f xs same key, is_unique-update_where p f xs key) refl

pub jobs_ok-update_jobs :
    (p : Job → Bool) (f : Job → Job) (d : Db)
    → ((j : Job) → (f j).job_id ≡ j.job_id)
    → jobs_ok (update_jobs p f d) ≡ jobs_ok d
unfolding jobs_ok update_jobs
jobs_ok-update_jobs p f d key = is_unique-update_where p f d.jobs key

-- A row after an update is a row before it, changed or not.
pub updated_row :
    (p : Job → Bool) (f : Job → Job) (d : Db)
    → ((j : Job) → (f j).job_id ≡ j.job_id)
    → (k : ℕ) (j' : Job) → get_job k (update_jobs p f d) ≡ some j'
    → (j : Job) × (get_job k d ≡ some j) × ((p j ≡ true) × (j' ≡ f j) ⊎ (p j ≡ false) × (j' ≡ j))
updated_row p f d key k j' h = go (get_job k d) refl (sym (get_job-update_jobs k p f d key) ∙ h)
  where
    go :
        (r : Option Job)
        → get_job k d ≡ r
        → patch p f r ≡ some j'
        → (j : Job) × (get_job k d ≡ some j)
          × ((p j ≡ true) × (j' ≡ f j) ⊎ (p j ≡ false) × (j' ≡ j))
    go none e q = cc
    go (some j) e q = (j, e, split (Bool-cases (p j)))
      where
        split : (p j ≡ true) ⊎ (p j ≡ false) → (p j ≡ true) × (j' ≡ f j) ⊎ (p j ≡ false) × (j' ≡ j)
        split (inl t) = inl (t, ground arith)
        split (inr t) = inr (t, ground arith)
