-- ===== src/Worker/Fencing.antt =====
-- Updates that are guarded by a lease.
pub mod Outcomes
use system_uni.Prelude.{
  ℕ, ◌+◌, ◌≡◌, ◌≢◌, ◌⊎◌, ==→≡, refl, sym, ◌∙◌, ap, Option, none, some, Bool, true, false, not, ◌&&◌,
  List, [], ◌∷◌, ◌==◌, any, is_unique, find?, count_where, arith, if◌then◌else◌, Bool-cases, inl,
  inr,
}
use system_uni.Models.{Db, Job, jobs_ok, processing}
use system_uni.Worker.Columns.{ClaimedJob, leased_to}
use system_uni.Worker.Store.{get_job, update_jobs, get_job-update_jobs, get_job_key, patch}

leased_to_key : (c : ClaimedJob) (j : Job) → leased_to c j ≡ true → j.job_id ≡ c.job_id
unfolding leased_to
leased_to_key c j h = ground arith

-- Whether the row that was found is leased to the claim.
abbrev pub holds : ClaimedJob → Option Job → Bool
holds c none = false
holds c (some j) = leased_to c j

count_none :
    (c : ClaimedJob) (x : Job) (xs : List Job)
    → x.job_id ≡ c.job_id
    → any (λ (y : Job). x.job_id == y.job_id) xs ≡ false
    → count_where (leased_to c) xs ≡ 0
count_none c x [] e h = refl
count_none c x (y ∷ ys) e h = ground (arith, count_none c x ys e, leased_to_key c y)

count_leased :
    (c : ClaimedJob) (jobs : List Job)
    → is_unique (λ (a b : Job). a.job_id == b.job_id) jobs ≡ true
    → count_where (leased_to c) jobs
      ≡ (if holds c (find? (λ (j : Job). j.job_id == c.job_id) jobs) then 1 else 0)
count_leased c [] u = refl
count_leased c (x ∷ xs) u = elim (Bool-cases (x.job_id == c.job_id)) [
  | inl e ↦ rw e (ground (arith, count_none c x xs))
  | inr e ↦ rw e (ground (arith, count_leased c xs, leased_to_key c x))
]

-- The `rowcount` of an update that is guarded by a lease is 1 if the job's row still carries the
-- claim's token and version and is processing, and 0 if not.
pub rowcount_leased :
    (c : ClaimedJob) (d : Db)
    → jobs_ok d ≡ true
    → (count_where (leased_to c) d.jobs == 1) ≡ holds c (get_job c.job_id d)
unfolding jobs_ok get_job
rowcount_leased c d u = rw (count_leased c d.jobs u) (ground arith)

-- What such an update does: it sets the values of the job's row if the row is leased to the claim,
-- and leaves every other row as it is.
pub record Guarded (c : ClaimedJob) (f : Job → Job) (d : Db) (d' : Db) : Type 0 where
  pub owner_writes :
      (j : Job)
      → get_job c.job_id d ≡ some j
      → leased_to c j ≡ true
      → get_job c.job_id d' ≡ some (f j)
  pub loser_kept : holds c (get_job c.job_id d) ≡ false → (k : ℕ) → get_job k d' ≡ get_job k d
  pub others_kept : (k : ℕ) → k ≢ c.job_id → get_job k d' ≡ get_job k d

pub update_jobs-Guarded :
    (c : ClaimedJob) (f : Job → Job) (d : Db)
    → ((j : Job) → (f j).job_id ≡ j.job_id)
    → Guarded c f d (update_jobs (leased_to c) f d)
update_jobs-Guarded c f d key =
    let found = λ (k : ℕ). get_job-update_jobs k (leased_to c) f d key in
    record {
      owner_writes = λ j at h. found c.job_id ∙ rw at (rw h refl);
      loser_kept = λ h k. found k ∙ same k h (get_job k d) refl (Bool-cases (k == c.job_id));
      others_kept = λ k ne. found k ∙ other k ne (get_job k d) refl;
    }
  where
    other :
        (k : ℕ) → k ≢ c.job_id → (r : Option Job) → get_job k d ≡ r → patch (leased_to c) f r ≡ r
    other k ne none e = refl
    other k ne (some x) e = ground (arith, get_job_key k d e, leased_to_key c x)

    same :
        (k : ℕ)
        → holds c (get_job c.job_id d) ≡ false
        → (r : Option Job) → get_job k d ≡ r
        → ((k == c.job_id) ≡ true) ⊎ ((k == c.job_id) ≡ false)
        → patch (leased_to c) f r ≡ r
    same k h none e t = refl
    same k h (some x) e (inl t) =
        let at : get_job c.job_id d ≡ some x =
          ap (λ (n : ℕ). get_job n d) (sym (==→≡ k c.job_id t)) ∙ e in
        let lost : leased_to c x ≡ false = rw at at h in rw lost refl
    same k h (some x) e (inr t) = other k (λ eq. ground arith) (some x) e
