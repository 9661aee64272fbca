-- ===== src/Worker/Claim/Laws.antt =====
-- `claim_next_job` of app/workers/tasks.py: the job it takes, and the leases of the others.
use system_uni.Prelude.{
  ◌≤◌, some_injective, ℕ, ◌+◌, ◌≡◌, ◌≢◌, refl, sym, ◌∙◌, ap, Option, none, some, Bool, true, false,
  not, ◌&&◌, Memᴰ, ◌==◌, select_where, arith, inl, inr, Bool-cases, select_where_sound,
  select_where_complete, find?-of_unique, find?_mem,
}
use system_uni.Models.{Db, Job, jobs_ok, processing}
use system_uni.Worker.Settings.{Settings, seconds}
use system_uni.Worker.Columns.{claimable, claim_values, ClaimedJob}
use system_uni.Worker.Store.{get_job, update_jobs, get_job-update_jobs, patch, get_job_key}
use system_uni.Worker.Claim.{sort_key, candidate, claim_candidate, claim_next_job}
use system_uni.Worker.Claim.First.{first_by_order_mem, first_by_order-none, first_by_order_least}
use system_uni.Worker.Claim.Order.{lex_le}

-- The job of a row that stands in a table with unique keys.
get_job_of_mem : (d : Db) {j : Job} → jobs_ok d ≡ true → Memᴰ j d.jobs → get_job j.job_id d ≡ some j
unfolding jobs_ok get_job
get_job_of_mem d {j} u m =
    find?-of_unique (λ (a b : Job). a.job_id == b.job_id) (λ (a : Job). a.job_id == j.job_id) d.jobs
      (λ x y p q. ground arith) u m (ground arith)

get_job_mem : (d : Db) (k : ℕ) {j : Job} → get_job k d ≡ some j → Memᴰ j d.jobs
unfolding get_job
get_job_mem d k h = find?_mem (λ (j : Job). j.job_id == k) d.jobs h

-- What the statement selects: a job that is claimable and unlocked, before all others that are.
pub record IsFirst (locked : ℕ → Bool) (now : ℕ) (d : Db) (j : Job) : Type 0 where
  pub stored : get_job j.job_id d ≡ some j
  pub claimable_now : claimable now j ≡ true
  pub unlocked : locked j.job_id ≡ false
  pub least :
      (k : ℕ) (x : Job)
      → get_job k d ≡ some x
      → claimable now x ≡ true
      → locked x.job_id ≡ false
      → lex_le (sort_key j) (sort_key x) ≡ true

pub candidate-IsFirst :
    (locked : ℕ → Bool) (now : ℕ) (d : Db) {j : Job}
    → jobs_ok d ≡ true
    → candidate locked now d ≡ some j
    → IsFirst locked now d j
unfolding candidate
candidate-IsFirst locked now d {j} u h =
    let p : Job → Bool = λ x. claimable now x && not (locked x.job_id) in
    let (passes, m) = select_where_sound p d.jobs (first_by_order_mem (select_where p d.jobs) h) in
    record {
      stored = get_job_of_mem d u m;
      claimable_now = ground arith;
      unlocked = ground arith;
      least = λ k x at c l.
          first_by_order_least (select_where p d.jobs) h
            (select_where_complete p d.jobs (ground arith) (get_job_mem d k at));
    }

candidate-none :
    (locked : ℕ → Bool) (now : ℕ) (d : Db)
    → candidate locked now d ≡ none
    → (k : ℕ) (x : Job) → get_job k d ≡ some x
    → locked x.job_id ≡ false
    → claimable now x ≡ false
unfolding candidate
candidate-none locked now d h k x at l =
    let p : Job → Bool = λ y. claimable now y && not (locked y.job_id) in
    elim (Bool-cases (claimable now x)) [
      | inl c ↦ absurd (
          first_by_order-none (select_where p d.jobs) h
            (select_where_complete p d.jobs (ground arith) (get_job_mem d k at)))
      | inr c ↦ c
    ]

-- A claim that took a job: it is the first of the jobs that could be taken; its row now carries the
-- token, the next version, one more attempt and a lease that ends at `lease_until`; no other job and
-- no report changed.
pub record Took (locked : ℕ → Bool) (token now lease_until : ℕ) (d : Db) (c : ClaimedJob) (d' : Db)
    : Type 0 where
  pub job : Job
  pub first : IsFirst locked now d job
  pub names_job : c.job_id ≡ job.job_id
  pub names_token : c.worker_token ≡ token
  pub names_version : c.job_version ≡ job.job_version + 1
  pub leased : get_job c.job_id d' ≡ some (claim_values token now lease_until job)
  pub others_kept : (k : ℕ) → k ≢ c.job_id → get_job k d' ≡ get_job k d
  pub reports_kept : d'.reports ≡ d.reports

-- The two ways in which the statement ends.
abbrev pub ClaimEnds : (ℕ → Bool) → ℕ → ℕ → ℕ → Db → Option ClaimedJob × Db → Type 0
ClaimEnds locked token now lease_until d (some c, d') = Took locked token now lease_until d c d'
ClaimEnds locked token now lease_until d (none, d') =
    (d' ≡ d)
    × ((k : ℕ) (x : Job) → get_job k d ≡ some x → locked x.job_id ≡ false → claimable now x ≡ false)

claim_values_key :
    (token now lease_until : ℕ) (j : Job) → (claim_values token now lease_until j).job_id ≡ j.job_id
unfolding claim_values
claim_values_key token now lease_until j = refl

claim_candidate-Took :
    (locked : ℕ → Bool) (token now lease_until : ℕ) (d : Db) (j : Job)
    → IsFirst locked now d j
    → let (c, d') = claim_candidate (some j) token now lease_until d in
      ClaimEnds locked token now lease_until d (c, d')
unfolding claim_candidate
claim_candidate-Took locked token now lease_until d j first =
    let p : Job → Bool = λ row. row.job_id == j.job_id in
    let f = claim_values token now lease_until in
    let found = λ (k : ℕ). get_job-update_jobs k p f d (claim_values_key token now lease_until) in
    record {
      job = j;
      first = first;
      names_job = refl;
      names_token = refl;
      names_version = refl;
      leased = found j.job_id ∙ rw first.stored (ground arith);
      reports_kept = unfold update_jobs in refl;
      others_kept = λ k ne. found k ∙ kept k ne (get_job k d) refl;
    }
  where
    kept :
        (k : ℕ)
        → k ≢ j.job_id
        → (r : Option Job) → get_job k d ≡ r
        → patch (λ (row : Job). row.job_id == j.job_id) (claim_values token now lease_until) r ≡ r
    kept k ne none e = refl
    kept k ne (some x) e = ground (arith, get_job_key k d e)

-- In a table with unique keys, `claim_next_job` either takes the first job, in the order of its
-- ORDER BY, of those that are ready or abandoned and not locked, and leases it to the fresh token
-- until `job_lease_seconds` from now; or there is no such job, and the database is unchanged.
pub claim_next_job_ends :
    (settings : Settings) (locked : ℕ → Bool) (token now : ℕ) (d : Db)
    → jobs_ok d ≡ true
    → ClaimEnds locked token now
        (now + seconds settings.job_lease_seconds)
        d
        (claim_next_job settings locked token now d)
unfolding claim_next_job
claim_next_job_ends settings locked token now d u = go (candidate locked now d) refl
  where
    until : ℕ
    until = now + seconds settings.job_lease_seconds

    go :
        (r : Option Job)
        → candidate locked now d ≡ r
        → ClaimEnds locked token now until d (claim_candidate r token now until d)
    go none e = unfold claim_candidate in (refl, candidate-none locked now d e)
    go (some j) e =
        claim_candidate-Took locked token now until d j (candidate-IsFirst locked now d u e)

claimable_leased :
    (now t : ℕ) (j : Job)
    → j.status ≡ processing
    → j.lease_until ≡ some t
    → now ≤ t
    → claimable now j ≡ false
unfolding claimable
claimable_leased now t j p l h = rw (p, l) (ground arith)

-- No claim takes a job that is processing under a lease that has not ended.
pub claim_respects_lease :
    (settings : Settings) (locked : ℕ → Bool) (token now k t : ℕ) (d : Db) (j : Job)
    → jobs_ok d ≡ true
    → get_job k d ≡ some j
    → j.status ≡ processing
    → j.lease_until ≡ some t
    → now ≤ t
    → (c : ClaimedJob) → (claim_next_job settings locked token now d).0 ≡ some c
    → c.job_id ≢ k
claim_respects_lease settings locked token now k t d j u at p l h c taken same =
    go (claim_next_job settings locked token now d) taken
      (claim_next_job_ends settings locked token now d u)
  where
    until : ℕ
    until = now + seconds settings.job_lease_seconds

    go : (r : Option ClaimedJob × Db) → r.0 ≡ some c → ClaimEnds locked token now until d r → ⊥
    go (none, d') e ends = cc
    go (some c', d') e ends =
        let names : c'.job_id ≡ k = ap (λ (x : ClaimedJob). x.job_id) (some_injective e) ∙ same in
        let stored : get_job k d ≡ some ends.job =
          rw (sym names ∙ ends.names_job) ends.first.stored in
        let eq : ends.job ≡ j = some_injective (sym stored ∙ at) in
        let free : claimable now j ≡ true = rw eq at ends.first.claimable_now in
        cc (free, claimable_leased now t j p l h)
