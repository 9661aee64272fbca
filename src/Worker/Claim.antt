-- ===== src/Worker/Claim.antt =====
-- `claim_next_job` of app/workers/tasks.py: one statement that picks a job by ORDER BY and LIMIT 1
-- among the rows that no other transaction has locked, and takes the lease on it.
pub mod Order
pub mod First
pub mod Laws
use system_uni.Prelude.{
  ℕ, ◌+◌, Option, none, some, Bool, true, false, not, ◌&&◌, List, [], ◌∷◌, ◌==◌, if◌then◌else◌,
  select_where, eq_column, suc,
}
use system_uni.Models.{Db, Job, Status, queued}
use system_uni.Worker.Settings.{Settings, seconds}
use system_uni.Worker.Columns.{claimable, claim_values, ClaimedJob, is_queued}
use system_uni.Worker.Store.{get_job, update_jobs}
use Order.{lex_le}

abbrev pub nulls_first : Option ℕ → ℕ
nulls_first none = 0
nulls_first (some t) = suc t

-- The ORDER BY list: queued jobs first, then by `retry_at`, `created_at` and `job_id`.
unfoldable pub sort_key : Job → List ℕ
sort_key j =
    (if is_queued j.status then 0 else 1) ∷ nulls_first j.retry_at ∷ j.created_at ∷ j.job_id ∷ []

abbrev pub earlier : Job → Option Job → Option Job
earlier a none = some a
earlier a (some b) = if lex_le (sort_key a) (sort_key b) then some a else some b

-- The row that ORDER BY puts first.
unfoldable pub first_by_order : List Job → Option Job
first_by_order [] = none
first_by_order (j ∷ jobs) = earlier j (first_by_order jobs)

-- `locked` are the rows that other transactions hold: SKIP LOCKED passes them over.
unfoldable pub candidate : (ℕ → Bool) → ℕ → Db → Option Job
candidate locked now d =
    first_by_order (select_where (λ (j : Job). claimable now j && not (locked j.job_id)) d.jobs)

-- `UPDATE ... WHERE job_id = (candidate) ... RETURNING`: a NULL subquery matches no row.
unfoldable pub claim_candidate : Option Job → ℕ → ℕ → ℕ → Db → Option ClaimedJob × Db
claim_candidate none token now lease_until d = (none, d)
claim_candidate (some j) token now lease_until d = (
  some (record { job_id = j.job_id; worker_token = token; job_version = j.job_version + 1 }),
  update_jobs (λ (row : Job). row.job_id == j.job_id) (claim_values token now lease_until) d,
)

-- `token` is the text of the fresh uuid.
unfoldable pub claim_next_job : Settings → (ℕ → Bool) → ℕ → ℕ → Db → Option ClaimedJob × Db
claim_next_job settings locked token now d =
    claim_candidate (candidate locked now d) token now (now + seconds settings.job_lease_seconds) d
