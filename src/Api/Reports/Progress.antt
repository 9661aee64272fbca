-- ===== src/Api/Reports/Progress.antt =====
-- `get_job_status` of app/routers/reports.py, beside the queue.
use system_uni.Prelude.{
  ℕ, ◌≡◌, refl, Option, none, some, Bool, true, false, not, ◌||◌, ◌==◌, is_none, if◌then◌else◌,
  arith,
}
use system_uni.Models.{Db, User, admin, Job, Report, Transcript}
use system_uni.Session.{
  Moment, World, Outcome, ok, raised, Holds, Respects, query, pure, statement, run-statement,
  run->>=,
}
use system_uni.Worker.Columns.{is_completed}
use system_uni.Worker.Store.{get_job, find_report}
use system_uni.Worker.Follows.{Follows}
use system_uni.Worker.System.{SystemSteps, has_report}
use system_uni.Worker.System.Invariant.{IsSound}
use system_uni.Worker.System.Reachable.{SystemSteps-IsSound, SystemSteps-Follows}
use system_uni.Crud.Response.{Response, success, http_error}
use system_uni.Security.{same_role}
use system_uni.Api.Reports.{JobData, job_data, hides_job, status_job, get_job_status, job_not_found}

abbrev pub result_of : Option Report → Option Transcript
result_of none = none
result_of (some r) = some r.result

-- A poll answers about the job that was asked for, to its owner or an admin; its status is "completed"
-- exactly if it carries a result, and the result is that of the stored report.
pub record Reported (k : ℕ) (u : User) (j : JobData) (d : Db) : Type 0 where
  pub asked : j.job_id ≡ k
  pub allowed : (same_role u.role admin || u.id == j.owner_id) ≡ true
  pub told : is_completed j.status ≡ not (is_none j.result)
  pub stored : j.result ≡ result_of (find_report k d)

abbrev pub Polls : ℕ → User → Response JobData → Db → Type 0
Polls k u (http_error code detail) d = Unit
Polls k u (success j) d = Reported k u j d

-- A job without a report at the second statement is not completed at the first.
unreported :
    (k : ℕ) (j : Job) (d d' : Db)
    → IsSound d
    → Follows d d'
    → get_job k d ≡ some j
    → find_report k d' ≡ none
    → is_completed j.status ≡ false
unreported k j d d' s f h none_now = go (find_report k d) refl (s.reported k j h)
  where
    go :
        (r : Option Report)
        → find_report k d ≡ r
        → is_completed j.status ≡ has_report k d
        → is_completed j.status ≡ false
    go none e told = rw told (rw e refl)
    go (some r) e told = let kept = f.reports_kept k r e in cc

module _ (env : ℕ → Moment) (rely : Respects SystemSteps env) (k : ℕ) (u : User) where
  -- After the first statement.
  abbrev Found : Outcome (Option Job) × World → Type 0
  Found (raised e, w) = Unit
  Found (ok r, w) = IsSound w.db × (get_job k w.db ≡ r)

  job_data-Reported :
      (j : Job) (d d' : Db)
      → IsSound d
      → Follows d d'
      → get_job k d ≡ some j
      → (same_role u.role admin || u.id == j.owner_id) ≡ true
      → Polls k u (success (job_data k j (find_report k d'))) d'
  job_data-Reported j d d' s f h may = go (find_report k d') refl
    where
      go : (r : Option Report) → find_report k d' ≡ r → Polls k u (success (job_data k j r)) d'
      go none e =
          unfold job_data in
          record {
            asked = refl;
            allowed = may;
            told = unreported k j d d' s f h e;
            stored = rw e refl;
          }
      go (some r) e =
          unfold job_data in record { asked = refl; allowed = may; told = refl; stored = rw e refl }

  status_job-Polls :
      (r : Option Job) (w : World)
      → IsSound w.db
      → get_job k w.db ≡ r
      → Holds (Polls k u) (status_job env u k r w)
  unfolding status_job query pure
  status_job-Polls none w s h = tt
  status_job-Polls (some j) w s h = go (hides_job u j) refl
    where
      go :
          (b : Bool)
          → hides_job u j ≡ b
          → Holds (Polls k u) (
              (if b
                  then pure job_not_found
                  else statement env (λ m d. (success (job_data k j (find_report k d)), d)))
                w)
      go true e = tt
      go false e =
          let steps = rely w.tick w.db in
          run-statement (Holds (Polls k u)) env
            (λ m d. (success (job_data k j (find_report k d)), d)) w (λ x. tt)
            (job_data-Reported j w.db ((env w.tick).others w.db) s (SystemSteps-Follows steps s) h
              (ground arith))

-- While the statements of workers and the API are all that others run, from a sound queue: a poll that
-- answers with a job answers about the job that was asked for, to its owner or an admin alone; the
-- status is "completed" exactly if a result comes with it, which is that of the stored report.
pub get_job_status-Polls :
    (env : ℕ → Moment) (k : ℕ) (u : User) (w : World)
    → Respects SystemSteps env
    → IsSound w.db
    → Holds (Polls k u) (get_job_status env u k w)
unfolding get_job_status query
get_job_status-Polls env k u w rely s =
    let sound = SystemSteps-IsSound (rely w.tick w.db) s in
    run->>= (Holds (Polls k u)) (Found env rely k u) (query env (get_job k)) (status_job env u k) w
      (run-statement (Found env rely k u) env (λ m d. (get_job k d, d)) w (λ e. tt) (sound, refl))
      (λ r w' (t, h). status_job-Polls env rely k u r w' t h) (λ e w' h. tt)
