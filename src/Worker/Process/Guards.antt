-- ===== src/Worker/Process/Guards.antt =====
-- The guards of `process_claimed_report` of app/workers/tasks.py: the executions that generate nothing.
use system_uni.Prelude.{
  ℕ, suc, ◌≡◌, refl, ◌∙◌, ap, Option, none, some, Bool, true, false, not, ◌&&◌, if◌then◌else◌,
}
use system_uni.Models.{Job, Report}
use system_uni.Session.{
  World, Outcome, ok, Moment, pure, try_except, ◌>>=◌, query, IsCalm, statement-IsCalm,
}
use system_uni.Worker.Columns.{is_processing, owns_job}
use system_uni.Worker.Store.{get_job, find_report}
use system_uni.Worker.Reconcile.{complete_job, repair, reconcile_reported_job}
use system_uni.Worker.Failure.{job_not_found, already_processing, job_status}
use system_uni.Worker.Process.{
  Returned, Execution, without_result, with_result, adopt, adopt_or, generate, start, handle,
  process_claimed_report,
}

-- A transcript is to be generated: the job is processing under the claim and has no report.
abbrev pub is_wanted : Execution → Option Job → Option Report → Bool
is_wanted x none r = false
is_wanted x (some j) none = is_processing j.status && owns_job j x.claim
is_wanted x (some j) (some r) = false

module _ (env : ℕ → Moment) (x : Execution) (w : World) where
  -- How an execution ends that generates nothing, given the job and its report.
  abbrev pub standing_aside : Option Job → Option Report → Outcome Returned × World
  standing_aside none r =
      (ok (without_result x job_not_found), record { db = w.db; tick = suc w.tick })
  standing_aside (some j) (some r) = (
    ok (with_result x r),
    record {
      db = complete_job x.claim.job_id (env (suc w.tick)).now w.db;
      tick = suc (suc w.tick);
    },
  )
  standing_aside (some j) none = (
    ok (
        without_result x
          (if is_processing j.status then already_processing else job_status j.status)),
    record { db = w.db; tick = suc (suc w.tick) },
  )

  -- What follows the read and the look for a report, given how it ended.
  unfoldable began : Outcome (Option Job) × World → Outcome Returned × World
  began r = try_except ((λ (v : World). r) >>= start env x) (handle env x) w

  unfoldable looked : Job → Outcome (Option Report) × World → Outcome Returned × World
  looked j r =
      try_except
        ((λ (v : World). r)
          >>= adopt env x (
              if not (is_processing j.status)
              then pure (without_result x (job_status j.status))
              else if not (owns_job j x.claim)
              then pure (without_result x already_processing)
              else generate env x j))
        (handle env x) w

  module _ (calm : IsCalm env) where
    looked-standing_aside :
        (j : Job) (r : Option Report)
        → is_wanted x (some j) r ≡ false
        → let (a, d) = repair r x.claim.job_id (env (suc w.tick)).now w.db in
          looked j (ok a, record { db = d; tick = suc (suc w.tick) }) ≡ standing_aside (some j) r
    unfolding looked try_except ◌>>=◌ adopt pure
    looked-standing_aside j (some r) h = refl
    looked-standing_aside j none h = go (is_processing j.status) (owns_job j x.claim) refl refl
      where
        go :
            (b b' : Bool)
            → is_processing j.status ≡ b
            → owns_job j x.claim ≡ b'
            → looked j (ok none, record { db = w.db; tick = suc (suc w.tick) })
              ≡ standing_aside (some j) none
        go false b' e e' = rw e refl
        go true false e e' = rw (e, e') refl
        go true true e e' = absurd (clash (rw (e, e') at h))
          where
            clash : true ≡ false → ⊥
            clash k = cc

    began-standing_aside :
        (r : Option Job)
        → is_wanted x r (find_report x.claim.job_id w.db) ≡ false
        → began (ok r, record { db = w.db; tick = suc w.tick })
          ≡ standing_aside r (find_report x.claim.job_id w.db)
    unfolding began looked try_except ◌>>=◌ start adopt_or pure reconcile_reported_job
    began-standing_aside none h = refl
    began-standing_aside (some j) h =
        ap (looked j) (
          statement-IsCalm env (λ m d. reconcile_reported_job x.claim.job_id m.now d)
            (record { db = w.db; tick = suc w.tick }) calm)
        ∙ looked-standing_aside j (find_report x.claim.job_id w.db) h

    -- Where no other session and no fault interferes: unless the job is processing, the execution owns
    -- it and no report is there, `process_claimed_report` generates nothing and ends as follows. Without
    -- the job it tells so. A report that is there is returned and completes the job. Else nothing is
    -- written, and the answer is the status of the job, or `already_processing` where the job is
    -- processing for another execution.
    pub process_claimed_report_stands_aside :
        is_wanted x (get_job x.claim.job_id w.db) (find_report x.claim.job_id w.db) ≡ false
        → process_claimed_report env x w
          ≡ standing_aside (get_job x.claim.job_id w.db) (find_report x.claim.job_id w.db)
    unfolding process_claimed_report began try_except ◌>>=◌ query
    process_claimed_report_stands_aside h =
        ap began (statement-IsCalm env (λ m d. (get_job x.claim.job_id d, d)) w calm)
        ∙ began-standing_aside (get_job x.claim.job_id w.db) h
