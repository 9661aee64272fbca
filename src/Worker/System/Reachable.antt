-- ===== src/Worker/System/Reachable.antt =====
-- The states that the statements of the queue reach.
use system_uni.Prelude.{
  ℕ, ◌≡◌, ◌⊎◌, refl, sym, ◌∙◌, ap, Option, none, some, true, false, not, List, [], ◌∷◌, ◌++◌, ◌==◌,
  arith, inl, inr, find?-append_some, is_none, find?,
}
use system_uni.Models.{
  Db, Job, Report, Postgres, Verdict, committed, violated, invalid_data, jobs_ok, constraints-jobs,
}
use system_uni.Worker.Columns.{is_completed}
use system_uni.Worker.Store.{get_job, find_report}
use system_uni.Worker.Enqueue.{transcript_job, with_job, settle_job, enqueue}
use system_uni.Worker.Lifecycle.{IsWellFormed, here}
use system_uni.Worker.Follows.{Follows, Follows-refl, Follows-trans}
use system_uni.Worker.Follows.Statements.{
  renew_lease-Follows, reconcile_reported_job-Follows, reconcile_reported_jobs-Follows,
  write_failure-Follows, insert_report-Follows,
}
use system_uni.Worker.Follows.Claims.{claim_next_job-Follows}
use system_uni.Worker.System.{
  SystemStep, claims, renews, reconciles, reconciles_all, fails, reports, enqueues, elsewhere,
  SystemSteps, start, after, has_report,
}
use system_uni.Worker.System.Invariant.{IsSound, get_job-with_job}
use system_uni.Worker.System.Updates.{
  renew_lease-IsSound, reconcile_reported_job-IsSound, reconcile_reported_jobs-IsSound,
  write_failure-IsSound, claim_next_job-IsSound,
}
use system_uni.Worker.System.Inserts.{insert_report-IsSound}

-- A new job is well formed.
transcript_job-IsWellFormed :
    (k owner student now : ℕ) → IsWellFormed (transcript_job k owner student now)
unfolding transcript_job
transcript_job-IsWellFormed k owner student now = ground arith

find?-none_append :
    (k : ℕ) (j : Job) (xs : List Job)
    → find? (λ (x : Job). x.job_id == k) (xs ++ j ∷ []) ≡ none
    → find? (λ (x : Job). x.job_id == k) xs ≡ none
find?-none_append k j [] h = refl
find?-none_append k j (x ∷ xs) h = ground (arith, find?-none_append k j xs)

with_job-IsSound :
    (j : Job) (d : Db)
    → IsWellFormed j
    → is_completed j.status ≡ false
    → jobs_ok (with_job j d) ≡ true
    → IsSound d
    → IsSound (with_job j d)
with_job-IsSound j d new unfinished keys s = record {
  keys = keys;
  formed = λ k j' h. formed_row k j' (get_job-with_job k j j' d h);
  reported = λ k j' h. reported_row k j' (get_job-with_job k j j' d h);
  owned = λ k h. unfold find_report in s.owned k (unfold get_job in find?-none_append k j d.jobs h);
}
  where
    formed_row :
        (k : ℕ) (j' : Job)
        → (get_job k d ≡ some j') ⊎ ((get_job k d ≡ none) × (j' ≡ j))
        → IsWellFormed j'
    formed_row k j' (inl h) = s.formed k j' h
    formed_row k j' (inr (h, e)) = rw e new

    reported_row :
        (k : ℕ) (j' : Job)
        → (get_job k d ≡ some j') ⊎ ((get_job k d ≡ none) × (j' ≡ j))
        → is_completed j'.status ≡ has_report k (with_job j d)
    reported_row k j' (inl h) = unfold find_report in s.reported k j' h
    reported_row k j' (inr (h, e)) =
        let same : has_report k (with_job j d) ≡ has_report k d = unfold find_report in refl in
        rw e (unfinished ∙ sym (same ∙ rw (s.owned k h) refl))

enqueue-IsSound :
    (pg : Postgres) (k owner student now : ℕ) (d : Db)
    → IsSound d
    → IsSound (enqueue pg (transcript_job k owner student now) d).1
unfolding enqueue
enqueue-IsSound pg k owner student now d s = go (pg.verdict (with_job j d)) refl
  where
    j : Job
    j = transcript_job k owner student now

    go : (v : Verdict) → pg.verdict (with_job j d) ≡ v → IsSound (settle_job v j d).1
    go committed e =
        with_job-IsSound j d (transcript_job-IsWellFormed k owner student now)
          (unfold transcript_job in refl)
          (constraints-jobs (with_job j d) (pg.accepts (with_job j d) e)) s
    go violated e = s
    go invalid_data e = s

enqueue-Follows : (pg : Postgres) (j : Job) (d : Db) → Follows d (enqueue pg j d).1
unfolding enqueue
enqueue-Follows pg j d = go (pg.verdict (with_job j d))
  where
    go : (v : Verdict) → Follows d (settle_job v j d).1
    go committed = record {
      reports_kept = λ k r h. unfold find_report in h;
      jobs_kept = λ k x h. record {
        job = x;
        stored =
            unfold get_job in find?-append_some (λ (y : Job). y.job_id == k) d.jobs (j ∷ []) x h;
        steps = here;
      };
    }
    go violated = Follows-refl d
    go invalid_data = Follows-refl d

SystemStep-IsSound : {d d' : Db} → SystemStep d d' → IsSound d → IsSound d'
SystemStep-IsSound {d} (claims settings locked token now e) s =
    rw e (claim_next_job-IsSound settings locked token now d s)
SystemStep-IsSound {d} (renews settings c now e) s = rw e (renew_lease-IsSound settings c now d s)
SystemStep-IsSound {d} (reconciles k now e) s = rw e (reconcile_reported_job-IsSound k now d s)
SystemStep-IsSound {d} (reconciles_all now e) s = rw e (reconcile_reported_jobs-IsSound now d s)
SystemStep-IsSound {d} (fails settings jitter c x permanent seen now e) s =
    rw e (write_failure-IsSound settings jitter c x permanent seen now d s)
SystemStep-IsSound {d} (reports pg r now e) s = rw e (insert_report-IsSound pg r now d s)
SystemStep-IsSound {d} (enqueues pg k owner student now e) s =
    rw e (enqueue-IsSound pg k owner student now d s)
SystemStep-IsSound {d} {d'} (elsewhere e e') s = record {
  keys = unfold jobs_ok in rw e s.keys;
  formed = λ k j h. s.formed k j (job k ∙ h);
  reported =
      λ k j h. s.reported k j (job k ∙ h) ∙ ap (λ (o : Option Report). not (is_none o)) (report k);
  owned = λ k h. sym (report k) ∙ s.owned k (job k ∙ h);
}
  where
    job : (k : ℕ) → get_job k d ≡ get_job k d'
    job k = unfold get_job in rw e refl

    report : (k : ℕ) → find_report k d ≡ find_report k d'
    report k = unfold find_report in rw e' refl

SystemStep-Follows : {d d' : Db} → SystemStep d d' → IsSound d → Follows d d'
SystemStep-Follows {d} (claims settings locked token now e) s =
    rw e (claim_next_job-Follows settings locked token now d s.keys)
SystemStep-Follows {d} (renews settings c now e) s = rw e (renew_lease-Follows settings c now d)
SystemStep-Follows {d} (reconciles k now e) s = rw e (reconcile_reported_job-Follows k now d)
SystemStep-Follows {d} (reconciles_all now e) s = rw e (reconcile_reported_jobs-Follows now d)
SystemStep-Follows {d} (fails settings jitter c x permanent seen now e) s =
    rw e (write_failure-Follows settings jitter c x permanent seen now d)
SystemStep-Follows {d} (reports pg r now e) s = rw e (insert_report-Follows pg r now d)
SystemStep-Follows {d} (enqueues pg k owner student now e) s = rw e (enqueue-Follows pg _ d)
SystemStep-Follows {d} (elsewhere e e') s = record {
  reports_kept = λ k r h. unfold find_report in rw e' h;
  jobs_kept = λ k j h. record { job = j; stored = unfold get_job in rw e h; steps = here };
}

-- From a state that meets the invariant of the queue, whatever statements of workers, heartbeats and
-- API requests follow one another, the invariant holds at the end: keys are unique, every job is well
-- formed, exactly the jobs with a report are completed, and every report belongs to a job.
pub SystemSteps-IsSound : {d d' : Db} → SystemSteps d d' → IsSound d → IsSound d'
SystemSteps-IsSound start s = s
SystemSteps-IsSound (after r st) s = SystemStep-IsSound st (SystemSteps-IsSound r s)

-- From such a state, along any such statements, no report is lost or replaced, and every job stays
-- and moves along its lifecycle.
pub SystemSteps-Follows : {d d' : Db} → SystemSteps d d' → IsSound d → Follows d d'
SystemSteps-Follows {d} start s = Follows-refl d
SystemSteps-Follows {d} (after {e} {f} r st) s =
    Follows-trans d e f (SystemSteps-Follows r s) (SystemStep-Follows st (SystemSteps-IsSound r s))
