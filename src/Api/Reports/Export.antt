-- ===== src/Api/Reports/Export.antt =====
-- `export_transcript_async` of app/routers/reports.py, and the job that it answers with.
use system_uni.Prelude.{
  ℕ, ◌≡◌, refl, Option, none, some, Bool, true, false, [], ◌∷◌, ◌++◌, ◌==◌, if◌then◌else◌,
  find?-of_unique, mem_last, arith,
}
use system_uni.Models.{
  Db, User, Student, Job, Postgres, Verdict, committed, violated, invalid_data, jobs_ok,
  constraints-jobs,
}
use system_uni.Session.{
  ◌>>=◌, Moment, World, Ensures, always, Holds, query, pure, raise, statement, statement-Ensures,
  pure-Ensures, >>=-Ensures,
}
use system_uni.Services.Reports.{get_student}
use system_uni.Worker.Store.{get_job}
use system_uni.Worker.Enqueue.{transcript_job, with_job, settle_job, enqueue}
use system_uni.Crud.Response.{Response, success, http_error}
use system_uni.Api.Reports.{
  Queued, hides, hides_job, export_statement, export_response, export_student,
  export_transcript_async, student_not_found,
}

-- The row of the job that was answered: fresh, of the caller, for the student, and not hidden.
abbrev pub Exports : User → ℕ → Response Queued → Db → Type 0
Exports u k (http_error code detail) d = Unit
Exports u k (success q) d =
    (now : ℕ) × (get_job q.job_id d ≡ some (transcript_job q.job_id u.id k now))
    × (q.student_id ≡ k)
    × (hides_job u (transcript_job q.job_id u.id k now) ≡ false)

get_job-with_job_self :
    (j : Job) (d : Db) → jobs_ok (with_job j d) ≡ true → get_job j.job_id (with_job j d) ≡ some j
unfolding jobs_ok get_job
get_job-with_job_self j d h =
    find?-of_unique (λ (a b : Job). a.job_id == b.job_id) (λ (x : Job). x.job_id == j.job_id)
      (d.jobs ++ j ∷ []) (λ x y a b. ground arith) h (mem_last d.jobs j) (ground arith)

module _ (u : User) (k : ℕ) where
  -- What the statement of the export leaves, if it commits.
  abbrev Enqueued : Verdict × ℕ → Db → Type 0
  Enqueued (committed, id) d = (now : ℕ) × (get_job id d ≡ some (transcript_job id u.id k now))
  Enqueued (violated, id) d = Unit
  Enqueued (invalid_data, id) d = Unit

  enqueue-Enqueued :
      (pg : Postgres) (id now : ℕ) (d : Db)
      → let (v, d') = enqueue pg (transcript_job id u.id k now) d in Enqueued (v, id) d'
  unfolding enqueue
  enqueue-Enqueued pg id now d = go (pg.verdict (with_job j d)) refl
    where
      j : Job
      j = transcript_job id u.id k now

      go :
          (v : Verdict)
          → pg.verdict (with_job j d) ≡ v
          → let (v', d') = settle_job v j d in Enqueued (v', id) d'
      go committed e = (
        now,
        unfold transcript_job in
            get_job-with_job_self j d
              (constraints-jobs (with_job j d) (pg.accepts (with_job j d) e)),
      )
      go violated e = tt
      go invalid_data e = tt

  own_job : (id now : ℕ) → hides_job u (transcript_job id u.id k now) ≡ false
  unfolding transcript_job
  own_job id now = ground arith

  export_response-Exports :
      (r : Verdict × ℕ) (w : World) → Enqueued r w.db → Holds (Exports u k) (export_response k r w)
  unfolding export_response pure raise
  export_response-Exports (committed, id) w (now, h) = (now, h, refl, own_job id now)
  export_response-Exports (violated, id) w h = tt
  export_response-Exports (invalid_data, id) w h = tt

export_student-Exports :
    (env : ℕ → Moment) (u : User) (pg : Postgres) (k : ℕ) (r : Option Student)
    → Ensures (Exports u k) (export_student env u pg k r)
unfolding export_student
export_student-Exports env u pg k none = pure-Ensures (Exports u k) student_not_found (λ d. tt)
export_student-Exports env u pg k (some s) = go (hides u s)
  where
    go :
        (b : Bool)
        → Ensures (Exports u k) (
            if b
            then pure student_not_found
            else (statement env (export_statement u pg k) >>= export_response k))
    go true = pure-Ensures (Exports u k) student_not_found (λ d. tt)
    go false =
        >>=-Ensures (Exports u k) (Enqueued u k) (statement env (export_statement u pg k))
          (export_response k)
          (statement-Ensures (Enqueued u k) env (export_statement u pg k)
            (λ m d. enqueue-Enqueued u k pg m.uuid m.now d))
          (export_response-Exports u k)

-- If an export answers with a job, that job is stored at that moment: queued, at its first version, for
-- the student, owned by the caller, from whom a poll of it is not hidden.
pub export_transcript_async-Exports :
    (env : ℕ → Moment) (u : User) (pg : Postgres) (k : ℕ)
    → Ensures (Exports u k) (export_transcript_async env u pg k)
unfolding export_transcript_async
export_transcript_async-Exports env u pg k =
    >>=-Ensures (Exports u k) (λ r d. Unit {0}) (query env (get_student k))
      (export_student env u pg k) (always (query env (get_student k)))
      (λ r w h. (export_student-Exports env u pg k r).ensured w)
