-- ===== src/Worker/Process/Contract.antt =====
-- `process_claimed_report` and the contract of the queue.
use system_uni.Prelude.{refl, ℕ, Option, none, some, Bool, true, false, not, List, str_eq}
use system_uni.Models.{
  Job, Report, Transcript, Student, Verdict, committed, violated, invalid_data, Postgres,
}
use system_uni.Session.{
  Session, Moment, World, Exn, permanent_job_error, lease_lost_error, integrity_error,
  sqlalchemy_error, type_error, Respects, Guarantees, try_except-Guarantees, statement-Guarantees,
}
use system_uni.Services.Reports.{
  Rounding, generate_student_transcript, transcript_for, get_student, enrollments_of,
}
use system_uni.Worker.Settings.{Settings}
use system_uni.Worker.Columns.{ClaimedJob, is_processing, owns_job}
use system_uni.Worker.Store.{get_job}
use system_uni.Worker.Failure.{
  Jitter, record_failure, failure_of, already_processing, job_status, write_failure,
}
use system_uni.Worker.Persist.{
  persist_or_adopt_report, insert_statement, after_insert, adopt_winner, winner_or,
}
use system_uni.Worker.System.{
  SystemSteps, SystemSteps-Preorder, start as none_yet, after, fails, reports,
}
use system_uni.Worker.System.Programs.{if-Guarantees, return, throw, sequence, read, reconcile}
use system_uni.Worker.Process.{
  Execution, Returned, with_result, without_result, adopt, adopt_or, finish, generated, generate,
  start, fail, handle, process_claimed_report,
}

module _ (env : ℕ → Moment) (rely : Respects SystemSteps env) where
  winner_or-Guarantees :
      (text : List ℕ) (r : Option Report) → Guarantees SystemSteps (winner_or text r)
  unfolding winner_or
  winner_or-Guarantees text none = throw _ _
  winner_or-Guarantees text (some w) = return w

  transcript_for-Guarantees :
      (floats : Rounding) (id : ℕ) (s : Option Student)
      → Guarantees SystemSteps (transcript_for env floats id s)
  unfolding transcript_for
  transcript_for-Guarantees floats id none = return _
  transcript_for-Guarantees floats id (some s) =
      sequence _ _ (read env rely (enrollments_of id)) (λ es. return _)

  generate_student_transcript-Guarantees :
      (floats : Rounding) (id : ℕ)
      → Guarantees SystemSteps (generate_student_transcript env floats id)
  unfolding generate_student_transcript
  generate_student_transcript-Guarantees floats id =
      sequence _ _ (read env rely (get_student id)) (transcript_for-Guarantees floats id)

  failure_of-Guarantees :
      (settings : Settings) (jitter : Jitter) (c : ClaimedJob) (e : Exn) (permanent : Bool)
      (j : Option Job)
      → Guarantees SystemSteps (failure_of env settings jitter c e permanent j)
  unfolding failure_of
  failure_of-Guarantees settings jitter c e permanent none = return _
  failure_of-Guarantees settings jitter c e permanent (some j) =
      if-Guarantees (not (is_processing j.status)) _ _ (return (job_status j.status)) (
        if-Guarantees (not (owns_job j c)) _ _ (return already_processing) (
          statement-Guarantees SystemSteps SystemSteps-Preorder env
            (λ m d. write_failure settings jitter c e permanent j m.now d) rely
            (λ m d. after none_yet (fails settings jitter c e permanent j m.now refl))))

  record_failure-Guarantees :
      (settings : Settings) (jitter : Jitter) (c : ClaimedJob) (e : Exn) (permanent : Bool)
      → Guarantees SystemSteps (record_failure env settings jitter c e permanent)
  unfolding record_failure
  record_failure-Guarantees settings jitter c e permanent =
      sequence _ _ (read env rely (get_job c.job_id))
        (failure_of-Guarantees settings jitter c e permanent)

  after_insert-Guarantees :
      (v : Verdict) (r : Report) (text : List ℕ)
      → Guarantees SystemSteps (after_insert env (v, r, text))
  unfolding after_insert adopt_winner
  after_insert-Guarantees committed r text = return r
  after_insert-Guarantees violated r text =
      sequence _ _ (reconcile env rely r.job_id) (winner_or-Guarantees text)
  after_insert-Guarantees invalid_data r text = throw _ _

  persist_or_adopt_report-Guarantees :
      (pg : Postgres) (k : ℕ) (t : Transcript)
      → Guarantees SystemSteps (persist_or_adopt_report env pg k t)
  unfolding persist_or_adopt_report
  persist_or_adopt_report-Guarantees pg k t =
      sequence _ _
        (statement-Guarantees SystemSteps SystemSteps-Preorder env (insert_statement pg k t) rely
          (λ m d. unfold insert_statement in after none_yet (reports pg _ m.now refl)))
        (λ (v, r, text). after_insert-Guarantees v r text)

  module _ (x : Execution) where
    adopt-Guarantees :
        (rest : Session Returned)
        → Guarantees SystemSteps rest
        → (r : Option Report) → Guarantees SystemSteps (adopt env x rest r)
    unfolding adopt
    adopt-Guarantees rest h none = h
    adopt-Guarantees rest h (some r) = return (with_result x r)

    adopt_or-Guarantees :
        (rest : Session Returned)
        → Guarantees SystemSteps rest
        → Guarantees SystemSteps (adopt_or env x rest)
    unfolding adopt_or
    adopt_or-Guarantees rest h =
        sequence _ _ (reconcile env rely x.claim.job_id) (adopt-Guarantees rest h)

    finish-Guarantees :
        (id : ℕ) (t : Option Transcript) → Guarantees SystemSteps (finish env x id t)
    unfolding finish
    finish-Guarantees id none = adopt_or-Guarantees _ (throw _ _)
    finish-Guarantees id (some t) = adopt_or-Guarantees _ (
        sequence _ _ (persist_or_adopt_report-Guarantees x.postgres x.claim.job_id t)
          (λ r. return (with_result x r)))

    generated-Guarantees :
        (id : ℕ) (t : Option Transcript) → Guarantees SystemSteps (generated env x id t)
    unfolding generated
    generated-Guarantees id t =
        if-Guarantees x.report_found _ _ (adopt_or-Guarantees _ (throw Returned lease_lost_error))
          (finish-Guarantees id t)

    generate-Guarantees : (j : Job) → Guarantees SystemSteps (generate env x j)
    unfolding generate
    generate-Guarantees j = adopt_or-Guarantees _ (
        if-Guarantees (not (str_eq j.report_type "transcript")) _ _ (throw _ _) (
          sequence _ _ (generate_student_transcript-Guarantees x.floats j.target_id)
            (generated-Guarantees j.target_id)))

    start-Guarantees : (j : Option Job) → Guarantees SystemSteps (start env x j)
    unfolding start
    start-Guarantees none = return _
    start-Guarantees (some j) = adopt_or-Guarantees _ (
        if-Guarantees (not (is_processing j.status)) _ _ (return _)
          (if-Guarantees (not (owns_job j x.claim)) _ _ (return _) (generate-Guarantees j)))

    fail-Guarantees : (e : Exn) (permanent : Bool) → Guarantees SystemSteps (fail env x e permanent)
    unfolding fail
    fail-Guarantees e permanent =
        sequence _ _ (record_failure-Guarantees x.settings x.jitter x.claim e permanent)
          (λ s. return (without_result x s))

    handle-Guarantees : (e : Exn) → Guarantees SystemSteps (handle env x e)
    unfolding handle
    handle-Guarantees (permanent_job_error m) = fail-Guarantees _ true
    handle-Guarantees lease_lost_error = adopt_or-Guarantees _ (return _)
    handle-Guarantees (integrity_error m) = adopt_or-Guarantees _ (fail-Guarantees _ false)
    handle-Guarantees (sqlalchemy_error m) = adopt_or-Guarantees _ (fail-Guarantees _ false)
    handle-Guarantees (type_error m) = adopt_or-Guarantees _ (fail-Guarantees _ false)

    process-Guarantees : Guarantees SystemSteps (process_claimed_report env x)
    unfolding process_claimed_report
    process-Guarantees =
        try_except-Guarantees SystemSteps SystemSteps-Preorder _ _
          (sequence _ _ (read env rely (get_job x.claim.job_id)) start-Guarantees) handle-Guarantees

-- `process_claimed_report` refines the transition system of the queue: if the other sessions change the
-- database between its statements by steps of the system only, then the state at its end, however
-- it ends and whichever of its statements fail, is reached from the state at its start by such
-- steps.
process_claimed_report-SystemSteps :
    (env : ℕ → Moment) (x : Execution)
    → Respects SystemSteps env
    → (w : World) → SystemSteps w.db (process_claimed_report env x w).1.db
process_claimed_report-SystemSteps env x rely w = (process-Guarantees env rely x).kept w
