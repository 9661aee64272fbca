-- ===== src/Worker/Process/Result.antt =====
-- The result of `process_claimed_report`, and the stored report.
use system_uni.Prelude.{
  ℕ, ◌≡◌, refl, Option, none, some, Bool, true, false, not, if◌then◌else◌, List, str_eq,
}
use mathlib.Core.Path.{subst}
use system_uni.Models.{
  Db, Job, Report, Transcript, Verdict, committed, violated, invalid_data, Postgres,
}
use system_uni.Session.{
  Session, Moment, World, Exn, permanent_job_error, lease_lost_error, integrity_error,
  sqlalchemy_error, type_error, pure, raise, ◌>>=◌, statement, query, Ensures, Holds, pure-Ensures,
  raise-Ensures, >>=-Ensures, statement-Ensures, try_except-Ensures, always,
}
use system_uni.Services.Reports.{generate_student_transcript}
use system_uni.Worker.Columns.{is_processing, owns_job}
use system_uni.Worker.Store.{get_job}
use system_uni.Worker.Reconcile.{reconcile_reported_job}
use system_uni.Worker.Failure.{record_failure, ReturnStatus}
use system_uni.Worker.Persist.{
  persist_or_adopt_report, insert_statement, after_insert, adopt_winner, winner_or,
}
use system_uni.Worker.Process.{
  Execution, Returned, with_result, without_result, adopt, adopt_or, finish, generated, generate,
  start, fail, handle, process_claimed_report,
}
use system_uni.Worker.Process.Delivery.{
  Delivered, Adopted, Inserted, reconcile_reported_job-Adopted, insert_report-Inserted,
}

-- A result that is returned is that of the stored report of the job.
abbrev pub Returns : ℕ → Option Transcript → Db → Type 0
Returns k none d = Unit
Returns k (some t) d = (r : Report) × Delivered k r d × (r.result ≡ t)

module _ (env : ℕ → Moment) where
  abbrev InsertEnds : ℕ → Verdict × Report × List ℕ → Db → Type 0
  InsertEnds k (v, r, text) d = Inserted v r d × (r.job_id ≡ k)

  insert_statement-InsertEnds :
      (pg : Postgres) (k : ℕ) (t : Transcript)
      → Ensures (InsertEnds k) (statement env (insert_statement pg k t))
  insert_statement-InsertEnds pg k t =
      statement-Ensures (InsertEnds k) env (insert_statement pg k t)
        (λ m d. unfold insert_statement in (insert_report-Inserted pg _ m.now d, refl))

  adopt_winner-Ensures : (k : ℕ) (text : List ℕ) → Ensures (Delivered k) (adopt_winner env k text)
  unfolding adopt_winner
  adopt_winner-Ensures k text =
      >>=-Ensures (Delivered k) (Adopted k)
        (statement env (λ m d. reconcile_reported_job k m.now d)) (winner_or text)
        (statement-Ensures (Adopted k) env (λ m d. reconcile_reported_job k m.now d)
          (λ m d. reconcile_reported_job-Adopted k m.now d))
        chosen
    where
      chosen :
          (r : Option Report) (w : World)
          → Adopted k r w.db
          → Holds (Delivered k) (winner_or text r w)
      chosen none w h = unfold winner_or raise in tt
      chosen (some r) w h = unfold winner_or pure in h

  persist_or_adopt_report-Ensures :
      (pg : Postgres) (k : ℕ) (t : Transcript)
      → Ensures (Delivered k) (persist_or_adopt_report env pg k t)
  unfolding persist_or_adopt_report
  persist_or_adopt_report-Ensures pg k t =
      >>=-Ensures (Delivered k) (InsertEnds k) (statement env (insert_statement pg k t))
        (after_insert env) (insert_statement-InsertEnds pg k t)
        (λ (v, r, text) w h. ended v r text w h)
    where
      ended :
          (v : Verdict) (r : Report) (text : List ℕ) (w : World)
          → InsertEnds k (v, r, text) w.db
          → Holds (Delivered k) (after_insert env (v, r, text) w)
      ended committed r text w (h, same) =
          unfold after_insert pure in subst (λ n. Delivered n r w.db) same h
      ended violated r text w (h, same) =
          unfold after_insert in rw same ((adopt_winner-Ensures k text).ensured w)
      ended invalid_data r text w h = unfold after_insert raise in tt

module _ (env : ℕ → Moment) (x : Execution) where
  abbrev Good : Returned → Db → Type 0
  Good ret d = Returns x.claim.job_id ret.result d

  if-Good :
      (b : Bool) (m n : Session Returned)
      → Ensures Good m
      → Ensures Good n
      → Ensures Good (if b then m else n)
  if-Good true m n hm hn = hm
  if-Good false m n hm hn = hn

  adopt_or-Good : (rest : Session Returned) → Ensures Good rest → Ensures Good (adopt_or env x rest)
  unfolding adopt_or
  adopt_or-Good rest h =
      >>=-Ensures Good (Adopted x.claim.job_id) _ (adopt env x rest)
        (statement-Ensures (Adopted x.claim.job_id) env
          (λ m d. reconcile_reported_job x.claim.job_id m.now d)
          (λ m d. reconcile_reported_job-Adopted x.claim.job_id m.now d))
        chosen
    where
      chosen :
          (r : Option Report) (w : World)
          → Adopted x.claim.job_id r w.db
          → Holds Good (adopt env x rest r w)
      chosen none w a = unfold adopt in h.ensured w
      chosen (some r) w a = unfold adopt pure in (r, a, refl)

  no_result : (s : ReturnStatus) → Ensures Good (pure (without_result x s))
  no_result s = pure-Ensures Good (without_result x s) (λ d. tt)

  any_then :
      {A : Type 0} (m : Session A) (f : A → Session Returned)
      → ((a : A) → Ensures Good (f a))
      → Ensures Good (m >>= f)
  any_then {A} m f h =
      >>=-Ensures Good (λ (a : A) d. Unit {0}) m f (always m) (λ a w u. (h a).ensured w)

  finish-Good : (id : ℕ) (t : Option Transcript) → Ensures Good (finish env x id t)
  unfolding finish
  finish-Good id none = adopt_or-Good _ (raise-Ensures Good _)
  finish-Good id (some t) = adopt_or-Good _ (
      >>=-Ensures Good (Delivered x.claim.job_id)
        (persist_or_adopt_report env x.postgres x.claim.job_id t) (λ r. pure (with_result x r))
        (persist_or_adopt_report-Ensures env x.postgres x.claim.job_id t)
        (λ r w h. unfold pure in (r, h, refl)))

  generated-Good : (id : ℕ) (t : Option Transcript) → Ensures Good (generated env x id t)
  unfolding generated
  generated-Good id t =
      if-Good x.report_found _ _ (adopt_or-Good _ (raise-Ensures Good lease_lost_error))
        (finish-Good id t)

  generate-Good : (j : Job) → Ensures Good (generate env x j)
  unfolding generate
  generate-Good j = adopt_or-Good _ (
      if-Good (not (str_eq j.report_type "transcript")) _ _ (raise-Ensures Good _) (
        any_then (generate_student_transcript env x.floats j.target_id) _
          (generated-Good j.target_id)))

  start-Good : (j : Option Job) → Ensures Good (start env x j)
  unfolding start
  start-Good none = no_result _
  start-Good (some j) = adopt_or-Good _ (
      if-Good (not (is_processing j.status)) _ _ (no_result _)
        (if-Good (not (owns_job j x.claim)) _ _ (no_result _) (generate-Good j)))

  fail-Good : (e : Exn) (permanent : Bool) → Ensures Good (fail env x e permanent)
  unfolding fail
  fail-Good e permanent =
      any_then (record_failure env x.settings x.jitter x.claim e permanent) _ (λ s. no_result s)

  handle-Good : (e : Exn) → Ensures Good (handle env x e)
  unfolding handle
  handle-Good (permanent_job_error m) = fail-Good _ true
  handle-Good lease_lost_error = adopt_or-Good _ (no_result _)
  handle-Good (integrity_error m) = adopt_or-Good _ (fail-Good _ false)
  handle-Good (sqlalchemy_error m) = adopt_or-Good _ (fail-Good _ false)
  handle-Good (type_error m) = adopt_or-Good _ (fail-Good _ false)

  process-Good : Ensures Good (process_claimed_report env x)
  unfolding process_claimed_report
  process-Good =
      try_except-Ensures Good _ _ (any_then (query env (get_job x.claim.job_id)) _ start-Good)
        handle-Good

-- Whatever the other sessions do and whichever statements fail: if `process_claimed_report` returns a
-- transcript, then this is the one in the stored report of the job, and the job is completed.
pub process_claimed_report-Returns :
    (env : ℕ → Moment) (x : Execution) (w : World)
    → Holds (λ (ret : Returned). Returns x.claim.job_id ret.result) (process_claimed_report env x w)
process_claimed_report-Returns env x w = (process-Good env x).ensured w
