-- ===== src/Worker/Persist.antt =====
-- `_persist_or_adopt_report` of app/workers/tasks.py: the row of `report` decides which execution
-- finishes the job.
use system_uni.Prelude.{ℕ, Option, none, some, List, [], ◌∷◌, ◌++◌}
use system_uni.Models.{Db, Report, Transcript, Postgres, Verdict, committed, violated, invalid_data}
use system_uni.Session.{Session, Moment, statement, pure, raise, ◌>>=◌}
use system_uni.Session.{integrity_error, sqlalchemy_error}
use system_uni.Worker.Reconcile.{complete_job, reconcile_reported_job}

abbrev pub with_report : Report → Db → Db
with_report r d = record d { reports = d.reports ++ r ∷ [] }

-- The insert, with the update of the job in the same transaction.
abbrev pub settle_insert : Verdict → Report → ℕ → Db → Verdict × Db
settle_insert committed r now d = (committed, complete_job r.job_id now (with_report r d))
settle_insert v r now d = (v, d)

unfoldable pub insert_report : Postgres → Report → ℕ → Db → Verdict × Db
insert_report pg r now d = settle_insert (pg.verdict (with_report r d)) r now d

unfoldable pub winner_or : List ℕ → Option Report → Session Report
winner_or text none = raise (integrity_error text)
winner_or text (some w) = pure w

-- The winner's report, once the insert has collided with it.
unfoldable pub adopt_winner : (ℕ → Moment) → ℕ → List ℕ → Session Report
adopt_winner env job_id text =
    statement env (λ m d. reconcile_reported_job job_id m.now d) >>= winner_or text

-- What follows the insert: a DataError is not caught here.
unfoldable pub after_insert : (ℕ → Moment) → Verdict × Report × List ℕ → Session Report
after_insert env (committed, r, text) = pure r
after_insert env (violated, r, text) = adopt_winner env r.job_id text
after_insert env (invalid_data, r, text) = raise (sqlalchemy_error text)

unfoldable pub insert_statement :
    Postgres → ℕ → Transcript → Moment → Db → (Verdict × Report × List ℕ) × Db
insert_statement pg job_id result m d =
    let r : Report = record { id = m.serial; result = result; job_id = job_id } in
    let (v, d') = insert_report pg r m.now d in ((v, r, m.violation), d')

unfoldable pub persist_or_adopt_report : (ℕ → Moment) → Postgres → ℕ → Transcript → Session Report
persist_or_adopt_report env pg job_id result =
    statement env (insert_statement pg job_id result) >>= after_insert env
