-- ===== src/Crud/Response.antt =====
-- What a handler answers, and how its commit ends: `IntegrityError` and `DataError` are the database's
-- verdict on the new state, `StaleDataError` is an UPDATE or DELETE that matched no row.
use system_uni.Prelude.{ℕ, String, Option, none, some, []}
use system_uni.Models.{Db, Postgres, Verdict, committed, violated, invalid_data}
use system_uni.Session.{Session, Moment, statement, pure, raise, sqlalchemy_error}

pub data Response (A : Type 0) : Type 0 where
  success : A → Response A
  http_error : ℕ → String → Response A

pub data Commit (A : Type 0) : Type 0 where
  written : A → Commit A
  integrity_failed data_failed stale : Commit A

-- The new rows that a flush sends; `none` if a statement of it matched no row.
abbrev pub Change : Type 0 → Type 0
Change A = Moment → Db → Option (A × Db)

module _ {A : Type 0} where
  abbrev pub judge : Verdict → A → Db → Db → Commit A × Db
  judge committed a d' d = (written a, d')
  judge violated a d' d = (integrity_failed, d)
  judge invalid_data a d' d = (data_failed, d)

  abbrev pub flush : Postgres → Option (A × Db) → Db → Commit A × Db
  flush pg none d = (stale, d)
  flush pg (some (a, d')) d = judge (pg.verdict d') a d' d

  -- `db.commit()`: the change, if it goes through, and else a rollback.
  unfoldable pub commit : (ℕ → Moment) → Postgres → Change A → Session (Commit A)
  commit env pg change = statement env (λ m d. flush pg (change m d) d)

  -- `db.refresh(row)` raises if the row is gone.
  unfoldable pub refreshed : Option A → Session (Response A)
  refreshed none = raise (sqlalchemy_error [])
  refreshed (some a) = pure (success a)

-- What follows a commit: the rest of the handler, or one of its `except` clauses; a StaleDataError is
-- not caught.
unfoldable pub answer :
    {A B : Type 0} → (A → Session (Response B)) → String → String → Commit A → Session (Response B)
answer rest conflict invalid (written a) = rest a
answer rest conflict invalid integrity_failed = pure (http_error 409 conflict)
answer rest conflict invalid data_failed = pure (http_error 422 invalid)
answer rest conflict invalid stale = raise (sqlalchemy_error [])

-- The delete handlers catch an IntegrityError alone.
unfoldable pub answer_delete :
    {A B : Type 0} → Session (Response B) → String → Commit A → Session (Response B)
answer_delete rest conflict (written a) = rest
answer_delete rest conflict integrity_failed = pure (http_error 409 conflict)
answer_delete rest conflict data_failed = raise (sqlalchemy_error [])
answer_delete rest conflict stale = raise (sqlalchemy_error [])
