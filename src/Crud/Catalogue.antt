-- ===== src/Crud/Catalogue.antt =====
-- The operations that app/crud/college.py, course.py, teacher.py, department.py, courseoffering.py
-- and courseschedule.py share, for any table that is given by its rows, its columns and its texts.
pub mod Tables
pub mod Departments
pub mod Offerings
pub mod Schedules
pub mod Rows
pub mod Updates
pub mod Assignments
pub mod Keys
pub mod Entities
pub mod Order
mod Tests
use system_uni.Prelude.{
  ℕ, ◌≡◌, String, Option, none, some, Bool, true, false, not, List, [], ◌∷◌, ◌++◌, ◌==◌, find?,
  select_where, update_where, any, if◌then◌else◌,
}
use system_uni.Models.{Db, Postgres}
use system_uni.Session.{Session, Moment, query, pure, ◌>>=◌}
use system_uni.Crud.Columns.{page}
use system_uni.Crud.Response.{
  Response, success, http_error, Commit, commit, refreshed, answer, answer_delete,
}

-- A table: its rows in the database, what a create request makes, which of the given columns change a
-- row, and what an UPDATE of them writes. Before a DELETE, SQLAlchemy detaches the rows that refer to
-- the removed one by a key that may be NULL.
pub record Table (Row Create Update : Type 0) : Type 0 where
  pub rows : Db → List Row
  pub with_rows : List Row → Db → Db
  pub detach : ℕ → Db → Db
  pub key : Row → ℕ
  pub make : Create → Moment → Row
  pub net_update : Update → Row → Update
  pub is_empty : Update → Bool
  pub write : Update → Row → Row
  pub not_found : String
  pub create_conflict : String
  pub update_conflict : String
  pub invalid : String
  pub delete_conflict : String
  pub deleted : String
  pub rows-with_rows : (xs : List Row) (d : Db) → rows (with_rows xs d) ≡ xs
  pub key-write : (u : Update) (r : Row) → key (write u r) ≡ key r

module _ {Row Create Update : Type 0} (t : Table Row Create Update) where
  abbrev pub has_key : ℕ → Row → Bool
  has_key k r = t.key r == k

  abbrev pub get_row : ℕ → Db → Option Row
  get_row k d = find? (has_key k) (t.rows d)

  abbrev pub with_row : Row → Db → Db
  with_row r d = t.with_rows (t.rows d ++ r ∷ []) d

  abbrev pub without_row : ℕ → Db → Db
  without_row k d =
      t.with_rows (select_where (λ (r : Row). not (has_key k r)) (t.rows d)) (t.detach k d)

  unfoldable pub flush_row : ℕ → Update → Db → Option (Unit {0} × Db)
  flush_row k u d =
      if t.is_empty u
      then some (tt, d)
      else if any (has_key k) (t.rows d)
      then some (tt, t.with_rows (update_where (has_key k) (t.write u) (t.rows d)) d)
      else none

  unfoldable pub row_or_404 : Option Row → Response Row
  row_or_404 none = http_error 404 t.not_found
  row_or_404 (some r) = success r

module _ {Row Create Update : Type 0} (t : Table Row Create Update) (env : ℕ → Moment)
    (pg : Postgres) where
  unfoldable pub create_row : Create → Session (Response Row)
  create_row c =
      commit env pg (λ m d. some (t.make c m, with_row t (t.make c m) d))
      >>= answer (λ (r : Row). query env (get_row t (t.key r)) >>= refreshed) t.create_conflict
          t.invalid

  unfoldable pub update_found : Update → ℕ → Option Row → Session (Response Row)
  update_found u k none = pure (http_error 404 t.not_found)
  update_found u k (some r) =
      commit env pg (λ m d. flush_row t k (t.net_update u r) d)
      >>= answer (λ (done : Unit {0}). query env (get_row t k) >>= refreshed) t.update_conflict
          t.invalid

  unfoldable pub update_row : Update → ℕ → Session (Response Row)
  update_row u k = query env (get_row t k) >>= update_found u k

  unfoldable pub read_row : ℕ → Session (Response Row)
  read_row k = query env (λ d. row_or_404 t (get_row t k d))

  unfoldable pub read_rows : ℕ → ℕ → Session (List Row)
  read_rows skip limit = query env (λ d. page t.key skip limit (t.rows d))

  unfoldable pub delete_found : ℕ → Option Row → Session (Response String)
  delete_found k none = pure (http_error 404 t.not_found)
  delete_found k (some r) =
      commit env pg (λ m d. some (tt, without_row t k d))
      >>= answer_delete (pure (success t.deleted)) t.delete_conflict

  unfoldable pub delete_row : ℕ → Session (Response String)
  delete_row k = query env (get_row t k) >>= delete_found k
