-- ===== src/Api/Catalogue.antt =====
-- app/routers/college.py, course.py, teacher.py, department.py, courseoffering.py and
-- courseschedule.py: five endpoints on each table.
pub mod Reads
use system_uni.Prelude.{ℕ, String, Bool, true, false, ◌&&◌, List, leb, if◌then◌else◌}
use system_uni.Models.{Postgres}
use system_uni.Session.{Session, Moment, pure, ◌>>=◌}
use system_uni.Crud.Response.{Response, success, http_error}
use system_uni.Api.Guards.{Guard, admin_only, any_role, validated, limit_ok}
use system_uni.Crud.Catalogue.{Table, create_row, read_row, read_rows, update_row, delete_row}

pub data CatalogueRoute (Create Update : Type 0) : Type 0 where
  create : Create → CatalogueRoute Create Update
  read : ℕ → CatalogueRoute Create Update
  list : ℕ → ℕ → CatalogueRoute Create Update
  update : Update → ℕ → CatalogueRoute Create Update
  delete : ℕ → CatalogueRoute Create Update

-- What an endpoint answers with.
abbrev pub CatalogueResult :
    {Create Update : Type 0} → Type 0 → CatalogueRoute Create Update → Type 0
CatalogueResult Row (create c) = Row
CatalogueResult Row (read k) = Row
CatalogueResult Row (list skip limit) = List Row
CatalogueResult Row (update u k) = Row
CatalogueResult Row (delete k) = String

-- A GET request.
abbrev pub reads_catalogue : {Create Update : Type 0} → CatalogueRoute Create Update → Bool
reads_catalogue (create c) = false
reads_catalogue (read k) = true
reads_catalogue (list skip limit) = true
reads_catalogue (update u k) = false
reads_catalogue (delete k) = false

-- Everyone with an account reads, and admins write.
abbrev pub catalogue_guard : {Create Update : Type 0} → CatalogueRoute Create Update → Guard
catalogue_guard (create c) = admin_only
catalogue_guard (read k) = any_role
catalogue_guard (list skip limit) = any_role
catalogue_guard (update u k) = admin_only
catalogue_guard (delete k) = admin_only

unfoldable pub listed : {Row : Type 0} → List Row → Session (Response (List Row))
listed rows = pure (success rows)

-- What a router calls: a table with the validation of its requests, and its own create and update.
pub record Resource (Row Create Update : Type 0) : Type 0 where
  pub table : Table Row Create Update
  pub create_ok : Create → Bool
  pub update_ok : Update → Bool
  pub creates : Create → Session (Response Row)
  pub updates : Update → ℕ → Session (Response Row)

unfoldable pub serve_catalogue :
    {Row Create Update : Type 0}
    → (ℕ → Moment)
    → Postgres
    → Resource Row Create Update
    → (r : CatalogueRoute Create Update) → Session (Response (CatalogueResult Row r))
serve_catalogue env pg s (create c) = validated (s.create_ok c) (s.creates c)
serve_catalogue env pg s (read k) = read_row s.table env pg k
serve_catalogue env pg s (list skip limit) =
    validated (limit_ok limit) (read_rows s.table env pg skip limit >>= listed)
serve_catalogue env pg s (update u k) = validated (s.update_ok u) (s.updates u k)
serve_catalogue env pg s (delete k) = delete_row s.table env pg k
