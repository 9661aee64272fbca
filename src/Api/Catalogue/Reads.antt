-- ===== src/Api/Catalogue/Reads.antt =====
-- The guards of the catalogue routers, and their GET endpoints.
use system_uni.Prelude.{ℕ, ◌≡◌, refl, true, false}
use system_uni.Models.{Db, Postgres}
use system_uni.Session.{
  Moment, Preorder, Respects, Guarantees, pure-Guarantees, query-Guarantees, >>=-Guarantees, ◌>>=◌,
}
use system_uni.Crud.Response.{success}
use system_uni.Crud.Catalogue.{Table, read_row, read_rows}
use system_uni.Api.Guards.{admin_only, limit_ok, validated-Guarantees}
use system_uni.Api.Catalogue.{
  CatalogueRoute, create, read, list, update, delete, reads_catalogue, catalogue_guard, listed,
  Resource, serve_catalogue,
}

module _ (R : Db → Db → Type 0) (order : Preorder R) (env : ℕ → Moment)
    (rely : Respects R env) where
  read_rows-Guarantees :
      {Row Create Update : Type 0} (t : Table Row Create Update) (pg : Postgres) (skip limit : ℕ)
      → Guarantees R (read_rows t env pg skip limit >>= listed)
  unfolding read_rows listed
  read_rows-Guarantees t pg skip limit =
      >>=-Guarantees R order _ _ (query-Guarantees R order env _ rely)
        (λ rows. pure-Guarantees R order (success rows))

  pub serve_catalogue-Guarantees :
      {Row Create Update : Type 0} (pg : Postgres) (s : Resource Row Create Update)
      (r : CatalogueRoute Create Update)
      → reads_catalogue r ≡ true
      → Guarantees R (serve_catalogue env pg s r)
  unfolding serve_catalogue read_row
  serve_catalogue-Guarantees pg s (create c) h = cc
  serve_catalogue-Guarantees pg s (read k) h = query-Guarantees R order env _ rely
  serve_catalogue-Guarantees pg s (list skip limit) h =
      validated-Guarantees R order (limit_ok limit) (read_rows s.table env pg skip limit >>= listed)
        (read_rows-Guarantees s.table pg skip limit)
  serve_catalogue-Guarantees pg s (update u k) h = cc
  serve_catalogue-Guarantees pg s (delete k) h = cc

pub catalogue-admin_only :
    {Create Update : Type 0} (r : CatalogueRoute Create Update)
    → reads_catalogue r ≡ false
    → catalogue_guard r ≡ admin_only
catalogue-admin_only (create c) h = refl
catalogue-admin_only (read k) h = cc
catalogue-admin_only (list skip limit) h = cc
catalogue-admin_only (update u k) h = refl
catalogue-admin_only (delete k) h = refl
