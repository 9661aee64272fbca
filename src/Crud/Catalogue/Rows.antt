-- ===== src/Crud/Catalogue/Rows.antt =====
-- Updates and removals of one row of a table.
use system_uni.Prelude.{
  ℕ, ◌≡◌, refl, Option, none, some, Bool, true, false, not, List, [], ◌∷◌, ◌==◌, find?,
  select_where, update_where, any, if◌then◌else◌, arith,
}
use system_uni.Models.{Db, Postgres, Verdict, committed, violated, invalid_data}
use system_uni.Crud.Response.{http_error, written, flush, judge}
use system_uni.Crud.Catalogue.{Table, has_key, get_row, without_row, flush_row, row_or_404}

module _ {Row Create Update : Type 0} (t : Table Row Create Update) where
  find?-select_where :
      (k : ℕ) (xs : List Row)
      → find? (has_key t k) (select_where (λ (r : Row). not (has_key t k r)) xs) ≡ none
  find?-select_where k [] = refl
  find?-select_where k (x ∷ xs) = ground (arith, find?-select_where k xs)

  find?-update_where :
      (j k : ℕ) (u : Update) (xs : List Row)
      → (j == k) ≡ false
      → find? (has_key t j) (update_where (has_key t k) (t.write u) xs) ≡ find? (has_key t j) xs
  find?-update_where j k u [] h = refl
  find?-update_where j k u (x ∷ xs) h = go (t.key x == k) refl (find?-update_where j k u xs h)
    where
      rest : Option Row
      rest = find? (has_key t j) (update_where (has_key t k) (t.write u) xs)

      go :
          (b : Bool)
          → (t.key x == k) ≡ b
          → rest ≡ find? (has_key t j) xs
          → (let y : Row = if b then t.write u x else x in if t.key y == j then some y else rest)
            ≡ find? (has_key t j) (x ∷ xs)
      go true e ih =
          let other : (t.key x == j) ≡ false = ground arith in rw (t.key-write u x, other) ih
      go false e ih = rw ih refl

  -- Once the removal of a row has committed, a read of its key answers 404.
  without_row-404 :
      (pg : Postgres) (k : ℕ) (d : Db)
      → let (r, d') = flush pg (some (tt {0}, without_row t k d)) d in
        (r ≡ written tt) → row_or_404 t (get_row t k d') ≡ http_error 404 t.not_found
  unfolding row_or_404
  without_row-404 pg k d = go (pg.verdict (without_row t k d))
    where
      go :
          (v : Verdict)
          → let (r, d') = judge v (tt {0}) (without_row t k d) d in
            (r ≡ written tt) → row_or_404 t (get_row t k d') ≡ http_error 404 t.not_found
      go committed same =
          rw
            (
              t.rows-with_rows (select_where (λ (r : Row). not (has_key t k r)) (t.rows d))
                  (t.detach k d),
              find?-select_where k (t.rows d),
            )
            refl
      go violated same = cc
      go invalid_data same = cc

  -- However the update of a row ends, every other row is as it was.
  flush_row-others :
      (pg : Postgres) (j k : ℕ) (u : Update) (d : Db)
      → (j == k) ≡ false
      → get_row t j (flush pg (flush_row t k u d) d).1 ≡ get_row t j d
  unfolding flush_row
  flush_row-others pg j k u d h = go (t.is_empty u) (any (has_key t k) (t.rows d))
    where
      new : Db
      new = t.with_rows (update_where (has_key t k) (t.write u) (t.rows d)) d

      judged :
          (v : Verdict) (d' : Db)
          → get_row t j d' ≡ get_row t j d
          → get_row t j (judge {A = Unit {0}} v tt d' d).1 ≡ get_row t j d
      judged committed d' e = e
      judged violated d' e = refl
      judged invalid_data d' e = refl

      go :
          (b1 b2 : Bool)
          → let change : Option (Unit {0} × Db) =
              if b1 then some (tt, d) else if b2 then some (tt, new) else none in
            get_row t j (flush pg change d).1 ≡ get_row t j d
      go true b = judged (pg.verdict d) d refl
      go false true = judged (pg.verdict new) new (
          rw
            (
              t.rows-with_rows (update_where (has_key t k) (t.write u) (t.rows d)) d,
              find?-update_where j k u (t.rows d) h,
            )
            refl)
      go false false = refl
