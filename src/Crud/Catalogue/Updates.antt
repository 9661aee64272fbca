-- ===== src/Crud/Catalogue/Updates.antt =====
-- The update of one row of a catalogue table, against assignments to the loaded row.
use system_uni.Prelude.{
  ℕ, suc, ◌≡◌, refl, sym, ◌∙◌, ap, Option, none, some, Bool, true, false, List, [], ◌∷◌, ◌==◌,
  find?, any, update_where, is_unique, Bool-cases, inl, inr, some_injective, arith,
}
use system_uni.Models.{Db, Postgres, Verdict, committed, violated, invalid_data, constraints}
use system_uni.Session.{World, Outcome, ok, Moment, query, pure, ◌>>=◌, IsCalm, statement-IsCalm}
use system_uni.Crud.Response.{
  Response, success, http_error, Commit, flush, judge, commit, refreshed, answer,
}
use system_uni.Crud.Catalogue.{Table, has_key, get_row, flush_row, update_found, update_row}

-- What the constraints and the columns of a table offer, with the assignments that an update request
-- stands for.
pub record Keyed {Row Create Update : Type 0} (t : Table Row Create Update)
    (assigned : Update → Row → Row) : Type 0 where
  pub unique_keys :
      (d : Db)
      → constraints d ≡ true
      → is_unique (λ (a b : Row). t.key a == t.key b) (t.rows d) ≡ true
  pub write-is_empty : (u : Update) (r : Row) → t.is_empty u ≡ true → t.write u r ≡ r
  pub write-net_update : (u : Update) (r : Row) → t.write (t.net_update u r) r ≡ assigned u r
  pub same_rows : (d : Db) → t.with_rows (t.rows d) d ≡ d

module _ {A : Type 0} where
  update_where_absent :
      (p : A → Bool) (f : A → A) (xs : List A) → any p xs ≡ false → update_where p f xs ≡ xs
  update_where_absent p f [] h = refl
  update_where_absent p f (x ∷ xs) h = elim (Bool-cases (p x)) [
    | inl e ↦ cc
    | inr e ↦ rw e (ap (λ ys. x ∷ ys) (update_where_absent p f xs (rw e at h)))
  ]

  update_where_kept : (p : A → Bool) (xs : List A) → update_where p (λ x. x) xs ≡ xs
  update_where_kept p [] = refl
  update_where_kept p (x ∷ xs) = elim (Bool-cases (p x)) [
    | inl e ↦ rw e (ap (λ ys. x ∷ ys) (update_where_kept p xs))
    | inr e ↦ rw e (ap (λ ys. x ∷ ys) (update_where_kept p xs))
  ]

  find?-any : (p : A → Bool) (xs : List A) (r : A) → find? p xs ≡ some r → any p xs ≡ true
  find?-any p [] r h = cc
  find?-any p (x ∷ xs) r h = elim (Bool-cases (p x)) [
    | inl e ↦ rw e refl
    | inr e ↦ rw e (find?-any p xs r (rw e at h))
  ]

  find?-update_where_same :
      (p : A → Bool) (f : A → A) (xs : List A) (r : A)
      → ((x : A) → p (f x) ≡ p x)
      → find? p xs ≡ some r
      → find? p (update_where p f xs) ≡ some (f r)
  find?-update_where_same p f [] r kept h = cc
  find?-update_where_same p f (x ∷ xs) r kept h = elim (Bool-cases (p x)) [
    | inl e ↦ rw (e, kept x, e) (ap some (ap f (some_injective (rw e at h))))
    | inr e ↦ rw (e, e) (find?-update_where_same p f xs r kept (rw e at h))
  ]

module _ {Row Create Update : Type 0} (t : Table Row Create Update) where
  any-has_key :
      (j k : ℕ) (xs : List Row)
      → j ≡ k
      → any (λ (b : Row). j == t.key b) xs ≡ false
      → any (has_key t k) xs ≡ false
  any-has_key j k [] e h = refl
  any-has_key j k (x ∷ xs) e h = ground (arith, any-has_key j k xs e)

  -- Two functions that agree on the row with a key rewrite a table with unique keys alike.
  update_where-one :
      (k : ℕ) (f g : Row → Row) (xs : List Row) (r : Row)
      → is_unique (λ (a b : Row). t.key a == t.key b) xs ≡ true
      → find? (has_key t k) xs ≡ some r
      → f r ≡ g r
      → update_where (has_key t k) f xs ≡ update_where (has_key t k) g xs
  update_where-one k f g [] r u h e = refl
  update_where-one k f g (x ∷ xs) r u h e = elim (Bool-cases (t.key x == k)) [
    | inl q ↦
        let same : x ≡ r = some_injective (rw q at h) in
        let key : t.key x ≡ k = ground arith in
        let absent : any (has_key t k) xs ≡ false = any-has_key (t.key x) k xs key (ground arith) in
        rw
          (
            q,
            update_where_absent (has_key t k) f xs absent,
            update_where_absent (has_key t k) g xs absent,
          )
          (ap (λ y. y ∷ xs) (ap f same ∙ e ∙ ap g (sym same)))
    | inr q ↦ rw q (ap (λ ys. x ∷ ys) (update_where-one k f g xs r (ground arith) (rw q at h) e))
  ]

module _ {Row Create Update : Type 0} (t : Table Row Create Update)
    (assigned : Update → Row → Row) where
  -- The database with the row rewritten by the assignments.
  abbrev pub rewritten : Update → ℕ → Db → Db
  rewritten u k d = t.with_rows (update_where (has_key t k) (assigned u) (t.rows d)) d

  -- How an update of a row that is there ends, given the database's verdict on the rewritten state.
  abbrev pub settling : Verdict → Update → ℕ → Row → World → Outcome (Response Row) × World
  settling committed u k r w = (
    ok (success (assigned u r)),
    record { db = rewritten u k w.db; tick = suc (suc (suc w.tick)) },
  )
  settling violated u k r w =
      (ok (http_error 409 t.update_conflict), record { db = w.db; tick = suc (suc w.tick) })
  settling invalid_data u k r w =
      (ok (http_error 422 t.invalid), record { db = w.db; tick = suc (suc w.tick) })

  -- How an update ends, given the row that is there.
  abbrev pub updating : Postgres → Option Row → Update → ℕ → World → Outcome (Response Row) × World
  updating pg none u k w =
      (ok (http_error 404 t.not_found), record { db = w.db; tick = suc w.tick })
  updating pg (some r) u k w = settling (pg.verdict (rewritten u k w.db)) u k r w

  module _ (keyed : Keyed t assigned) where
    key-assigned : (u : Update) (r : Row) → t.key (assigned u r) ≡ t.key r
    key-assigned u r =
        ap t.key (sym (keyed.write-net_update u r)) ∙ t.key-write (t.net_update u r) r

    get_row-rewritten :
        (u : Update) (k : ℕ) (d : Db) (r : Row)
        → get_row t k d ≡ some r
        → get_row t k (rewritten u k d) ≡ some (assigned u r)
    get_row-rewritten u k d r h =
        ap (find? (has_key t k))
          (t.rows-with_rows (update_where (has_key t k) (assigned u) (t.rows d)) d)
        ∙ find?-update_where_same (has_key t k) (assigned u) (t.rows d) r
            (λ x. ap (λ n. n == k) (key-assigned u x)) h

    -- The flush of the columns that change is the rewriting.
    flush_row-rewritten :
        (u : Update) (k : ℕ) (d : Db) (r : Row)
        → constraints d ≡ true
        → get_row t k d ≡ some r
        → flush_row t k (t.net_update u r) d ≡ some (tt, rewritten u k d)
    unfolding flush_row
    flush_row-rewritten u k d r valid h = elim (Bool-cases (t.is_empty (t.net_update u r))) [
      | inl e ↦
          let same : assigned u r ≡ r =
            sym (keyed.write-net_update u r) ∙ keyed.write-is_empty (t.net_update u r) r e in
          let rows =
            update_where-one t k (assigned u) (λ x. x) (t.rows d) r (keyed.unique_keys d valid) h
              same
            ∙ update_where_kept (has_key t k) (t.rows d) in
          rw e (ap (λ x. some (tt, x)) (sym (ap (λ xs. t.with_rows xs d) rows ∙ keyed.same_rows d)))
      | inr e ↦
          rw (e, find?-any (has_key t k) (t.rows d) r h)
            (ap (λ xs. some (tt, t.with_rows xs d))
              (update_where-one t k (t.write (t.net_update u r)) (assigned u) (t.rows d) r
                (keyed.unique_keys d valid) h (keyed.write-net_update u r)))
    ]

    module _ (env : ℕ → Moment) (pg : Postgres) (calm : IsCalm env) where
      -- What follows the commit, given how it ended.
      unfoldable answered :
          ℕ → World → Outcome (Commit (Unit {0})) × World → Outcome (Response Row) × World
      answered k w r =
          ((λ (v : World). r)
              >>= answer (λ (done : Unit {0}). query env (get_row t k) >>= refreshed)
                  t.update_conflict t.invalid)
            w

      -- What follows the refresh.
      unfoldable shown : World → Outcome (Option Row) × World → Outcome (Response Row) × World
      shown w r = ((λ (v : World). r) >>= refreshed) w

      answered-settling :
          (v : Verdict) (u : Update) (k : ℕ) (r : Row) (w : World)
          → get_row t k w.db ≡ some r
          → let (a, d) = judge v (tt {0}) (rewritten u k w.db) w.db in
            answered k w (ok a, record { db = d; tick = suc (suc w.tick) }) ≡ settling v u k r w
      unfolding answered shown answer refreshed ◌>>=◌ pure query
      answered-settling committed u k r w h =
          let d' = rewritten u k w.db in
          let v : World = record { db = d'; tick = suc (suc w.tick) } in
          ap (shown v) (statement-IsCalm env (λ m d. (get_row t k d, d)) v calm)
          ∙ ap (λ x. shown v (ok x, record { db = d'; tick = suc (suc (suc w.tick)) }))
              (get_row-rewritten u k w.db r h)
      answered-settling violated u k r w h = refl
      answered-settling invalid_data u k r w h = refl

      pub update_found-updating :
          (u : Update) (k : ℕ) (w : World) (r : Option Row)
          → constraints w.db ≡ true
          → get_row t k w.db ≡ r
          → update_found t env pg u k r (record { db = w.db; tick = suc w.tick })
            ≡ updating pg r u k w
      unfolding update_found pure commit ◌>>=◌ answered
      update_found-updating u k w none valid h = refl
      update_found-updating u k w (some r) valid h =
          let v : World = record { db = w.db; tick = suc w.tick } in
          ap (answered k w)
            (statement-IsCalm env (λ m d. flush pg (flush_row t k (t.net_update u r) d) d) v calm)
          ∙ ap
              (λ (x : Option (Unit {0} × Db)).
                let (a, d) = flush pg x w.db in
                answered k w (ok a, record { db = d; tick = suc (suc w.tick) }))
              (flush_row-rewritten u k w.db r valid h)
          ∙ answered-settling (pg.verdict (rewritten u k w.db)) u k r w h

      pub update_row-updating :
          (u : Update) (k : ℕ) (w : World)
          → constraints w.db ≡ true
          → update_row t env pg u k w ≡ updating pg (get_row t k w.db) u k w
      unfolding update_row query ◌>>=◌
      update_row-updating u k w valid =
          ap (λ x. ((λ (v : World). x) >>= update_found t env pg u k) w)
            (statement-IsCalm env (λ m d. (get_row t k d, d)) w calm)
          ∙ update_found-updating u k w (get_row t k w.db) valid refl
