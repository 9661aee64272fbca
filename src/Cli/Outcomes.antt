-- ===== src/Cli/Outcomes.antt =====
-- What a run of `create-admin` of app/cli.py does that no other session and no fault interferes with.
use system_uni.Prelude.{
  ℕ, suc, ◌≡◌, refl, ◌∙◌, ap, Option, none, some, Bool, true, false, ◌==◌, List, [], ◌∷◌, ◌++◌,
  find?, arith,
}
use system_uni.Models.{Db, User, Postgres, Verdict, committed, violated, invalid_data}
use system_uni.Session.{
  World, Outcome, ok, Moment, Exn, pure, raise, raised, try_except, query, ◌>>=◌, IsCalm,
  statement-IsCalm, sqlalchemy_error,
}
use system_uni.Security.{get_user}
use system_uni.Crud.Accounts.{Passwords, with_user}
use system_uni.Crud.Response.{Commit, written, commit, judge}
use system_uni.Cli.{
  Terminal, Credentials, Read, value, keyboard_interrupt, resolve, matching, scalar_one_or_none,
  new_admin, shown, after_commit, insert_admin, unless_existing, rollback, exit_1, ensure_admin,
  ensure_resolved, create_admin,
}

find?-last_some :
    (p : User → Bool) (xs : List User) (x : User)
    → p x ≡ true
    → (y : User) × (find? p (xs ++ x ∷ []) ≡ some y)
find?-last_some p [] x h = (x, rw h refl)
find?-last_some p (z ∷ xs) x h = go (p z) refl (find?-last_some p xs x h)
  where
    go :
        (b : Bool)
        → p z ≡ b
        → (y : User) × (find? p (xs ++ x ∷ []) ≡ some y)
        → (y : User) × (find? p (z ∷ xs ++ x ∷ []) ≡ some y)
    go true e r = (z, rw e refl)
    go false e (y, r) = (y, rw e r)

abbrev pub valued : Outcome ℕ × World → Outcome (Read ℕ) × World
valued (ok n, w) = (ok (value n), w)
valued (raised e, w) = (raised e, w)

module _ (env : ℕ → Moment) (pg : Postgres) (passwords : Passwords) where
  -- The end of an insert, given the database's verdict.
  abbrev pub inserting : Verdict → Credentials → World → Outcome ℕ × World
  inserting committed c w = (
    ok 0,
    record {
      db = with_user (new_admin passwords c (env (suc w.tick))) w.db;
      tick = suc (suc (suc w.tick));
    },
  )
  inserting violated c w = (ok 1, record { db = w.db; tick = suc (suc (suc w.tick)) })
  inserting invalid_data c w = (ok 1, record { db = w.db; tick = suc (suc (suc w.tick)) })

  -- The end of the `try` statement, given the accounts that have the address or the name.
  abbrev pub ensuring : List User → Credentials → World → Outcome ℕ × World
  ensuring [] c w =
      inserting (pg.verdict (with_user (new_admin passwords c (env (suc w.tick))) w.db)) c w
  ensuring (u ∷ []) c w = (ok 0, record { db = w.db; tick = suc w.tick })
  ensuring (u ∷ v ∷ us) c w = (ok 1, record { db = w.db; tick = suc (suc w.tick) })

  -- The end of a run, given what was read.
  abbrev pub creating : Read (Option Credentials) → World → Outcome (Read ℕ) × World
  creating keyboard_interrupt w = (ok keyboard_interrupt, w)
  creating (value none) w = (ok (value 1), w)
  creating (value (some c)) w = valued (ensuring (matching c w.db) c w)

  module _ (calm : IsCalm env) where
    exit_1-ends :
        (e : Exn) (w : World) → exit_1 env e w ≡ (ok 1, record { db = w.db; tick = suc w.tick })
    unfolding exit_1 rollback query ◌>>=◌ pure
    exit_1-ends e w =
        ap ((λ r. ((λ (v : World). r) >>= λ (done : Unit {0}). pure 1) w))
          (statement-IsCalm env (λ m d. (tt, d)) w calm)

    module _ (c : Credentials) where
      -- What follows the select, the commit and the refresh, given how it ended.
      unfoldable selected : World → Outcome (List User) × World → Outcome ℕ × World
      selected w r =
          try_except
            ((λ (v : World). r) >>= scalar_one_or_none >>= unless_existing env pg passwords c)
            (exit_1 env) w

      unfoldable ended : World → Outcome (Commit User) × World → Outcome ℕ × World
      ended w r = try_except ((λ (v : World). r) >>= after_commit env) (exit_1 env) w

      unfoldable seen : World → Outcome (Option User) × World → Outcome ℕ × World
      seen w r = try_except ((λ (v : World). r) >>= shown) (exit_1 env) w

      ensure_admin-selected :
          (w : World)
          → ensure_admin env pg passwords c w
            ≡ selected w (ok (matching c w.db), record { db = w.db; tick = suc w.tick })
      unfolding ensure_admin selected try_except ◌>>=◌ query
      ensure_admin-selected w =
          ap (selected w) (statement-IsCalm env (λ m d. (matching c d, d)) w calm)

      ended-seen :
          (w v : World) (u : User)
          → ended w (ok (written u), v)
            ≡ seen w (ok (get_user u.id v.db), record { db = v.db; tick = suc v.tick })
      unfolding ended seen after_commit try_except ◌>>=◌ query
      ended-seen w v u = ap (seen w) (statement-IsCalm env (λ m d. (get_user u.id d, d)) v calm)

      ended_written :
          (w v : World) (m : Moment) (d : Db)
          → v.db ≡ with_user (new_admin passwords c m) d
          → ended w (ok (written (new_admin passwords c m)), v)
            ≡ (ok 0, record { db = v.db; tick = suc v.tick })
      unfolding seen try_except ◌>>=◌ shown pure
      ended_written w v m d h =
          let x = new_admin passwords c m in
          let (y, found) = find?-last_some (λ (u : User). u.id == x.id) d.users x (ground arith) in
          let there : get_user x.id v.db ≡ some y = rw h found in
          ended-seen w v x ∙ ap (λ r. seen w (ok r, record { db = v.db; tick = suc v.tick })) there

      ended_judged :
          (w : World) (r : Verdict)
          → let x = new_admin passwords c (env (suc w.tick)) in
            let (a, d) = judge r x (with_user x w.db) w.db in
            ended w (ok a, record { db = d; tick = suc (suc w.tick) }) ≡ inserting r c w
      unfolding ended after_commit try_except ◌>>=◌ raise
      ended_judged w committed =
          let m = env (suc w.tick) in
          ended_written w
            (record { db = with_user (new_admin passwords c m) w.db; tick = suc (suc w.tick) }) m
            w.db refl
      ended_judged w violated =
          exit_1-ends (sqlalchemy_error []) (record { db = w.db; tick = suc (suc w.tick) })
      ended_judged w invalid_data =
          exit_1-ends (sqlalchemy_error []) (record { db = w.db; tick = suc (suc w.tick) })

      inserted :
          (w v : World)
          → let x = new_admin passwords c (env v.tick) in
            let (a, d) = judge (pg.verdict (with_user x v.db)) x (with_user x v.db) v.db in
            selected w (ok [], v) ≡ ended w (ok a, record { db = d; tick = suc v.tick })
      unfolding selected ended try_except ◌>>=◌ scalar_one_or_none unless_existing insert_admin
          commit pure
      inserted w v = ap (ended w) (statement-IsCalm env _ v calm)

      selected-ensuring :
          (w : World) (us : List User)
          → selected w (ok us, record { db = w.db; tick = suc w.tick }) ≡ ensuring us c w
      unfolding selected try_except ◌>>=◌ scalar_one_or_none unless_existing raise pure
      selected-ensuring w [] =
          let x = new_admin passwords c (env (suc w.tick)) in
          inserted w (record { db = w.db; tick = suc w.tick })
          ∙ ended_judged w (pg.verdict (with_user x w.db))
      selected-ensuring w (u ∷ []) = refl
      selected-ensuring w (u ∷ v ∷ us) =
          exit_1-ends (sqlalchemy_error []) (record { db = w.db; tick = suc w.tick })

      pub ensure_admin-ensuring :
          (w : World) → ensure_admin env pg passwords c w ≡ ensuring (matching c w.db) c w
      ensure_admin-ensuring w = ensure_admin-selected w ∙ selected-ensuring w (matching c w.db)

  -- Where no other session and no fault interferes, a run ends as follows. An interrupted prompt and a
  -- missing value leave the database as it is, the latter with exit code 1. If exactly one account has
  -- the address or the name, the database stays as it is, with exit code 0; if several have, with exit
  -- code 1. If none has, the new admin is there after the run, with exit code 0, if the database accepts
  -- the state with it, and else the database is as before, with exit code 1.
  pub create_admin-creating :
      (t : Terminal) (w : World)
      → IsCalm env
      → create_admin env pg passwords t w ≡ creating (resolve t) w
  unfolding create_admin
  create_admin-creating t w calm = go (resolve t)
    where
      wrapped : Outcome ℕ × World → Outcome (Read ℕ) × World
      wrapped r = ((λ (v : World). r) >>= λ code. pure (value code)) w

      wrapped-valued : (r : Outcome ℕ × World) → wrapped r ≡ valued r
      wrapped-valued (ok n, v) = unfold ◌>>=◌ pure in refl
      wrapped-valued (raised e, v) = unfold ◌>>=◌ pure in refl

      ensured :
          (c : Credentials)
          → ensure_resolved env pg passwords (value (some c)) w
            ≡ wrapped (ensure_admin env pg passwords c w)
      ensured c = unfold ◌>>=◌ in refl

      go : (r : Read (Option Credentials)) → ensure_resolved env pg passwords r w ≡ creating r w
      go keyboard_interrupt = unfold pure in refl
      go (value none) = unfold pure in refl
      go (value (some c)) =
          ensured c
          ∙ ap wrapped (ensure_admin-ensuring calm c w)
          ∙ wrapped-valued (ensuring (matching c w.db) c w)
