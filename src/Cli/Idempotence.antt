-- ===== src/Cli/Idempotence.antt =====
-- A second run of `create-admin` of app/cli.py.
use system_uni.Prelude.{
  ℕ, suc, ◌≡◌, refl, ◌∙◌, ap, Option, none, some, true, List, [], ◌∷◌, str_eq_iff, select_where-++,
  arith,
}
use system_uni.Models.{Db, User, Postgres, Verdict, committed, violated, invalid_data}
use system_uni.Session.{World, ok, Moment, IsCalm}
use system_uni.Crud.Accounts.{Passwords, with_user}
use system_uni.Cli.{
  Terminal, Credentials, Read, value, keyboard_interrupt, resolve, clashes, matching, new_admin,
  create_admin,
}
use system_uni.Cli.Outcomes.{inserting, ensuring, creating, valued, create_admin-creating}

-- One row has the address or the name.
abbrev IsThere : Credentials → Db → Type 0
IsThere c d = (u : User) × (matching c d ≡ u ∷ [])

module _ (env : ℕ → Moment) (pg : Postgres) (passwords : Passwords) where
  new_admin-IsThere :
      (c : Credentials) (m : Moment) (d : Db)
      → matching c d ≡ []
      → IsThere c (with_user (new_admin passwords c m) d)
  new_admin-IsThere c m d h =
      let itself : clashes c (new_admin passwords c m) ≡ true =
        ground (arith, str_eq_iff c.email c.email) in
      (
        new_admin passwords c m,
        select_where-++ (clashes c) d.users (new_admin passwords c m ∷ []) ∙ rw (h, itself) refl,
      )

  inserting-IsThere :
      (r : Verdict) (c : Credentials) (w : World)
      → matching c w.db ≡ []
      → (valued (inserting env pg passwords r c w)).0 ≡ ok (value 0)
      → IsThere c (valued (inserting env pg passwords r c w)).1.db
  inserting-IsThere committed c w h e = new_admin-IsThere c (env (suc w.tick)) w.db h
  inserting-IsThere violated c w h e = cc
  inserting-IsThere invalid_data c w h e = cc

  ensuring-IsThere :
      (us : List User) (c : Credentials) (w : World)
      → matching c w.db ≡ us
      → (valued (ensuring env pg passwords us c w)).0 ≡ ok (value 0)
      → IsThere c (valued (ensuring env pg passwords us c w)).1.db
  ensuring-IsThere [] c w h e = inserting-IsThere _ c w h e
  ensuring-IsThere (u ∷ []) c w h e = (u, h)
  ensuring-IsThere (u ∷ v ∷ us) c w h e = cc

  creating-again :
      (r : Read (Option Credentials)) (w : World)
      → (creating env pg passwords r w).0 ≡ ok (value 0)
      → let w' = (creating env pg passwords r w).1 in
        creating env pg passwords r w' ≡ (ok (value 0), record { db = w'.db; tick = suc w'.tick })
  creating-again keyboard_interrupt w h = cc
  creating-again (value none) w h = cc
  creating-again (value (some c)) w h =
      let (u, there) = ensuring-IsThere (matching c w.db) c w refl h in
      let w' = (creating env pg passwords (value (some c)) w).1 in
      ap (λ us. valued (ensuring env pg passwords us c w')) there

  -- Where no other session and no fault interferes: after a run that ended with exit code 0, a second
  -- run with the same arguments ends with 0 too and leaves the database as it is.
  pub create_admin-again :
      (t : Terminal) (w : World)
      → IsCalm env
      → (create_admin env pg passwords t w).0 ≡ ok (value 0)
      → let w' = (create_admin env pg passwords t w).1 in
        create_admin env pg passwords t w'
        ≡ (ok (value 0), record { db = w'.db; tick = suc w'.tick })
  create_admin-again t w calm h =
      let first = create_admin-creating env pg passwords t w calm in
      create_admin-creating env pg passwords t (create_admin env pg passwords t w).1 calm
      ∙ rw first (creating-again (resolve t) w (rw first at h))
