-- ===== src/Crud/Accounts/Admins.antt =====
-- `ensure_admin_remains` of app/crud/user.py, and the admins before and after.
pub mod Rows
pub mod Removal
pub mod Update
use system_uni.Prelude.{
  ℕ, suc, ◌+◌, ◌≤◌, ◌≡◌, refl, ap, sym, inl, inr, ◌⊎◌, String, Option, none, some, Bool, true,
  false, not, ◌||◌, List, ◌==◌, leb, if◌then◌else◌, find?, find?_passes, select_where, update_where,
  any, is_none, length, arith, is_unique,
}
use system_uni.Models.{
  Db, User, UserRole, admin, Postgres, Verdict, committed, violated, invalid_data, users_ok,
  constraints-users,
}
use system_uni.Session.{
  Session, Moment, World, Outcome, ok, raised, Exn, Respects, query, pure, statement, run-statement,
  run->>=,
}
use system_uni.Security.{get_user, same_role}
use system_uni.Crud.Response.{
  Response, success, http_error, Commit, written, integrity_failed, data_failed, stale, commit,
  refreshed, answer, answer_delete, Change, judge, flush,
}
use system_uni.Crud.Accounts.{
  Passwords, UserUpdate, UserColumns, is_admin, admins, stays_admin, admit_removal,
  ensure_admin_remains, assigned, write_user, flush_user, no_column, update_loaded, update_admitted,
  found_for_update, update_user, without_user, delete_admitted, found_for_delete, delete_user,
}
use Rows.{
  users_clash, admin_with_key, other_admin, other_admin-none, other_admin-stays, any-update_where,
  update_where-keeps_admin, find-key_admin,
}

abbrev pub has_admin : Db → Bool
has_admin d = any is_admin d.users

-- The accounts meet their constraints, and one of them is an admin's.
pub record IsStaffed (d : Db) : Type 0 where
  pub accounts_ok : users_ok d ≡ true
  pub staffed : has_admin d ≡ true

-- What an operation on the user `k` that starts at the statement `start` needs of the others: every
-- transaction leaves an admin; the user is not made one between the statement that loads it and the
-- next; and while the admins are locked, after the next, two of them do not become fewer than two.
pub record Others (k start : ℕ) (env : ℕ → Moment) : Type 0 where
  pub staff : (n : ℕ) (d : Db) → IsStaffed d → IsStaffed ((env n).others d)
  pub not_promoted :
      (n : ℕ) (d : Db)
      → n ≡ suc start
      → admin_with_key k d.users ≡ false
      → admin_with_key k ((env n).others d).users ≡ false
  pub locked :
      (n : ℕ) (d : Db)
      → n ≡ suc (suc start)
      → 2 ≤ length (admins d)
      → 2 ≤ length (admins ((env n).others d))

two_admins-other :
    (k : ℕ) (d : Db) → users_ok d ≡ true → 2 ≤ length (admins d) → other_admin k d.users ≡ true
unfolding users_ok
two_admins-other k d u h = go (other_admin k d.users) refl
  where
    go : (b : Bool) → other_admin k d.users ≡ b → b ≡ true
    go true e = refl
    go false e = ground (arith, other_admin-none k d.users u e)

found-not_admin :
    (k : ℕ) (d : Db) (u : User)
    → users_ok d ≡ true
    → get_user k d ≡ some u
    → is_admin u ≡ false
    → admin_with_key k d.users ≡ false
unfolding users_ok
found-not_admin k d u q h n = find-key_admin k d.users u q h n

judged :
    {A : Type 0} (pg : Postgres) (v : Verdict) (a : A) (d d' : Db)
    → pg.verdict d' ≡ v
    → IsStaffed d
    → has_admin d' ≡ true
    → IsStaffed (judge v a d' d).1
judged pg committed a d d' h s k = record {
  accounts_ok = constraints-users d' (pg.accepts d' h);
  staffed = k;
}
judged pg violated a d d' h s k = s
judged pg invalid_data a d d' h s k = s

flushed :
    {A : Type 0} (pg : Postgres) (r : Option (A × Db)) (d : Db)
    → IsStaffed d
    → ((a : A) (d' : Db) → r ≡ some (a, d') → has_admin d' ≡ true)
    → IsStaffed (flush pg r d).1
flushed pg none d s h = s
flushed pg (some (a, d')) d s h = judged pg (pg.verdict d') a d d' refl s (h a d' refl)

-- The state at the end of a run.
abbrev pub Ends : {A : Type 0} → Outcome A × World → Type 0
Ends r = IsStaffed r.1.db

module _ (env : ℕ → Moment) (pg : Postgres) (k start : ℕ) (others : Others k start env) where
  pub commit-Ends :
      {A : Type 0} (change : Change A) (w : World)
      → IsStaffed w.db
      → ((m : Moment) (d : Db) (a : A) (d' : Db)
          → IsStaffed d
          → d ≡ (env w.tick).others w.db
          → change m d ≡ some (a, d')
          → has_admin d' ≡ true)
      → Ends (commit env pg change w)
  unfolding commit
  commit-Ends change w s safe =
      let m = env w.tick in
      let d = m.others w.db in
      let t = others.staff w.tick w.db s in
      run-statement Ends env (λ m' d'. flush pg (change m' d') d') w (λ e. t)
        (flushed pg (change m d) d t (λ a d' h. safe m d a d' t refl h))

  -- After the load: the user that was found, one statement later.
  abbrev pub Loaded : Outcome (Option User) × World → Type 0
  Loaded (raised e, w) = IsStaffed w.db
  Loaded (ok r, w) = IsStaffed w.db × (w.tick ≡ suc start) × (get_user k w.db ≡ r)

  pub query-Loaded :
      (w : World) → w.tick ≡ start → IsStaffed w.db → Loaded (query env (get_user k) w)
  unfolding query
  query-Loaded w n s =
      let t = others.staff w.tick w.db s in
      run-statement Loaded env (λ m d. (get_user k d, d)) w (λ e. t) (t, ap suc n, refl)

  -- After the check: when the next statement runs another user is an admin, or the role stays.
  abbrev pub Allowed : Option UserRole → Outcome (Response (Unit {0})) × World → Type 0
  Allowed next (raised e, w) = IsStaffed w.db
  Allowed next (ok (http_error code detail), w) = IsStaffed w.db
  Allowed next (ok (success done), w) =
      IsStaffed w.db
      × ((other_admin k ((env w.tick).others w.db).users ≡ true) ⊎ (stays_admin next ≡ true))

  admit_removal-Allowed :
      (next : Option UserRole) (w : World)
      → w.tick ≡ suc (suc start)
      → IsStaffed w.db
      → Allowed next (ok (admit_removal (admins w.db)), w)
  unfolding admit_removal
  admit_removal-Allowed next w n s = go (leb (length (admins w.db)) 1) refl
    where
      go :
          (b : Bool)
          → leb (length (admins w.db)) 1 ≡ b
          → Allowed next (
            ok (if b then http_error 400 "Cannot remove the last admin account" else success tt),
            w,
          )
      go true e = s
      go false e =
          let d = (env w.tick).others w.db in
          let two : 2 ≤ length (admins w.db) = ground arith in
          (
            s,
            inl (
                two_admins-other k d (others.staff w.tick w.db s).accounts_ok
                  (others.locked w.tick w.db n two)),
          )

  pub ensure_admin_remains-Allowed :
      (u : User) (next : Option UserRole) (w : World)
      → w.tick ≡ suc start
      → IsStaffed w.db
      → get_user k w.db ≡ some u
      → Allowed next (ensure_admin_remains env u next w)
  unfolding ensure_admin_remains query pure
  ensure_admin_remains-Allowed u next w n s h = go (is_admin u) (stays_admin next) refl refl
    where
      d : Db
      d = (env w.tick).others w.db

      t : IsStaffed d
      t = others.staff w.tick w.db s

      go :
          (a b : Bool)
          → is_admin u ≡ a
          → stays_admin next ≡ b
          → Allowed next (
              (if not a || b
                  then pure (success tt)
                  else statement env (λ m d'. (admit_removal (admins d'), d')))
                w)
      go false b e f = (
        s,
        inl (
            other_admin-stays k d.users t.staffed
              (others.not_promoted w.tick w.db n (found-not_admin k w.db u s.accounts_ok h e))),
      )
      go true true e f = (s, inr f)
      go true false e f =
          run-statement (Allowed next) env (λ m d'. (admit_removal (admins d'), d')) w (λ x. t)
            (admit_removal-Allowed next (record { db = d; tick = suc w.tick }) (ap suc n) t)
