-- ===== src/Crud/Accounts/Admins/Update.antt =====
-- `update_user` of app/crud/user.py, and the admins before and after.
use system_uni.Prelude.{
  ℕ, ◌≡◌, ◌⊎◌, inl, inr, refl, ap, sym, ◌∙◌, String, Option, none, some, some_injective, Bool, true,
  false, ◌==◌, or_else, if◌then◌else◌, any, update_where,
}
use system_uni.Models.{Db, User, UserRole, admin, user, guest, Postgres}
use system_uni.Session.{Moment, World, ok, query, pure, raise, run-statement, run->>=, ◌>>=◌}
use system_uni.Security.{get_user, same_role}
use system_uni.Crud.Columns.{net}
use system_uni.Crud.Response.{
  Response, success, http_error, Commit, written, integrity_failed, data_failed, stale, commit,
  refreshed, answer,
}
use system_uni.Crud.Accounts.{
  Passwords, UserUpdate, UserColumns, is_admin, stays_admin, ensure_admin_remains, assigned,
  write_user, flush_user, no_column, write_update, update_loaded, update_admitted, found_for_update,
  update_user,
}
use system_uni.Crud.Accounts.Admins.{
  has_admin, IsStaffed, Others, Ends, commit-Ends, Loaded, query-Loaded, Allowed,
  ensure_admin_remains-Allowed,
}
use system_uni.Crud.Accounts.Admins.Removal.{found-key}
use system_uni.Crud.Accounts.Admins.Rows.{other_admin, any-update_where, update_where-keeps_admin}

net_role-keeps :
    (next : Option UserRole) (old now : UserRole)
    → stays_admin next ≡ true
    → same_role now admin ≡ true
    → same_role (or_else (net same_role next old) now) admin ≡ true
net_role-keeps none old now h k = cc
net_role-keeps (some admin) admin now h k = k
net_role-keeps (some admin) user now h k = refl
net_role-keeps (some admin) guest now h k = refl
net_role-keeps (some user) old now h k = cc
net_role-keeps (some guest) old now h k = cc

write_user-keeps :
    (lower : String → String) (passwords : Passwords) (c : UserUpdate) (u x : User)
    → stays_admin c.role ≡ true
    → is_admin x ≡ true
    → is_admin (write_user (assigned lower passwords c u) x) ≡ true
unfolding write_user assigned
write_user-keeps lower passwords c u x h k = net_role-keeps c.role u.role x.role h k

-- An update leaves an admin if another user is one, or the role stays.
flush_user-keeps :
    (k : ℕ) (c : UserColumns) (d : Db) (a : Unit {0}) (d' : Db)
    → (other_admin k d.users ≡ true)
      ⊎ ((x : User) → is_admin x ≡ true → is_admin (write_user c x) ≡ true)
    → has_admin d ≡ true
    → flush_user k c d ≡ some (a, d')
    → has_admin d' ≡ true
unfolding flush_user
flush_user-keeps k c d a d' why s = go (no_column c) (any (λ (u : User). u.id == k) d.users)
  where
    new : Db
    new = record d { users = update_where (λ (u : User). u.id == k) (write_user c) d.users }

    kept :
        (other_admin k d.users ≡ true)
          ⊎ ((x : User) → is_admin x ≡ true → is_admin (write_user c x) ≡ true)
        → has_admin new ≡ true
    kept (inl other) = any-update_where k (write_user c) d.users other
    kept (inr keeps) = update_where-keeps_admin k (write_user c) d.users keeps s

    go :
        (b1 b2 : Bool)
        → (let r : Option (Unit {0} × Db) =
              if b1 then some (tt, d) else if b2 then some (tt, new) else none in
            r)
          ≡ some (a, d')
        → has_admin d' ≡ true
    go true b h = ap (λ (p : Unit {0} × Db). has_admin p.1) (sym (some_injective h)) ∙ s
    go false true h = ap (λ (p : Unit {0} × Db). has_admin p.1) (sym (some_injective h)) ∙ kept why
    go false false h = cc

module _ (env : ℕ → Moment) (pg : Postgres) (lower : String → String) (passwords : Passwords)
    (k start : ℕ) (others : Others k start env) where
  refreshed-Ends : (r : Option User) (w : World) → IsStaffed w.db → Ends (refreshed r w)
  unfolding refreshed pure raise
  refreshed-Ends none w s = s
  refreshed-Ends (some u) w s = s

  answer-Ends :
      (u : User) (c : Commit (Unit {0})) (w : World)
      → IsStaffed w.db
      → Ends (
          answer
            (λ (done : Unit {0}). query env (get_user u.id) >>= refreshed)
            "Username or email already exists"
            "Invalid user input data"
            c
            w)
  unfolding answer pure raise query
  answer-Ends u (written a) w s =
      let t = others.staff w.tick w.db s in
      run->>= Ends Ends (query env (get_user u.id)) refreshed w
        (run-statement Ends env (λ m d. (get_user u.id d, d)) w (λ e. t) t)
        (λ r w' q. refreshed-Ends r w' q) (λ e w' q. q)
  answer-Ends u integrity_failed w s = s
  answer-Ends u data_failed w s = s
  answer-Ends u stale w s = s

  update_admitted-Ends :
      (c : UserUpdate) (u : User) (r : Response (Unit {0})) (w : World)
      → u.id ≡ k
      → Allowed env pg k start others c.role (ok r, w)
      → Ends (update_admitted env pg lower passwords c u r w)
  unfolding update_admitted update_loaded write_update pure
  update_admitted-Ends c u (http_error code detail) w i s = s
  update_admitted-Ends c u (success done) w i (s, why) =
      run->>= Ends Ends (commit env pg (λ m d. flush_user u.id (assigned lower passwords c u) d))
        (answer (λ (x : Unit {0}). query env (get_user u.id) >>= refreshed)
          "Username or email already exists" "Invalid user input data")
        w
        (commit-Ends env pg k start others (λ m d. flush_user u.id (assigned lower passwords c u) d)
          w s
          (λ m d a d' t e h.
            flush_user-keeps u.id (assigned lower passwords c u) d a d' (reason d e why) t.staffed
              h))
        (answer-Ends u) (λ e w' q. q)
    where
      reason :
          (d : Db)
          → d ≡ (env w.tick).others w.db
          → (other_admin k ((env w.tick).others w.db).users ≡ true) ⊎ (stays_admin c.role ≡ true)
          → (other_admin u.id d.users ≡ true)
            ⊎ ((x : User)
                → is_admin x ≡ true
                → is_admin (write_user (assigned lower passwords c u) x) ≡ true)
      reason d e (inl other) = inl (
          ap (λ (n : ℕ). other_admin n d.users) i
          ∙ ap (λ (x : Db). other_admin k x.users) e
          ∙ other)
      reason d e (inr stays) = inr (λ x h. write_user-keeps lower passwords c u x stays h)

  found_for_update-Ends :
      (c : UserUpdate) (r : Option User) (w : World)
      → Loaded env pg k start others (ok r, w)
      → Ends (found_for_update env pg lower passwords c r w)
  unfolding found_for_update pure
  found_for_update-Ends c none w (s, n, h) = s
  found_for_update-Ends c (some u) w (s, n, h) =
      run->>= Ends (Allowed env pg k start others c.role) (ensure_admin_remains env u c.role)
        (update_admitted env pg lower passwords c u) w
        (ensure_admin_remains-Allowed env pg k start others u c.role w n s h)
        (λ r w' a. update_admitted-Ends c u r w' (found-key k w.db u h) a) (λ e w' a. a)

-- If an admin is left by every other transaction, the loaded user is not promoted before the next
-- statement, and two locked admins stay two, then however `update_user` ends, with whatever update and
-- fault, an admin is left and the accounts meet their constraints.
pub update_user-keeps_admin :
    (env : ℕ → Moment) (pg : Postgres) (lower : String → String) (passwords : Passwords)
    (c : UserUpdate) (k : ℕ) (w : World)
    → Others k w.tick env
    → IsStaffed w.db
    → IsStaffed (update_user env pg lower passwords c k w).1.db
unfolding update_user
update_user-keeps_admin env pg lower passwords c k w others s =
    run->>= Ends (Loaded env pg k w.tick others) (query env (get_user k))
      (found_for_update env pg lower passwords c) w (query-Loaded env pg k w.tick others w refl s)
      (found_for_update-Ends env pg lower passwords k w.tick others c) (λ e w' a. a)
