-- ===== src/Crud/Accounts/Admins/Removal.antt =====
-- `delete_user` of app/crud/user.py, and the admins before and after.
use system_uni.Prelude.{
  ℕ, ◌≡◌, inl, inr, refl, ap, sym, ◌∙◌, String, Option, none, some, some_injective, ◌==◌,
  find?_passes, arith,
}
use system_uni.Models.{Db, User, Postgres}
use system_uni.Session.{Moment, World, ok, query, pure, raise, run->>=}
use system_uni.Security.{get_user}
use system_uni.Crud.Response.{
  Response, success, http_error, Commit, written, integrity_failed, data_failed, stale, commit,
  answer_delete,
}
use system_uni.Crud.Accounts.{
  ensure_admin_remains, without_user, delete_admitted, found_for_delete, delete_user,
}
use system_uni.Crud.Accounts.Admins.{
  has_admin, IsStaffed, Others, Ends, commit-Ends, Loaded, query-Loaded, Allowed,
  ensure_admin_remains-Allowed,
}
use system_uni.Crud.Accounts.Admins.Rows.{other_admin}

pub found-key : (k : ℕ) (d : Db) (u : User) → get_user k d ≡ some u → u.id ≡ k
found-key k d u h = let p = find?_passes (λ (x : User). x.id == k) d.users u h in ground arith

answer_delete-Ends :
    (c : Commit (Unit {0})) (w : World)
    → IsStaffed w.db
    → Ends (
        answer_delete {B = String}
          (pure (success "User deleted successfully"))
          "Cannot delete user due to existing relationships"
          c
          w)
unfolding answer_delete pure raise
answer_delete-Ends (written a) w q = q
answer_delete-Ends integrity_failed w q = q
answer_delete-Ends data_failed w q = q
answer_delete-Ends stale w q = q

module _ (env : ℕ → Moment) (pg : Postgres) (k start : ℕ) (others : Others k start env) where
  delete_admitted-Ends :
      (u : User) (r : Response (Unit {0})) (w : World)
      → u.id ≡ k
      → Allowed env pg k start others none (ok r, w)
      → Ends (delete_admitted env pg u r w)
  unfolding delete_admitted pure
  delete_admitted-Ends u (http_error code detail) w i s = s
  delete_admitted-Ends u (success done) w i (s, inr h) = cc
  delete_admitted-Ends u (success done) w i (s, inl other) =
      run->>= Ends Ends (commit env pg (λ m d. some (tt, without_user u.id d)))
        (answer_delete {B = String} (pure (success "User deleted successfully"))
          "Cannot delete user due to existing relationships")
        w
        (commit-Ends env pg k start others (λ m d. some (tt, without_user u.id d)) w s
          (λ m d a d' t e h.
            ap (λ (p : Unit {0} × Db). has_admin p.1) (sym (some_injective h))
            ∙ ap (λ (n : ℕ). other_admin n d.users) i
            ∙ ap (λ (x : Db). other_admin k x.users) e
            ∙ other))
        answer_delete-Ends (λ e w' q. q)

  found_for_delete-Ends :
      (r : Option User) (w : World)
      → Loaded env pg k start others (ok r, w)
      → Ends (found_for_delete env pg r w)
  unfolding found_for_delete pure
  found_for_delete-Ends none w (s, n, h) = s
  found_for_delete-Ends (some u) w (s, n, h) =
      run->>= Ends (Allowed env pg k start others none) (ensure_admin_remains env u none)
        (delete_admitted env pg u) w
        (ensure_admin_remains-Allowed env pg k start others u none w n s h)
        (λ r w' a. delete_admitted-Ends u r w' (found-key k w.db u h) a) (λ e w' a. a)

-- If an admin is left by every other transaction, the loaded user is not promoted before the next
-- statement, and two locked admins stay two, then however `delete_user` ends, with whatever fault, an
-- admin is left and the accounts meet their constraints.
pub delete_user-keeps_admin :
    (env : ℕ → Moment) (pg : Postgres) (k : ℕ) (w : World)
    → Others k w.tick env
    → IsStaffed w.db
    → IsStaffed (delete_user env pg k w).1.db
unfolding delete_user
delete_user-keeps_admin env pg k w others s =
    run->>= Ends (Loaded env pg k w.tick others) (query env (get_user k)) (found_for_delete env pg)
      w (query-Loaded env pg k w.tick others w refl s)
      (found_for_delete-Ends env pg k w.tick others) (λ e w' a. a)
