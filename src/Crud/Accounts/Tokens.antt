-- ===== src/Crud/Accounts/Tokens.antt =====
-- Access tokens after `register_user`, `create_user` and `update_user` of app/crud/user.py.
use system_uni.Prelude.{
  ℕ, ◌+◌, ◌≡◌, refl, String, Option, none, some, Bool, true, false, List, [], ◌∷◌, ◌++◌, ◌==◌,
  str_eq, str_eq_iff, mem_last, find?-of_unique, find?, update_where, any, is_none, if◌then◌else◌,
  arith,
}
use system_uni.Models.{
  Db, User, Postgres, Verdict, committed, violated, invalid_data, users_ok, constraints-users,
}
use system_uni.Session.{Moment, Ensures, statement-Ensures}
use system_uni.Security.{Jwt, create_access_token, get_user, admit}
use system_uni.Crud.Response.{
  success, http_error, Commit, written, integrity_failed, data_failed, stale, commit, judge, flush,
}
use system_uni.Crud.Accounts.{
  Passwords, UserCreate, UserUpdate, UserColumns, new_user, with_user, insert_user, check_login,
  find_email, write_update, flush_user, assigned, write_user, no_column, invalidates_tokens,
}
use system_uni.Crud.Accounts.Admins.Rows.{users_clash}

email_clash :
    (email : String) (a b : User)
    → str_eq a.email email ≡ true
    → str_eq b.email email ≡ true
    → users_clash a b ≡ true
email_clash email a b h k =
    ground (arith, str_eq_iff a.email email, str_eq_iff b.email email, str_eq_iff a.email b.email)

find_email-with_user :
    (x : User) (d : Db)
    → users_ok (with_user x d) ≡ true
    → find_email x.email (with_user x d) ≡ some x
unfolding users_ok
find_email-with_user x d h =
    find?-of_unique users_clash (λ (u : User). str_eq u.email x.email) (d.users ++ x ∷ [])
      (email_clash x.email) h (mem_last d.users x) (ground (arith, str_eq_iff x.email x.email))

module _ {Token : Type 0} (jwt : Jwt Token) (expire_minutes now : ℕ) (lower : String → String)
    (passwords : Passwords) (u : UserCreate) (email : String) where
  -- What the insert of an account gives: the requested role, the version 0, and a login with the
  -- password at the address.
  abbrev pub Registers : Commit User → Db → Type 0
  Registers (written row) d =
      (row.role ≡ u.role)
      × (row.token_version ≡ 0)
      × (check_login jwt expire_minutes now passwords u.password (find_email (lower email) d)
          ≡ success (create_access_token jwt expire_minutes now row.id row.token_version))
  Registers integrity_failed d = Unit
  Registers data_failed d = Unit
  Registers stale d = Unit

  new_user-logs_in :
      (m : Moment) (d : Db)
      → lower email ≡ lower u.email
      → users_ok (with_user (new_user lower passwords u m) d) ≡ true
      → check_login jwt expire_minutes now passwords u.password
          (find_email (lower email) (with_user (new_user lower passwords u m) d))
        ≡ success (create_access_token jwt expire_minutes now m.serial 0)
  unfolding check_login
  new_user-logs_in m d same h =
      rw
        (
          same,
          find_email-with_user (new_user lower passwords u m) d h,
          passwords.verify-hash u.password,
        )
        refl

  -- Whatever other sessions do: if the insert of `register_user` or `create_user` commits, the account
  -- has the requested role and version 0, and at that moment `login_user` answers its password with
  -- a token of the account, for any spelling of the address that `lower` does not tell apart.
  pub insert_user-Registers :
      (env : ℕ → Moment) (pg : Postgres)
      → lower email ≡ lower u.email
      → Ensures Registers (insert_user env pg lower passwords u)
  unfolding insert_user commit
  insert_user-Registers env pg same =
      statement-Ensures Registers env _
        (λ m d. go m d (pg.verdict (with_user (new_user lower passwords u m) d)) refl)
    where
      go :
          (m : Moment) (d : Db) (v : Verdict)
          → let x = new_user lower passwords u m in
            (pg.verdict (with_user x d) ≡ v)
            → let (c, d') = judge v x (with_user x d) d in Registers c d'
      go m d committed h = (
        refl,
        refl,
        new_user-logs_in m d same (
            constraints-users (with_user (new_user lower passwords u m) d)
              (pg.accepts (with_user (new_user lower passwords u m) d) h)),
      )
      go m d violated h = tt
      go m d invalid_data h = tt

admit-write_user :
    (v : ℕ) (c : UserColumns) (x : User)
    → c.token_version ≡ some (v + 1)
    → admit v (some (write_user c x)) ≡ http_error 401 "invalid token"
unfolding admit write_user
admit-write_user v c x h = let newer : (v + 1 == v) ≡ false = ground arith in rw (h, newer) refl

-- The row that an update with a new version leaves is refused for the old one.
admit-update_where :
    (k v : ℕ) (c : UserColumns) (xs : List User)
    → c.token_version ≡ some (v + 1)
    → admit v
        (find? (λ (u : User). u.id == k) (update_where (λ (u : User). u.id == k) (write_user c) xs))
      ≡ http_error 401 "invalid token"
unfolding admit write_user
admit-update_where k v c [] h = refl
admit-update_where k v c (x ∷ xs) h = go (x.id == k) refl (admit-update_where k v c xs h)
  where
    rest : Option User
    rest =
        find? (λ (u : User). u.id == k) (update_where (λ (u : User). u.id == k) (write_user c) xs)

    go :
        (b : Bool)
        → (x.id == k) ≡ b
        → admit v rest ≡ http_error 401 "invalid token"
        → (let y : User = if b then write_user c x else x in
            admit v (if y.id == k then some y else rest))
          ≡ http_error 401 "invalid token"
    go true e ih = rw e (admit-write_user v c x h)
    go false e ih = rw e ih

-- What an update gives: the version that the handler loaded is refused.
abbrev pub Revokes : User → Commit (Unit {0}) → Db → Type 0
Revokes u (written done) d =
    admit u.token_version (get_user u.id d) ≡ http_error 401 "invalid token"
Revokes u integrity_failed d = Unit
Revokes u data_failed d = Unit
Revokes u stale d = Unit

flush_user-Revokes :
    (pg : Postgres) (u : User) (c : UserColumns) (d : Db)
    → c.token_version ≡ some (u.token_version + 1)
    → let (r, d') = flush pg (flush_user u.id c d) d in Revokes u r d'
unfolding flush_user
flush_user-Revokes pg u c d h = go (no_column c) (any (λ (x : User). x.id == u.id) d.users) refl
  where
    new : Db
    new = record d { users = update_where (λ (x : User). x.id == u.id) (write_user c) d.users }

    judged : (v : Verdict) → let (r, d') = judge {A = Unit {0}} v tt new d in Revokes u r d'
    judged committed = admit-update_where u.id u.token_version c d.users h
    judged violated = tt
    judged invalid_data = tt

    go :
        (b1 b2 : Bool)
        → no_column c ≡ b1
        → let change : Option (Unit {0} × Db) =
            if b1 then some (tt, d) else if b2 then some (tt, new) else none in
          let (r, d') = flush pg change d in Revokes u r d'
    go true b e = let written_column : is_none c.token_version ≡ true = ground arith in cc
    go false true e = judged (pg.verdict new)
    go false false e = tt

-- Whatever other sessions do: if an update with a password or a role commits, then at that moment
-- every token that carries the version which the handler loaded is refused.
pub write_update-Revokes :
    (env : ℕ → Moment) (pg : Postgres) (lower : String → String) (passwords : Passwords)
    (c : UserUpdate) (u : User)
    → invalidates_tokens c ≡ true
    → Ensures (Revokes u) (write_update env pg lower passwords c u)
unfolding write_update commit assigned
write_update-Revokes env pg lower passwords c u h =
    statement-Ensures (Revokes u) env _
      (λ m d. flush_user-Revokes pg u (assigned lower passwords c u) d (rw h refl))
