-- ===== src/Crud/Accounts/Login.antt =====
-- `login_user` and the requests that follow a login.
use system_uni.Prelude.{
  ℕ, suc, ◌+◌, ◌<◌, ◌≡◌, refl, String, Option, none, some, Bool, true, false, ◌==◌, ◌∙◌, ap,
  find?_mem, find?-of_unique, str_eq, if◌then◌else◌, arith,
}
use system_uni.Models.{Db, User, users_ok}
use system_uni.Session.{World, Moment, Outcome, ok, raised, run-statement, statement-alone, query}
use system_uni.Security.{
  Jwt, create_access_token, minutes, whole_seconds, get_user, admit, decoded, get_current_user,
}
use system_uni.Security.Admission.{decode_access_token-create_access_token}
use system_uni.Crud.Response.{Response, success, http_error}
use system_uni.Crud.Accounts.{Passwords, login_user, check_login, find_email}
use system_uni.Crud.Accounts.Admins.Rows.{users_clash}

module _ {Token : Type 0} (env : ℕ → Moment) (jwt : Jwt Token) (expire_minutes issued now : ℕ)
    (lower : String → String) (passwords : Passwords) (email password : String) where
  -- A login is refused with 401, or its password is that of the account at the address, and the next
  -- request with its token is authenticated as that account.
  abbrev pub SignsIn : Outcome (Response Token) × World → Type 0
  SignsIn (raised e, w) = Unit
  SignsIn (ok (http_error code detail), w) = code ≡ 401
  SignsIn (ok (success t), w) =
      (u : User) × (find_email (lower email) w.db ≡ some u)
      × (passwords.verify password u.password_hash ≡ true)
      × ((get_current_user env jwt now (some t) w).0 ≡ ok (success u))

  get_user_found :
      (d : Db) (u : User)
      → users_ok d ≡ true
      → find_email (lower email) d ≡ some u
      → get_user u.id d ≡ some u
  unfolding users_ok
  get_user_found d u valid h =
      find?-of_unique users_clash (λ (x : User). x.id == u.id) d.users (λ a b p q. ground arith)
        valid (find?_mem (λ (x : User). str_eq x.email (lower email)) d.users h) (ground arith)

  admit_own : (u : User) → admit u.token_version (some u) ≡ success u
  unfolding admit
  admit_own u =
      let same : (u.token_version == u.token_version) ≡ true = ground arith in rw same refl

  authenticated :
      (u : User) (w : World)
      → now < whole_seconds (issued + minutes expire_minutes)
      → get_user u.id w.db ≡ some u
      → (env w.tick).others w.db ≡ w.db
      → (env w.tick).fault ≡ none
      → (get_current_user env jwt now
          (some (create_access_token jwt expire_minutes issued u.id u.token_version))
          w).0
        ≡ ok (success u)
  unfolding get_current_user decoded query
  authenticated u w fresh found alone faultless =
      ap (λ r. (decoded env r w).0)
        (decode_access_token-create_access_token jwt expire_minutes issued now u.id u.token_version
          fresh)
      ∙ ap (λ s. s.0)
          (statement-alone env (λ m d. (admit u.token_version (get_user u.id d), d)) w alone
            faultless)
      ∙ ap (λ r. ok (admit u.token_version r)) found
      ∙ ap ok (admit_own u)

  check_login-SignsIn :
      (w : World)
      → now < whole_seconds (issued + minutes expire_minutes)
      → users_ok w.db ≡ true
      → (env w.tick).others w.db ≡ w.db
      → (env w.tick).fault ≡ none
      → SignsIn (
        ok (
            check_login jwt expire_minutes issued passwords password
              (find_email (lower email) w.db)),
        w,
      )
  unfolding check_login
  check_login-SignsIn w fresh valid alone faultless = go (find_email (lower email) w.db) refl
    where
      signed :
          (u : User) (b : Bool)
          → find_email (lower email) w.db ≡ some u
          → passwords.verify password u.password_hash ≡ b
          → SignsIn (
            ok (
                if b
                then success (create_access_token jwt expire_minutes issued u.id u.token_version)
                else http_error 401 "user or password incorrect"),
            w,
          )
      signed u false h e = refl
      signed u true h e =
          (u, h, e, authenticated u w fresh (get_user_found w.db u valid h) alone faultless)

      go :
          (r : Option User)
          → find_email (lower email) w.db ≡ r
          → SignsIn (ok (check_login jwt expire_minutes issued passwords password r), w)
      go none h = refl
      go (some u) h = signed u (passwords.verify password u.password_hash) h refl

  -- From a state in which the accounts meet their constraints, with no one else and no fault before the
  -- next statement: `login_user` raises, refuses with 401, or its password is that of the account at
  -- the lower-cased address and `get_current_user` then answers its token, before the whole second in
  -- which it expires, with that account.
  pub login_user-SignsIn :
      (w : World)
      → now < whole_seconds (issued + minutes expire_minutes)
      → users_ok ((env w.tick).others w.db) ≡ true
      → (env (suc w.tick)).others ((env w.tick).others w.db) ≡ (env w.tick).others w.db
      → (env (suc w.tick)).fault ≡ none
      → SignsIn (login_user env jwt expire_minutes issued lower passwords email password w)
  unfolding login_user query
  login_user-SignsIn w fresh valid alone faultless =
      run-statement SignsIn env
        (λ m d. (
          check_login jwt expire_minutes issued passwords password (find_email (lower email) d),
          d,
        ))
        w (λ e. tt)
        (check_login-SignsIn (record { db = (env w.tick).others w.db; tick = suc w.tick }) fresh
          valid alone faultless)
