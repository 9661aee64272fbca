-- ===== src/Cli/Login.antt =====
-- The login of an account that `create-admin` has made.
use system_uni.Prelude.{
  ℕ, ◌≡◌, refl, ◌∙◌, String, none, Bool, false, List, [], ◌∷◌, ◌++◌, str_eq, find?,
  find?-append_none,
}
use system_uni.Models.{Db, User}
use system_uni.Session.{Moment}
use system_uni.Security.{Jwt}
use system_uni.Crud.Accounts.{Passwords, with_user, check_login, find_email}
use system_uni.Crud.Response.{http_error}
use system_uni.Cli.{Credentials, new_admin}

find?-with_last :
    (p : User → Bool) (xs : List User) (x : User)
    → find? p xs ≡ none
    → p x ≡ false
    → find? p (xs ++ x ∷ []) ≡ none
find?-with_last p xs x h k = find?-append_none p xs (x ∷ []) h ∙ rw k refl

-- `create-admin` stores the address as it is given, and `login_user` looks for the lower-cased one: if
-- the two differ and no other account has the latter, the new admin's login is answered 401.
pub new_admin-401 :
    {Token : Type 0} (jwt : Jwt Token) (expire_minutes now : ℕ) (lower : String → String)
    (passwords : Passwords) (c : Credentials) (m : Moment) (d : Db)
    → str_eq c.email (lower c.email) ≡ false
    → find_email (lower c.email) d ≡ none
    → check_login jwt expire_minutes now passwords c.password
        (find_email (lower c.email) (with_user (new_admin passwords c m) d))
      ≡ http_error 401 "user or password incorrect"
unfolding check_login
new_admin-401 jwt expire_minutes now lower passwords c m d h k =
    rw
      (find?-with_last (λ (u : User). str_eq u.email (lower c.email)) d.users
        (new_admin passwords c m) k h)
      refl
