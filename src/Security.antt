-- ===== src/Security.antt =====
-- app/security: access tokens and the user behind a request.
pub mod Admission
pub mod Sample
use system_uni.Prelude.{
  ℕ, ◌+◌, ◌*◌, ◌/◌, ◌<◌, ◌≡◌, String, Option, none, some, Bool, true, false, not, ◌||◌, List, [],
  ◌∷◌, ◌==◌, if◌then◌else◌, find?, any,
}
use system_uni.Models.{Db, User, UserRole, admin, user, guest}
use system_uni.Session.{Session, Moment, query, pure, ◌>>=◌}
use system_uni.Crud.Response.{Response, success, http_error}

-- The claim `ver` of a token: missing, an `int` of either sign, or something else.
pub data VersionClaim : Type 0 where
  missing negative not_int : VersionClaim
  version : ℕ → VersionClaim

pub record Claims : Type 0 where
  pub sub : Option String
  pub ver : VersionClaim
  pub exp : ℕ

-- PyJWT keeps the expiry in whole seconds.
abbrev pub whole_seconds : ℕ → ℕ
whole_seconds t = t / 1000000 * 1000000

-- PyJWT with the server's key, `str` and `int`: a token that was signed here decodes to its claims,
-- with the expiry cut to whole seconds, before that second, and a number is read back from its text.
pub record Jwt (Token : Type 0) : Type 0 where
  pub encode : Claims → Token
  pub decode : ℕ → Token → Option Claims
  pub str : ℕ → String
  pub int : String → Option ℕ
  pub decode-encode :
      (now : ℕ) (c : Claims)
      → now < whole_seconds c.exp
      → decode now (encode c)
        ≡ some (record { sub = c.sub; ver = c.ver; exp = whole_seconds c.exp })
  pub int-str : (n : ℕ) → int (str n) ≡ some n

abbrev pub minutes : ℕ → ℕ
minutes n = n * 60000000

unfoldable pub create_access_token : {Token : Type 0} → Jwt Token → ℕ → ℕ → ℕ → ℕ → Token
create_access_token jwt expire_minutes now user_id token_version = jwt.encode (record {
  sub = some (jwt.str user_id);
  ver = version token_version;
  exp = now + minutes expire_minutes;
})

-- The version that is asked for, if the claim is a natural number; it is 0 where it is missing.
abbrev pub version_of : VersionClaim → Option ℕ
version_of missing = some 0
version_of negative = none
version_of not_int = none
version_of (version v) = some v

abbrev pub with_version : Option ℕ → Option ℕ → Option (ℕ × ℕ)
with_version (some k) (some v) = some (k, v)
with_version _ _ = none

abbrev pub read_claims : (String → Option ℕ) → Option Claims → Option (ℕ × ℕ)
read_claims int none = none
read_claims int (some c) = elim c.sub [
  | none ↦ none
  | some s ↦ with_version (int s) (version_of c.ver)
]

unfoldable pub decode_access_token : {Token : Type 0} → Jwt Token → ℕ → Token → Option (ℕ × ℕ)
decode_access_token jwt now token = read_claims jwt.int (jwt.decode now token)

abbrev pub get_user : ℕ → Db → Option User
get_user k d = find? (λ (u : User). u.id == k) d.users

-- A deleted user, or one whose credentials or role changed after the token was issued.
unfoldable pub admit : ℕ → Option User → Response User
admit token_version none = http_error 401 "invalid token"
admit token_version (some u) =
    if not (u.token_version == token_version) then http_error 401 "invalid token" else success u

module _ (env : ℕ → Moment) where
  unfoldable pub decoded : Option (ℕ × ℕ) → Session (Response User)
  decoded none = pure (http_error 401 "invalid token")
  decoded (some (k, v)) = query env (λ d. admit v (get_user k d))

  unfoldable pub get_current_user :
      {Token : Type 0} → Jwt Token → ℕ → Option Token → Session (Response User)
  get_current_user jwt now none = pure (http_error 401 "not authenticated")
  get_current_user jwt now (some token) = decoded (decode_access_token jwt now token)

abbrev pub same_role : UserRole → UserRole → Bool
same_role admin admin = true
same_role user user = true
same_role guest guest = true
same_role _ _ = false

-- `authorize` of `require_roles`.
unfoldable pub authorize : List UserRole → Response User → Response User
authorize allowed (http_error code detail) = http_error code detail
authorize allowed (success u) =
    if not (any (same_role u.role) allowed) then http_error 403 "forbidden" else success u

abbrev pub require_admin : Response User → Response User
require_admin = authorize (admin ∷ [])

abbrev pub require_admin_or_user : Response User → Response User
require_admin_or_user = authorize (admin ∷ user ∷ [])

abbrev pub require_authenticated_user : Response User → Response User
require_authenticated_user = authorize (admin ∷ user ∷ guest ∷ [])
