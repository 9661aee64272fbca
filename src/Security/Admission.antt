-- ===== src/Security/Admission.antt =====
-- Who a request is admitted as.
use system_uni.Prelude.{
  ℕ, ◌+◌, ◌<◌, ◌≡◌, refl, Option, none, some, Bool, true, false, not, ◌==◌, find?_passes, find?_mem,
  Memᴰ, if◌then◌else◌, arith,
}
use system_uni.Models.{Db, User}
use system_uni.Session.{Moment, Ensures, pure-Ensures, statement-Ensures, query}
use system_uni.Crud.Response.{Response, success, http_error}
use system_uni.Security.{
  Jwt, create_access_token, decode_access_token, minutes, whole_seconds, get_user, admit, decoded,
  get_current_user, version,
}

-- A token names a stored user, and the version that the row has.
abbrev pub Admits : {Token : Type 0} → Jwt Token → ℕ → Option Token → Response User → Db → Type 0
Admits jwt now token (http_error code detail) d = code ≡ 401
Admits jwt now none (success u) d = ⊥
Admits jwt now (some t) (success u) d =
    (decode_access_token jwt now t ≡ some (u.id, u.token_version)) × Memᴰ u d.users

admit-Admits :
    {Token : Type 0} (jwt : Jwt Token) (now k v : ℕ) (t : Token) (d : Db)
    → decode_access_token jwt now t ≡ some (k, v)
    → Admits jwt now (some t) (admit v (get_user k d)) d
unfolding admit
admit-Admits jwt now k v t d h = go (get_user k d) refl
  where
    go : (r : Option User) → get_user k d ≡ r → Admits jwt now (some t) (admit v r) d
    go none e = refl
    go (some u) e =
        version_split u (u.token_version == v) refl
          (find?_passes (λ (x : User). x.id == k) d.users u e)
          (find?_mem (λ (x : User). x.id == k) d.users e)
      where
        version_split :
            (u : User) (b : Bool)
            → (u.token_version == v) ≡ b
            → (u.id == k) ≡ true
            → Memᴰ u d.users
            → Admits jwt now
                (some t)
                (if not b then http_error 401 "invalid token" else success u)
                d
        version_split u true e key m = (ground (arith, h), m)
        version_split u false e key m = refl

-- However the environment behaves, `get_current_user` refuses with 401, or returns a stored user whose
-- key and current token version the unexpired token of the request names.
pub get_current_user-Admits :
    {Token : Type 0} (env : ℕ → Moment) (jwt : Jwt Token) (now : ℕ) (credentials : Option Token)
    → Ensures (Admits jwt now credentials) (get_current_user env jwt now credentials)
unfolding get_current_user decoded query
get_current_user-Admits env jwt now none =
    pure-Ensures (Admits jwt now none) (http_error 401 "not authenticated") (λ d. refl)
get_current_user-Admits env jwt now (some t) = go (decode_access_token jwt now t) refl
  where
    go :
        (r : Option (ℕ × ℕ))
        → decode_access_token jwt now t ≡ r
        → Ensures (Admits jwt now (some t)) (decoded env r)
    go none e = pure-Ensures (Admits jwt now (some t)) (http_error 401 "invalid token") (λ d. refl)
    go (some (k, v)) e =
        statement-Ensures (Admits jwt now (some t)) env (λ m d. (admit v (get_user k d), d))
          (λ m d. admit-Admits jwt now k v t d e)

-- Before the whole second in which it expires, a token that was issued for a user and a version decodes to them.
pub decode_access_token-create_access_token :
    {Token : Type 0} (jwt : Jwt Token) (expire_minutes issued now k v : ℕ)
    → now < whole_seconds (issued + minutes expire_minutes)
    → decode_access_token jwt now (create_access_token jwt expire_minutes issued k v) ≡ some (k, v)
unfolding decode_access_token create_access_token
decode_access_token-create_access_token jwt expire_minutes issued now k v h =
    rw
      (
        jwt.decode-encode now
            (record {
              sub = some (jwt.str k);
              ver = version v;
              exp = issued + minutes expire_minutes;
            })
            h,
        jwt.int-str k,
      )
      refl
