-- ===== src/Api/Guards.antt =====
-- The dependencies of the endpoints: who may call them, and what a request body must meet.
use system_uni.Prelude.{ℕ, Bool, true, false, ◌&&◌, leb, if◌then◌else◌}
use system_uni.Models.{Db, User}
use system_uni.Session.{Session, pure, Preorder, Guarantees, pure-Guarantees}
use system_uni.Security.{require_admin, require_admin_or_user, require_authenticated_user}
use system_uni.Crud.Response.{Response, http_error}

-- `Depends(get_current_user)`, and the three guards of app/security/auth.py.
pub data Guard : Type 0 where
  signed_in admin_only admin_or_user any_role : Guard

abbrev pub guard : Guard → Response User → Response User
guard signed_in r = r
guard admin_only r = require_admin r
guard admin_or_user r = require_admin_or_user r
guard any_role r = require_authenticated_user r

-- A request that pydantic or FastAPI refuses does not reach the handler.
abbrev pub validated : {A : Type 0} → Bool → Session (Response A) → Session (Response A)
validated ok handler = if ok then handler else pure (http_error 422 "validation error")

-- `limit: int = Query(100, ge=1, le=100)`.
abbrev pub limit_ok : ℕ → Bool
limit_ok limit = leb 1 limit && leb limit 100

pub validated-Guarantees :
    (R : Db → Db → Type 0)
    → Preorder R
    → {A : Type 0} (ok : Bool) (m : Session (Response A)) → Guarantees R m
    → Guarantees R (validated ok m)
validated-Guarantees R order {A} true m h = h
validated-Guarantees R order {A} false m h =
    pure-Guarantees R order {A = Response A} (http_error 422 "validation error")
