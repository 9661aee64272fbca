-- ===== src/Health.antt =====
-- app/redis.py and app/routers/health.py. Whether Redis answers is an argument: what a
-- connection attempt gives, `none` for a RedisError.
pub mod Laws
mod Tests
use system_uni.Prelude.{
  ℕ, String, Option, none, some, List, [], ◌∷◌, str_eq, is_none, if◌then◌else◌,
}
use system_uni.Session.{Session, Moment, query, pure, try_except, ◌>>=◌}

-- `get_redis_client`: the client, which is also the next value of `_redis_client`.
unfoldable pub get_redis_client : Option ℕ → Option ℕ → Option ℕ
get_redis_client (some client) attempt = some client
get_redis_client none attempt = attempt

pub record Health : Type 0 where
  pub status : String
  pub postgres : String
  pub redis : String
  pub worker : String

-- What the endpoint answers, and the client that stays.
unfoldable pub report : Option ℕ → Option ℕ → String → Health × Option ℕ
report memo attempt db_status =
    let client = get_redis_client memo attempt in
    (
      record {
        status = if str_eq db_status "healthy" then "healthy" else "unhealthy";
        postgres = db_status;
        redis = if is_none client then "unavailable" else "healthy";
        worker = "ready";
      },
      client,
    )

module _ (env : ℕ → Moment) where
  -- `SELECT 1`.
  unfoldable pub db_status : Session String
  db_status = try_except (query env (λ d. "healthy")) (λ e. pure "unhealthy")

  unfoldable pub health_check : Option ℕ → Option ℕ → Session (Health × Option ℕ)
  health_check memo attempt = db_status >>= (λ s. pure (report memo attempt s))

  abbrev pub then_check :
      (Option ℕ → Session (List Health)) → Health × Option ℕ → Session (List Health)
  then_check next (h, memo) = next memo >>= (λ hs. pure (h ∷ hs))

  -- One check after another, each with what connecting would give at its time.
  unfoldable pub health_checks : List (Option ℕ) → Option ℕ → Session (List Health)
  health_checks [] memo = pure []
  health_checks (attempt ∷ attempts) memo =
      health_check memo attempt >>= then_check (health_checks attempts)
