-- ===== src/Health/Laws.antt =====
-- What /health tells about Redis.
use system_uni.Prelude.{
  ℕ, suc, ◌≡◌, refl, ap, String, Option, some, true, List, [], ◌∷◌, length, all, str_eq, arith,
}
use system_uni.Session.{
  World, Moment, Outcome, ok, raised, Session, query, pure, try_except, ◌>>=◌, statement, run->>=,
}
use system_uni.Health.{
  get_redis_client, Health, report, db_status, health_check, then_check, health_checks,
}

module _ (env : ℕ → Moment) where
  -- Every check answers, and tells that Redis is healthy.
  abbrev pub AllHealthy : ℕ → Outcome (List Health) × World → Type 0
  AllHealthy n (raised e, w) = ⊥
  AllHealthy n (ok hs, w) =
      (length hs ≡ n) × (all (λ (h : Health). str_eq h.redis "healthy") hs ≡ true)

  abbrev Answered : Outcome String × World → Type 0
  Answered (raised e, w) = ⊥
  Answered (ok s, w) = Unit

  db_status-Answered : (w : World) → Answered (db_status env w)
  unfolding db_status try_except query pure
  db_status-Answered w = go (statement env (λ m d. ("healthy", d)) w)
    where
      go :
          (r : Outcome String × World)
          → Answered (
              let (o, w') = r in
              let s : Outcome String × World = elim o [
                | ok a ↦ (ok a, w')
                | raised e ↦ (ok "unhealthy", w')
              ] in
              s)
      go (ok s, v) = tt
      go (raised e, v) = tt

  abbrev Kept : ℕ → Outcome (Health × Option ℕ) × World → Type 0
  Kept client (raised e, w) = ⊥
  Kept client (ok (h, memo), w) = (memo ≡ some client) × (str_eq h.redis "healthy" ≡ true)

  health_check-Kept :
      (client : ℕ) (attempt : Option ℕ) (w : World)
      → Kept client (health_check env (some client) attempt w)
  unfolding health_check pure report get_redis_client
  health_check-Kept client attempt w =
      run->>= (Kept client) Answered (db_status env) (λ s. pure (report (some client) attempt s)) w
        (db_status-Answered w) (λ s v a. (refl, refl)) (λ e v a. absurd a)

  cons-AllHealthy :
      (n : ℕ) (h : Health) (r : Session (List Health)) (w : World)
      → str_eq h.redis "healthy" ≡ true
      → AllHealthy n (r w)
      → AllHealthy (suc n) ((r >>= (λ hs. pure (h ∷ hs))) w)
  unfolding pure
  cons-AllHealthy n h r w e a =
      run->>= (AllHealthy (suc n)) (AllHealthy n) r (λ hs. pure (h ∷ hs)) w a
        (λ hs v b. (ap suc b.0, ground arith)) (λ x v b. absurd b)

  -- Once there is a client, every later check answers and tells that Redis is healthy, whatever a
  -- connection attempt would give by then, and whether or not the database answers.
  pub health_checks-AllHealthy :
      (attempts : List (Option ℕ)) (client : ℕ) (w : World)
      → AllHealthy (length attempts) (health_checks env attempts (some client) w)
  unfolding health_checks pure
  health_checks-AllHealthy [] client w = (refl, refl)
  health_checks-AllHealthy (a ∷ attempts) client w =
      run->>= (AllHealthy (suc (length attempts))) (Kept client) (health_check env (some client) a)
        (then_check env (health_checks env attempts)) w (health_check-Kept client a w)
        (λ r v k. next r v k (health_checks-AllHealthy attempts client v)) (λ e v k. absurd k)
    where
      next :
          (r : Health × Option ℕ) (v : World)
          → Kept client (ok r, v)
          → AllHealthy (length attempts) (health_checks env attempts (some client) v)
          → AllHealthy (suc (length attempts)) (then_check env (health_checks env attempts) r v)
      next (h, memo) v (same, e) ih =
          rw same
            (cons-AllHealthy (length attempts) h (health_checks env attempts (some client)) v e ih)
