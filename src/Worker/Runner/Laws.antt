-- ===== src/Worker/Runner/Laws.antt =====
-- `_claim_with_retry` of app/workers/runner.py.
use system_uni.Prelude.{
  ℕ, zero, suc, ◌≡◌, ap, some_injective, ◌⊎◌, inl, inr, Option-cases, Option, none, some, List,
}
use system_uni.Models.{Db}
use system_uni.Session.{
  Session, Moment, World, Outcome, ok, raised, Exn, sqlalchemy_error, statement, try_except,
}
use system_uni.Session.{settle}
use system_uni.Worker.Settings.{Settings}
use system_uni.Worker.Runner.{claim_statement, retry_or_raise, claim_with_retry}

-- Some statement among the next `n` meets no fault.
abbrev pub Quiet : (ℕ → Moment) → ℕ → ℕ → Type 0
Quiet env t zero = ⊥
Quiet env t (suc n) = ((env t).fault ≡ none) ⊎ Quiet env (suc t) n

abbrev pub Answers {ℓ} : {A : Type ℓ} → Outcome A → Type 0
Answers (ok a) = Unit
Answers (raised e) = ⊥

after_fault : (ℕ → Moment) → World → World
after_fault env w = record { db = (env w.tick).others w.db; tick = suc w.tick }

module _ {A : Type 0} (env : ℕ → Moment) (f : Moment → Db → A × Db) (handler : Exn → Session A)
    (w : World) where
  attempt_quiet : (env w.tick).fault ≡ none → Answers (try_except (statement env f) handler w).0
  unfolding try_except statement
  attempt_quiet e = rw (e, Answers, try_except) tt

  attempt_fault :
      (text : List ℕ)
      → (env w.tick).fault ≡ some text
      → try_except (statement env f) handler w ≡ handler (sqlalchemy_error text) (after_fault env w)
  unfolding try_except statement after_fault
  attempt_fault text e = go (env w.tick).fault (f (env w.tick) ((env w.tick).others w.db)) e
    where
      go :
          (fault : Option (List ℕ)) (r : A × Db)
          → fault ≡ some text
          → (let (o, w') = settle fault r ((env w.tick).others w.db) w.tick in
              let s : Outcome A × World = elim o [ ok a ↦ (ok a, w') | raised e ↦ handler e w' ] in
              s)
            ≡ handler (sqlalchemy_error text) (after_fault env w)
      go none r h = cc
      go (some t) r h =
          ap (λ (x : List ℕ). handler (sqlalchemy_error x) (after_fault env w)) (some_injective h)

-- The claim survives transient faults: if one of the attempts that `claim_with_retry` may make meets no
-- fault, then it returns an answer, a claimed job or none, and raises nothing.
pub claim_with_retry-Answers :
    (env : ℕ → Moment) (settings : Settings) (n : ℕ) (w : World)
    → Quiet env w.tick n
    → Answers (claim_with_retry env settings n w).0
unfolding claim_with_retry claim_statement after_fault retry_or_raise
claim_with_retry-Answers env settings zero w q = absurd q
claim_with_retry-Answers env settings (suc n) w (inl e) = attempt_quiet env _ _ w e
claim_with_retry-Answers env settings (suc zero) w (inr q) = absurd q
claim_with_retry-Answers env settings (suc (suc n)) w (inr q) =
    elim (Option-cases (env w.tick).fault) [
      | inl e ↦ attempt_quiet env _ _ w e
      | inr (text, e) ↦
          rw (attempt_fault env _ _ w text e)
            (claim_with_retry-Answers env settings (suc n) (after_fault env w) q)
    ]
