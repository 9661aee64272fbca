-- ===== src/Session/Calm.antt =====
-- A session that runs alone: no other session and no fault interferes with its statements.
use system_uni.Prelude.{ℕ, suc, ◌≡◌, none}
use system_uni.Models.{Db}
use system_uni.Session.Monad.{World, Moment, ok, statement}
use system_uni.Session.Steps.{statement-alone}

pub record IsCalm (env : ℕ → Moment) : Type 0 where
  pub alone : (n : ℕ) (d : Db) → (env n).others d ≡ d
  pub faultless : (n : ℕ) → (env n).fault ≡ none

module _ {A : Type 0} (env : ℕ → Moment) where
  -- A statement of such a session is its function.
  pub statement-IsCalm :
      (f : Moment → Db → A × Db) (w : World)
      → IsCalm env
      → statement env f w
        ≡ (ok (f (env w.tick) w.db).0, record { db = (f (env w.tick) w.db).1; tick = suc w.tick })
  statement-IsCalm f w calm =
      statement-alone env f w (calm.alone w.tick w.db) (calm.faultless w.tick)
