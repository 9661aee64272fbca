-- ===== src/Session/Steps.antt =====
-- Rules for one run of a session: what holds of the outcome and the world of a chain of statements.
use system_uni.Prelude.{ℕ, suc, ◌≡◌, refl, Option, none, some, List}
use system_uni.Models.{Db}
use system_uni.Session.Monad.{
  Exn, sqlalchemy_error, Moment, World, Outcome, ok, raised, Session, ◌>>=◌, statement, settle,
}

module _ {A : Type 0} (Q : Outcome A × World → Type 0) where
  -- A statement ends with a fault, after what the others did, or with its own change to that.
  pub run-statement :
      (env : ℕ → Moment) (f : Moment → Db → A × Db) (w : World)
      → let m = env w.tick in
        let d = m.others w.db in
        ((e : Exn) → Q (raised e, record { db = d; tick = suc w.tick }))
        → Q (ok (f m d).0, record { db = (f m d).1; tick = suc w.tick })
        → Q (statement env f w)
  unfolding statement
  run-statement env f w bad good =
      let m = env w.tick in let d = m.others w.db in go m.fault (f m d) d bad good
    where
      go :
          (fault : Option (List ℕ)) (r : A × Db) (d : Db)
          → ((e : Exn) → Q (raised e, record { db = d; tick = suc w.tick }))
          → Q (ok r.0, record { db = r.1; tick = suc w.tick })
          → Q (settle fault r d w.tick)
      go none (a, d') d bad good = good
      go (some text) (a, d') d bad good = bad (sqlalchemy_error text)

  pub run->>= :
      {B : Type 0} (P : Outcome B × World → Type 0) (m : Session B) (f : B → Session A) (w : World)
      → P (m w)
      → ((b : B) (w' : World) → P (ok b, w') → Q (f b w'))
      → ((e : Exn) (w' : World) → P (raised e, w') → Q (raised e, w'))
      → Q ((m >>= f) w)
  unfolding ◌>>=◌
  run->>= {B} P m f w h good bad = go (m w) h
    where
      go :
          (r : Outcome B × World)
          → P r
          → Q (let (o, w') = r in elim o [ ok b ↦ f b w' | raised e ↦ (raised e, w') ])
      go (ok b, w') h = good b w' h
      go (raised e, w') h = bad e w' h

-- A statement around which nothing happens.
pub statement-alone :
    {A : Type 0} (env : ℕ → Moment) (f : Moment → Db → A × Db) (w : World)
    → (env w.tick).others w.db ≡ w.db
    → (env w.tick).fault ≡ none
    → statement env f w
      ≡ (let (a, d) = f (env w.tick) w.db in (ok a, record { db = d; tick = suc w.tick }))
unfolding statement
statement-alone env f w alone faultless = rw (alone, faultless) refl
