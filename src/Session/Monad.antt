-- ===== src/Session/Monad.antt =====
-- The exceptions of app and the monad of statements with exceptions.
use system_uni.Prelude.{ℕ, suc, Option, none, some, Bool, List}
use system_uni.Models.{Db}

-- The exceptions that the code tells apart, and `TypeError`; a message is what `str` shows of it.
pub data Exn : Type 0 where
  permanent_job_error : List ℕ → Exn
  lease_lost_error : Exn
  integrity_error : List ℕ → Exn
  sqlalchemy_error : List ℕ → Exn
  type_error : List ℕ → Exn

-- What the environment does around one statement: what other sessions commit before it, the fault
-- that it raises, if any, the clock's reading, the key that a sequence hands out, the text of the
-- violation if a constraint refuses it, a fresh uuid, and the jobs that other transactions have
-- locked.
pub record Moment : Type 0 where
  pub others : Db → Db
  pub fault : Option (List ℕ)
  pub now : ℕ
  pub serial : ℕ
  pub violation : List ℕ
  pub uuid : ℕ
  pub locked : ℕ → Bool

-- The database, and the number of statements that ran.
pub record World : Type 0 where
  pub db : Db
  pub tick : ℕ

pub data Outcome {ℓ} (A : Type ℓ) : Type ℓ where
  ok : A → Outcome A
  raised : Exn → Outcome A

abbrev pub Session : Type 0 → Type 0
Session A = World → Outcome A × World

module _ {A : Type 0} where
  unfoldable pub pure : A → Session A
  pure a w = (ok a, w)

  unfoldable pub raise : Exn → Session A
  raise e w = (raised e, w)

  -- `try: ... except`: what was committed before the exception stays.
  unfoldable pub try_except : Session A → (Exn → Session A) → Session A
  try_except m handler w =
      let (r, w') = m w in elim r [ ok a ↦ (ok a, w') | raised e ↦ handler e w' ]

infixl 5 ◌>>=◌
unfoldable pub ◌>>=◌ : {A B : Type 0} → Session A → (A → Session B) → Session B
◌>>=◌ m f w = let (r, w') = m w in elim r [ ok a ↦ f a w' | raised e ↦ (raised e, w') ]

-- The others go first; a fault leaves what they did, and the statement has no effect.
abbrev pub settle : {A : Type 0} → Option (List ℕ) → A × Db → Db → ℕ → Outcome A × World
settle none (a, d') d n = (ok a, record { db = d'; tick = suc n })
settle (some text) r d n = (raised (sqlalchemy_error text), record { db = d; tick = suc n })

-- One statement, with its commit.
unfoldable pub statement : {A : Type 0} → (ℕ → Moment) → (Moment → Db → A × Db) → Session A
statement env f w = let m = env w.tick in let d = m.others w.db in settle m.fault (f m d) d w.tick

-- A statement that only reads.
unfoldable pub query : {A : Type 0} → (ℕ → Moment) → (Db → A) → Session A
query env f = statement env (λ m d. (f d, d))
