-- ===== src/Session/Laws.antt =====
-- Relations between the database before and after a session, and what a session ensures at its end.
use system_uni.Prelude.{Bool, true, false, if◌then◌else◌, ℕ, List, Option, none, some}
use system_uni.Models.{Db}
use system_uni.Session.Monad.{
  Exn, Moment, World, Outcome, ok, raised, Session, pure, raise, try_except, ◌>>=◌, statement,
  query, settle,
}

-- A reflexive and transitive relation between the database before and after.
pub record Preorder (R : Db → Db → Type 0) : Type 0 where
  pub reflexive : (d : Db) → R d d
  pub transitive : (a b c : Db) → R a b → R b c → R a c

-- The rely condition: between two statements, the others respect the relation.
abbrev pub Respects : (Db → Db → Type 0) → (ℕ → Moment) → Type 0
Respects R env = (n : ℕ) (d : Db) → R d ((env n).others d)

-- The guarantee of a computation: whatever it does, the relation holds of the database before and
-- after.
pub record Guarantees {A : Type 0} (R : Db → Db → Type 0) (m : Session A) : Type 0 where
  pub kept : (w : World) → R w.db (m w).1.db

abbrev pub Holds : {A : Type 0} → (A → Db → Type 0) → Outcome A × World → Type 0
Holds P (ok a, w) = P a w.db
Holds P (raised e, w) = Unit

-- What a computation ensures of its result and the last state, if it returns.
pub record Ensures {A : Type 0} (P : A → Db → Type 0) (m : Session A) : Type 0 where
  pub ensured : (w : World) → Holds P (m w)

module _ (R : Db → Db → Type 0) (order : Preorder R) where
  pub pure-Guarantees : {A : Type 0} (a : A) → Guarantees R (pure a)
  unfolding pure
  pure-Guarantees a = record { kept = λ w. order.reflexive w.db }

  pub raise-Guarantees : (A : Type 0) (e : Exn) → Guarantees R (raise {A = A} e)
  unfolding raise
  raise-Guarantees A e = record { kept = λ w. order.reflexive w.db }

  pub >>=-Guarantees :
      {A B : Type 0} (m : Session A) (f : A → Session B)
      → Guarantees R m
      → ((a : A) → Guarantees R (f a))
      → Guarantees R (m >>= f)
  unfolding ◌>>=◌
  >>=-Guarantees {A} {B} m f hm hf = record { kept = λ w. go w (m w) (hm.kept w) }
    where
      go :
          (w : World) (r : Outcome A × World)
          → R w.db r.1.db
          → R w.db
              (let (o, w') = r in
                let s : Outcome B × World = elim o [ ok a ↦ f a w' | raised e ↦ (raised e, w') ] in
                s).1.db
      go w (ok a, w') h = order.transitive w.db w'.db (f a w').1.db h ((hf a).kept w')
      go w (raised e, w') h = h

  pub try_except-Guarantees :
      {A : Type 0} (m : Session A) (handler : Exn → Session A)
      → Guarantees R m
      → ((e : Exn) → Guarantees R (handler e))
      → Guarantees R (try_except m handler)
  unfolding try_except
  try_except-Guarantees {A} m handler hm hh = record { kept = λ w. go w (m w) (hm.kept w) }
    where
      go :
          (w : World) (r : Outcome A × World)
          → R w.db r.1.db
          → R w.db
              (let (o, w') = r in
                let s : Outcome A × World = elim o [
                  | ok a ↦ (ok a, w')
                  | raised e ↦ handler e w'
                ] in
                s).1.db
      go w (ok a, w') h = h
      go w (raised e, w') h = order.transitive w.db w'.db (handler e w').1.db h ((hh e).kept w')

  pub statement-Guarantees :
      {A : Type 0} (env : ℕ → Moment) (f : Moment → Db → A × Db)
      → Respects R env
      → ((m : Moment) (d : Db) → R d (f m d).1)
      → Guarantees R (statement env f)
  unfolding statement
  statement-Guarantees {A} env f rely hf = record {
    kept = λ w.
        let m = env w.tick in
        let d = m.others w.db in
        go w m.fault (f m d) d (rely w.tick w.db)
          (order.transitive w.db d (f m d).1 (rely w.tick w.db) (hf m d));
  }
    where
      go :
          (w : World) (fault : Option (List ℕ)) (r : A × Db) (d : Db)
          → R w.db d
          → R w.db r.1
          → R w.db (settle fault r d w.tick).1.db
      go w none (a, d') d h k = k
      go w (some text) r d h k = h

  pub query-Guarantees :
      {A : Type 0} (env : ℕ → Moment) (f : Db → A) → Respects R env → Guarantees R (query env f)
  unfolding query
  query-Guarantees env f rely =
      statement-Guarantees env (λ m d. (f d, d)) rely (λ m d. order.reflexive d)

pub if-Guarantees :
    (R : Db → Db → Type 0) {A : Type 0} (b : Bool) {m n : Session A}
    → Guarantees R m
    → Guarantees R n
    → Guarantees R (if b then m else n)
if-Guarantees R true h k = h
if-Guarantees R false h k = k

pub always : {A : Type 0} (m : Session A) → Ensures (λ (a : A) d. Unit {0}) m
always {A} m = record { ensured = λ w. go (m w) }
  where
    go : (r : Outcome A × World) → Holds (λ (a : A) d. Unit {0}) r
    go (ok a, w) = tt
    go (raised e, w) = tt

module _ {A : Type 0} (P : A → Db → Type 0) where
  pub raise-Ensures : (e : Exn) → Ensures P (raise e)
  unfolding raise
  raise-Ensures e = record { ensured = λ w. tt }

  -- The result of a `pure` whose claim does not rest on the state.
  pub pure-Ensures : (a : A) → ((d : Db) → P a d) → Ensures P (pure a)
  unfolding pure
  pure-Ensures a h = record { ensured = λ w. h w.db }

  -- What follows may use what the first computation has ensured.
  pub >>=-Ensures :
      {B : Type 0} (Q : B → Db → Type 0) (m : Session B) (f : B → Session A)
      → Ensures Q m
      → ((b : B) (w : World) → Q b w.db → Holds P (f b w))
      → Ensures P (m >>= f)
  unfolding ◌>>=◌
  >>=-Ensures {B} Q m f hm hf = record { ensured = λ w. go (m w) (hm.ensured w) }
    where
      go :
          (r : Outcome B × World)
          → Holds Q r
          → Holds P (let (o, w') = r in elim o [ ok b ↦ f b w' | raised e ↦ (raised e, w') ])
      go (ok b, w') h = hf b w' h
      go (raised e, w') h = tt

  pub statement-Ensures :
      (env : ℕ → Moment) (f : Moment → Db → A × Db)
      → ((m : Moment) (d : Db) → P (f m d).0 (f m d).1)
      → Ensures P (statement env f)
  unfolding statement
  statement-Ensures env f hf = record {
    ensured = λ w. let m = env w.tick in let d = m.others w.db in go w m.fault (f m d) d (hf m d);
  }
    where
      go :
          (w : World) (fault : Option (List ℕ)) (r : A × Db) (d : Db)
          → P r.0 r.1
          → Holds P (settle fault r d w.tick)
      go w none (a, d') d h = h
      go w (some text) r d h = tt

  pub try_except-Ensures :
      (m : Session A) (handler : Exn → Session A)
      → Ensures P m
      → ((e : Exn) → Ensures P (handler e))
      → Ensures P (try_except m handler)
  unfolding try_except
  try_except-Ensures m handler hm hh = record { ensured = λ w. go (m w) (hm.ensured w) }
    where
      go :
          (r : Outcome A × World)
          → Holds P r
          → Holds P (
              let (o, w') = r in
              let s : Outcome A × World = elim o [ ok a ↦ (ok a, w') | raised e ↦ handler e w' ] in
              s)
      go (ok a, w') h = h
      go (raised e, w') h = (hh e).ensured w'
