-- ===== src/Worker/System/Programs.antt =====
-- Rules for programs whose statements are steps of the queue's transition system.
use system_uni.Prelude.{ℕ, Bool, true, false, if◌then◌else◌, refl}
use system_uni.Models.{Db}
use system_uni.Session.{
  Session, Moment, Exn, Respects, Guarantees, pure-Guarantees, raise-Guarantees, >>=-Guarantees,
  try_except-Guarantees, statement-Guarantees, query-Guarantees, pure, raise, try_except, ◌>>=◌,
  statement, query,
}
use system_uni.Worker.Reconcile.{reconcile_reported_job}
use system_uni.Worker.System.{
  SystemStep, SystemSteps, SystemSteps-Preorder, start, after, reconciles,
}

pub if-Guarantees :
    {A : Type 0} (b : Bool) (m n : Session A)
    → Guarantees SystemSteps m
    → Guarantees SystemSteps n
    → Guarantees SystemSteps (if b then m else n)
if-Guarantees true m n hm hn = hm
if-Guarantees false m n hm hn = hn

pub return : {A : Type 0} (a : A) → Guarantees SystemSteps (pure a)
return a = pure-Guarantees SystemSteps SystemSteps-Preorder a

pub throw : (A : Type 0) (e : Exn) → Guarantees SystemSteps (raise {A = A} e)
throw A e = raise-Guarantees SystemSteps SystemSteps-Preorder A e

pub sequence :
    {A B : Type 0} (m : Session A) (f : A → Session B)
    → Guarantees SystemSteps m
    → ((a : A) → Guarantees SystemSteps (f a))
    → Guarantees SystemSteps (m >>= f)
sequence m f = >>=-Guarantees SystemSteps SystemSteps-Preorder m f

pub attempt :
    {A : Type 0} (m : Session A) (handler : Exn → Session A)
    → Guarantees SystemSteps m
    → ((e : Exn) → Guarantees SystemSteps (handler e))
    → Guarantees SystemSteps (try_except m handler)
attempt m handler = try_except-Guarantees SystemSteps SystemSteps-Preorder m handler

module _ (env : ℕ → Moment) (rely : Respects SystemSteps env) where
  pub read : {A : Type 0} (f : Db → A) → Guarantees SystemSteps (query env f)
  read f = query-Guarantees SystemSteps SystemSteps-Preorder env f rely

  pub reconcile :
      (k : ℕ) → Guarantees SystemSteps (statement env (λ m d. reconcile_reported_job k m.now d))
  reconcile k =
      statement-Guarantees SystemSteps SystemSteps-Preorder env
        (λ m d. reconcile_reported_job k m.now d) rely
        (λ m d. after start (reconciles k m.now refl))

  pub step :
      {A : Type 0} (f : Moment → Db → A × Db)
      → ((m : Moment) (d : Db) → SystemStep d (f m d).1)
      → Guarantees SystemSteps (statement env f)
  step f hf =
      statement-Guarantees SystemSteps SystemSteps-Preorder env f rely (λ m d. after start (hf m d))
