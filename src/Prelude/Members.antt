-- ===== src/Prelude/Members.antt =====
-- Membership in tables: what a select returns, and what a unique key gives.
use mathlib.Core.List.Memᴰ
use system_uni.Prelude.Tests.{if◌then◌else◌, Bool-cases}
use system_uni.Prelude.Rows.{update_where, find?, select_where, any, all, is_unique}
use mathlib.Core.Path.{◌≡◌, refl, sym, ◌∙◌, ap}
use mathlib.Core.Logic.{◌⊎◌, inl, inr}
use mathlib.Core.Bool.{Bool, true, false}
use mathlib.Core.Option.{some}
use mathlib.Core.List.{List, [], ◌∷◌, ◌++◌, Memᴰ}
use native.Mathlib.Omega.{arith}

module _ {ℓ} {A : Type ℓ} where
  mem-if :
      (b : Bool) {a x : A} {ys : List A}
      → Memᴰ a (if b then x ∷ ys else ys)
      → ((b ≡ true) × (a ≡ x)) ⊎ Memᴰ a ys
  mem-if true m = keep (Memᴰ.cases_cons m)
    where
      keep : {a x : A} {ys : List A} → (a ≡ x) ⊎ Memᴰ a ys → ((true ≡ true) × (a ≡ x)) ⊎ Memᴰ a ys
      keep (inl e) = inl (refl, e)
      keep (inr k) = inr k
  mem-if false m = inr m

  -- What a select returns passes the test and stands in the table.
  pub select_where_sound :
      (p : A → Bool) {a : A} (xs : List A) → Memᴰ a (select_where p xs) → (p a ≡ true) × Memᴰ a xs
  select_where_sound p [] m = absurd (Memᴰ.not-nil m)
  select_where_sound p {a} (x ∷ xs) m =
      elim (mem-if (p x) {a = a} {x = x} {ys = select_where p xs} m) [
        | inl (e, h) ↦ (ap p h ∙ e, Memᴰ.head h)
        | inr k ↦ let (h, k') = select_where_sound p xs k in (h, Memᴰ.tail k')
      ]

  if-mem : (b : Bool) {a : A} (x : A) {ys : List A} → Memᴰ a ys → Memᴰ a (if b then x ∷ ys else ys)
  if-mem true x m = Memᴰ.tail m
  if-mem false x m = m

  if-mem_head :
      (b : Bool) {a x : A} (ys : List A) → b ≡ true → a ≡ x → Memᴰ a (if b then x ∷ ys else ys)
  if-mem_head true ys h e = Memᴰ.head e
  if-mem_head false ys h e = cc

  -- A row of the table that passes the test is returned.
  pub select_where_complete :
      (p : A → Bool) {a : A} (xs : List A) → p a ≡ true → Memᴰ a xs → Memᴰ a (select_where p xs)
  select_where_complete p [] h m = m
  select_where_complete p (x ∷ xs) h (Memᴰ.head e) = if-mem_head (p x) _ (ap p (sym e) ∙ h) e
  select_where_complete p (x ∷ xs) h (Memᴰ.tail m) = if-mem (p x) x (select_where_complete p xs h m)

  -- A row that `find?` returns stands in the table.
  pub find?_mem : (p : A → Bool) {a : A} (xs : List A) → find? p xs ≡ some a → Memᴰ a xs
  find?_mem p [] h = cc
  find?_mem p (x ∷ xs) h = elim (Bool-cases (p x)) [
    | inl e ↦ Memᴰ.head (ground arith)
    | inr e ↦ Memᴰ.tail (find?_mem p xs (rw e at h))
  ]

  any-false : (p : A → Bool) {a : A} (xs : List A) → any p xs ≡ false → Memᴰ a xs → p a ≡ false
  any-false p [] h m = absurd (Memᴰ.not-nil m)
  any-false p (x ∷ xs) h (Memᴰ.head e) = rw e (ground arith)
  any-false p (x ∷ xs) h (Memᴰ.tail m) = any-false p xs (ground arith) m

  pub all_mem : (p : A → Bool) {a : A} (xs : List A) → all p xs ≡ true → Memᴰ a xs → p a ≡ true
  all_mem p [] h m = absurd (Memᴰ.not-nil m)
  all_mem p (x ∷ xs) h (Memᴰ.head e) = rw e (ground arith)
  all_mem p (x ∷ xs) h (Memᴰ.tail m) = all_mem p xs (ground arith) m

  -- Where any two rows that pass a test collide on a unique key, a row that passes is the one found.
  pub find?-of_unique :
      (clash : A → A → Bool) (p : A → Bool) {a : A} (xs : List A)
      → ((x y : A) → p x ≡ true → p y ≡ true → clash x y ≡ true)
      → is_unique clash xs ≡ true
      → Memᴰ a xs
      → p a ≡ true
      → find? p xs ≡ some a
  find?-of_unique clash p [] key u m h = absurd (Memᴰ.not-nil m)
  find?-of_unique clash p (x ∷ xs) key u (Memᴰ.head e) h = rw (sym (ap p e) ∙ h) (ap some (sym e))
  find?-of_unique clash p {a} (x ∷ xs) key u (Memᴰ.tail m) h = elim (Bool-cases (p x)) [
    | inl e ↦ absurd (clash_twice (key x a e h) (any-false (clash x) xs (ground arith) m))
    | inr e ↦ rw e (find?-of_unique clash p xs key (ground arith) m h)
  ]
    where
      clash_twice : {b : Bool} → b ≡ true → b ≡ false → ⊥
      clash_twice t f = cc

  pub mem_last : (xs : List A) (x : A) → Memᴰ x (xs ++ x ∷ [])
  mem_last [] x = Memᴰ.head refl
  mem_last (y ∷ ys) x = Memᴰ.tail (mem_last ys x)

  -- An update that matches a row leaves its new version in the table.
  pub any-update_where_mem :
      (p : A → Bool) (f : A → A) (xs : List A)
      → any p xs ≡ true
      → (x : A) × (p x ≡ true) × Memᴰ (f x) (update_where p f xs)
  any-update_where_mem p f [] h = absurd (clash h)
    where
      clash : false ≡ true → ⊥
      clash e = cc
  any-update_where_mem p f (x ∷ xs) h = elim (Bool-cases (p x)) [
    | inl e ↦ (x, e, Memᴰ.head (rw e refl))
    | inr e ↦ let (y, q, m) = any-update_where_mem p f xs (ground arith) in (y, q, Memᴰ.tail m)
  ]
