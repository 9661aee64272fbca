-- ===== src/Crud/Columns/Members.antt =====
-- The rows of a page.
use mathlib.Core.List.Memᴰ
use system_uni.Prelude.{
  ℕ, zero, suc, ◌≡◌, ◌≤◌, Bool, true, false, List, [], ◌∷◌, Memᴰ, length, length-take-le, take,
  drop, if◌then◌else◌, leb, inl, inr, ◌⊎◌,
}
use system_uni.Crud.Columns.{insert_by, order_by, page}

mem_under {ℓ} :
    {A : Type ℓ} {e x y : A} {ys : List A} → (e ≡ x) ⊎ Memᴰ e ys → (e ≡ x) ⊎ Memᴰ e (y ∷ ys)
mem_under (inl same) = inl same
mem_under (inr m) = inr (Memᴰ.tail m)

insert_by_mem {ℓ} :
    {A : Type ℓ} (key : A → ℕ) (x : A) (xs : List A) {e : A}
    → Memᴰ e (insert_by key x xs)
    → (e ≡ x) ⊎ Memᴰ e xs
unfolding insert_by
insert_by_mem key x [] m = Memᴰ.cases_cons m
insert_by_mem {A = A} key x (y ∷ ys) {e} m =
    go (leb (key x) (key y)) m (λ k. insert_by_mem key x ys k)
  where
    go :
        (b : Bool)
        → Memᴰ e (if b then x ∷ y ∷ ys else y ∷ insert_by key x ys)
        → (Memᴰ e (insert_by key x ys) → (e ≡ x) ⊎ Memᴰ e ys)
        → (e ≡ x) ⊎ Memᴰ e (y ∷ ys)
    go true k rest = Memᴰ.cases_cons k
    go false k rest = elim (Memᴰ.cases_cons k) [
      | inl same ↦ inr (Memᴰ.head same)
      | inr below ↦ mem_under (rest below)
    ]

order_by_mem {ℓ} :
    {A : Type ℓ} (key : A → ℕ) (xs : List A) {e : A} → Memᴰ e (order_by key xs) → Memᴰ e xs
unfolding order_by
order_by_mem key [] m = m
order_by_mem key (x ∷ xs) m = elim (insert_by_mem key x (order_by key xs) m) [
  | inl same ↦ Memᴰ.head same
  | inr rest ↦ Memᴰ.tail (order_by_mem key xs rest)
]

take_mem {ℓ} : {A : Type ℓ} (n : ℕ) (xs : List A) {e : A} → Memᴰ e (take n xs) → Memᴰ e xs
take_mem zero xs m = elim m [ ]
take_mem (suc n) [] m = m
take_mem (suc n) (x ∷ xs) m = elim (Memᴰ.cases_cons m) [
  | inl same ↦ Memᴰ.head same
  | inr rest ↦ Memᴰ.tail (take_mem n xs rest)
]

drop_mem {ℓ} : {A : Type ℓ} (n : ℕ) (xs : List A) {e : A} → Memᴰ e (drop n xs) → Memᴰ e xs
drop_mem zero xs m = m
drop_mem (suc n) [] m = m
drop_mem (suc n) (x ∷ xs) m = Memᴰ.tail (drop_mem n xs m)

-- A page shows rows of the table only.
pub page_mem {ℓ} :
    {A : Type ℓ} (key : A → ℕ) (skip limit : ℕ) (xs : List A) {e : A}
    → Memᴰ e (page key skip limit xs)
    → Memᴰ e xs
unfolding page
page_mem key skip limit xs m =
    order_by_mem key xs
      (drop_mem skip (order_by key xs) (take_mem limit (drop skip (order_by key xs)) m))

pub length-page {ℓ} :
    {A : Type ℓ} (key : A → ℕ) (skip limit : ℕ) (xs : List A)
    → length (page key skip limit xs) ≤ limit
unfolding page
length-page key skip limit xs = length-take-le limit (drop skip (order_by key xs))
