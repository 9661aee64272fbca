-- ===== src/Crud/Columns.antt =====
-- Columns and pages: which columns an update really writes, and ORDER BY with OFFSET and LIMIT.
pub mod Members
use system_uni.Prelude.{
  ℕ, Option, none, some, Bool, true, false, List, [], ◌∷◌, leb, if◌then◌else◌, take, drop, length,
  ◌≤◌, length-take-le,
}

-- The columns that an assignment really changes: SQLAlchemy writes no column whose value is the one
-- that was loaded.
abbrev pub net {ℓ} : {A : Type ℓ} → (A → A → Bool) → Option A → A → Option A
net same none old = none
net same (some v) old = if same v old then none else some v

abbrev pub same_bool : Bool → Bool → Bool
same_bool true b = b
same_bool false true = false
same_bool false false = true

unfoldable pub insert_by {ℓ} : {A : Type ℓ} → (A → ℕ) → A → List A → List A
insert_by key a [] = a ∷ []
insert_by key a (x ∷ xs) = if leb (key a) (key x) then a ∷ x ∷ xs else x ∷ insert_by key a xs

-- `order_by(key)`.
unfoldable pub order_by {ℓ} : {A : Type ℓ} → (A → ℕ) → List A → List A
order_by key [] = []
order_by key (x ∷ xs) = insert_by key x (order_by key xs)

-- `order_by(key).offset(skip).limit(limit)`.
unfoldable pub page {ℓ} : {A : Type ℓ} → (A → ℕ) → ℕ → ℕ → List A → List A
page key skip limit xs = take limit (drop skip (order_by key xs))
