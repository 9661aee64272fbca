-- ===== src/Worker/Claim/First.antt =====
-- `first_by_order` and the ORDER BY order.
use mathlib.Core.List.Memᴰ
use system_uni.Prelude.{
  ◌≡◌, ◌⊎◌, Option, none, some, true, List, [], ◌∷◌, Memᴰ, arith, inl, inr, Bool-cases,
  Option-cases,
}
use system_uni.Models.{Job}
use system_uni.Worker.Claim.{sort_key, earlier, first_by_order}
use system_uni.Worker.Claim.Order.{lex_le, lex_le_refl, lex_le_total, lex_le_trans}

earlier_cases : (a : Job) (r : Option Job) {j : Job} → earlier a r ≡ some j → (j ≡ a) ⊎ (r ≡ some j)
earlier_cases a none h = inl (ground arith)
earlier_cases a (some b) h = elim (Bool-cases (lex_le (sort_key a) (sort_key b))) [
  | inl e ↦ inl (ground arith)
  | inr e ↦ inr (ground arith)
]

earlier-le :
    (a : Job) (r : Option Job) {j : Job}
    → earlier a r ≡ some j
    → lex_le (sort_key j) (sort_key a) ≡ true
earlier-le a none {j} h = let e : j ≡ a = ground arith in rw e (lex_le_refl (sort_key a))
earlier-le a (some b) {j} h = elim (Bool-cases (lex_le (sort_key a) (sort_key b))) [
  | inl e ↦ let same : j ≡ a = ground arith in rw same (lex_le_refl (sort_key a))
  | inr e ↦ let same : j ≡ b = ground arith in rw same (lex_le_total (sort_key a) (sort_key b) e)
]

earlier-le_rest :
    (a b : Job) {j : Job} → earlier a (some b) ≡ some j → lex_le (sort_key j) (sort_key b) ≡ true
earlier-le_rest a b {j} h = elim (Bool-cases (lex_le (sort_key a) (sort_key b))) [
  | inl e ↦ let same : j ≡ a = ground arith in rw same e
  | inr e ↦ let same : j ≡ b = ground arith in rw same (lex_le_refl (sort_key b))
]

pub first_by_order_mem : (jobs : List Job) {j : Job} → first_by_order jobs ≡ some j → Memᴰ j jobs
unfolding first_by_order
first_by_order_mem [] h = cc
first_by_order_mem (x ∷ xs) h = elim (earlier_cases x (first_by_order xs) h) [
  | inl e ↦ Memᴰ.head e
  | inr e ↦ Memᴰ.tail (first_by_order_mem xs e)
]

pub first_by_order-none : (jobs : List Job) {x : Job} → first_by_order jobs ≡ none → ¬ Memᴰ x jobs
unfolding first_by_order
first_by_order-none [] h m = Memᴰ.not-nil m
first_by_order-none (x ∷ xs) h m = elim (Option-cases (first_by_order xs)) [
  | inl e ↦ ground arith
  | inr (b, e) ↦ ground arith
]

-- No row of the list comes before the first.
pub first_by_order_least :
    (jobs : List Job) {j x : Job}
    → first_by_order jobs ≡ some j
    → Memᴰ x jobs
    → lex_le (sort_key j) (sort_key x) ≡ true
unfolding first_by_order
first_by_order_least [] h m = cc
first_by_order_least (y ∷ xs) {j} h (Memᴰ.head e) = rw e (earlier-le y (first_by_order xs) h)
first_by_order_least (y ∷ xs) {j} {x} h (Memᴰ.tail m) = elim (Option-cases (first_by_order xs)) [
  | inl e ↦ absurd (first_by_order-none xs e m)
  | inr (b, e) ↦
      lex_le_trans (sort_key j) (sort_key b) (sort_key x) (earlier-le_rest y b (rw e at h))
        (first_by_order_least xs e m)
]
