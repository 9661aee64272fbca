-- ===== src/Crud/Accounts/Admins/Rows.antt =====
-- Which admins are left when one row of `users` is removed or overwritten.
use system_uni.Prelude.{
  ℕ, ◌≤◌, ◌≡◌, refl, some, some_injective, ap, Bool, true, false, not, ◌&&◌, ◌||◌, List, [], ◌∷◌,
  ◌==◌, str_eq, if◌then◌else◌, find?, select_where, update_where, any, is_unique, length, arith,
}
use system_uni.Models.{User}
use system_uni.Crud.Accounts.{is_admin}

abbrev pub users_clash : User → User → Bool
users_clash a b = a.id == b.id || str_eq a.username b.username || str_eq a.email b.email

abbrev pub admin_with_key : ℕ → List User → Bool
admin_with_key k xs = any (λ (u : User). u.id == k && is_admin u) xs

-- Whether a user other than `k` is an admin.
abbrev pub other_admin : ℕ → List User → Bool
other_admin k xs = any is_admin (select_where (λ (u : User). not (u.id == k)) xs)

no_clash-key :
    (k : ℕ) (x : User) (xs : List User)
    → (x.id == k) ≡ true
    → any (users_clash x) xs ≡ false
    → admin_with_key k xs ≡ false
no_clash-key k x [] e h = refl
no_clash-key k x (y ∷ ys) e h = ground (arith, no_clash-key k x ys e)

no_admin :
    (k : ℕ) (xs : List User)
    → admin_with_key k xs ≡ false
    → other_admin k xs ≡ false
    → length (select_where is_admin xs) ≡ 0
no_admin k [] h o = refl
no_admin k (x ∷ xs) h o = ground (arith, no_admin k xs)

-- If no other user is an admin, there is at most one.
pub other_admin-none :
    (k : ℕ) (xs : List User)
    → is_unique users_clash xs ≡ true
    → other_admin k xs ≡ false
    → length (select_where is_admin xs) ≤ 1
other_admin-none k [] u o = ground arith
other_admin-none k (x ∷ xs) u o =
    ground (arith, other_admin-none k xs, no_admin k xs, no_clash-key k x xs)

pub other_admin-stays :
    (k : ℕ) (xs : List User)
    → any is_admin xs ≡ true
    → admin_with_key k xs ≡ false
    → other_admin k xs ≡ true
other_admin-stays k [] h n = h
other_admin-stays k (x ∷ xs) h n = ground (arith, other_admin-stays k xs)

pub any-update_where :
    (k : ℕ) (f : User → User) (xs : List User)
    → other_admin k xs ≡ true
    → any is_admin (update_where (λ (u : User). u.id == k) f xs) ≡ true
any-update_where k f [] h = h
any-update_where k f (x ∷ xs) h = ground (arith, any-update_where k f xs)

-- A change that takes the role from no admin.
pub update_where-keeps_admin :
    (k : ℕ) (f : User → User) (xs : List User)
    → ((u : User) → is_admin u ≡ true → is_admin (f u) ≡ true)
    → any is_admin xs ≡ true
    → any is_admin (update_where (λ (u : User). u.id == k) f xs) ≡ true
update_where-keeps_admin k f [] keeps h = h
update_where-keeps_admin k f (x ∷ xs) keeps h =
    ground (arith, update_where-keeps_admin k f xs keeps, keeps x)

unique_tail :
    (x : User) (xs : List User)
    → is_unique users_clash (x ∷ xs) ≡ true
    → is_unique users_clash xs ≡ true
unique_tail x xs h = ground arith

-- The row that was found is the only one of its key.
pub find-key_admin :
    (k : ℕ) (xs : List User) (u : User)
    → is_unique users_clash xs ≡ true
    → find? (λ (x : User). x.id == k) xs ≡ some u
    → is_admin u ≡ false
    → admin_with_key k xs ≡ false
find-key_admin k [] u q h n = refl
find-key_admin k (x ∷ xs) u q h n =
    go (x.id == k) refl h (find-key_admin k xs u (unique_tail x xs q))
  where
    go :
        (b : Bool)
        → (x.id == k) ≡ b
        → (if b then some x else find? (λ (y : User). y.id == k) xs) ≡ some u
        → (find? (λ (y : User). y.id == k) xs ≡ some u
            → is_admin u ≡ false
            → admin_with_key k xs ≡ false)
        → admin_with_key k (x ∷ xs) ≡ false
    go true e f rest =
        let same : is_admin x ≡ is_admin u = ap is_admin (some_injective f) in
        ground (arith, no_clash-key k x xs)
    go false e f rest = ground (arith, rest f n)
