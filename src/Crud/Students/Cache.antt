-- ===== src/Crud/Students/Cache.antt =====
-- The cache entry of one student under concurrent requests: `read_student` loads the row in one step
-- and writes the entry in a later one, `update_student`, `link_student_to_user` and `delete_student`
-- commit in one step and drop the entry in a later one.
use system_uni.Prelude.{
  ℕ, suc, ◌≡◌, ◌⊎◌, inl, inr, refl, Option, none, some, sym, Bool, true, false, List, [], ◌∷◌, ◌++◌,
  arith,
}
use system_uni.Models.{Student}
use system_uni.Crud.Accounts.{unlink, linked_to}
use system_uni.Crud.Students.{StudentUpdate, assigned_student, write_student}
use system_uni.Crud.Students.Links.{link_columns}

-- The committed row, the entry, the rows that readers have loaded and not written yet, and the number
-- of requests that have committed and not dropped the entry yet.
pub record Cached : Type 0 where
  pub row : Option Student
  pub entry : Option Student
  pub loads : List Student
  pub commits : ℕ

pub data CacheStep (c : Cached) (c' : Cached) : Type 0 where
  -- The SELECT of an admin's read that missed the cache.
  load : (s : Student) → c.row ≡ some s → c' ≡ record c { loads = s ∷ c.loads } → CacheStep c c'
  -- `_write_cached_student`, and the same where Redis fails.
  store :
      (before rest : List Student) (s : Student)
      → c.loads ≡ before ++ s ∷ rest
      → c' ≡ record c { entry = some s; loads = before ++ rest }
      → CacheStep c c'
  store_lost :
      (before rest : List Student) (s : Student)
      → c.loads ≡ before ++ s ∷ rest
      → c' ≡ record c { loads = before ++ rest }
      → CacheStep c c'
  -- The commits of `update_student`, with the row that it loaded and with and without a column that
  -- changes, of `link_student_to_user` and of `delete_student`.
  update :
      (s loaded : Student) (u : StudentUpdate)
      → c.row ≡ some s
      → loaded.version_id ≡ s.version_id
      → c' ≡ record c {
        row = some (write_student loaded.version_id (assigned_student u loaded) s);
        commits = suc c.commits;
      }
      → CacheStep c c'
  keep : (s : Student) → c.row ≡ some s → c' ≡ record c { commits = suc c.commits } → CacheStep c c'
  link :
      (s : Student) (user_id : ℕ)
      → c.row ≡ some s
      → s.user_id ≡ none
      → c' ≡ record c {
        row = some (write_student s.version_id (link_columns user_id) s);
        commits = suc c.commits;
      }
      → CacheStep c c'
  removal :
      (s : Student)
      → c.row ≡ some s
      → c' ≡ record c { row = none; commits = suc c.commits }
      → CacheStep c c'
  -- `_invalidate_student_cache`, and the same where Redis fails.
  invalidate :
      (n : ℕ) → c.commits ≡ suc n → c' ≡ record c { entry = none; commits = n } → CacheStep c c'
  invalidate_lost : (n : ℕ) → c.commits ≡ suc n → c' ≡ record c { commits = n } → CacheStep c c'
  -- The commit of `delete_user`, which unlinks the student and has no part in the cache.
  elsewhere :
      (s : Student) (user_id : ℕ)
      → c.row ≡ some s
      → linked_to user_id s ≡ true
      → c' ≡ record c { row = some (unlink s) }
      → CacheStep c c'
  -- `ex=60`.
  expire : c' ≡ record c { entry = none } → CacheStep c c'

abbrev pub is_empty : List Student → Bool
is_empty [] = true
is_empty (x ∷ xs) = false

-- The steps that happen while Redis does not fail as an entry is dropped, no row changes behind the
-- cache, and no row is written while a reader is between its load and its write.
abbrev pub is_ordered : (c c' : Cached) → CacheStep c c' → Bool
is_ordered c c' (load s h e) = true
is_ordered c c' (store before rest s h e) = true
is_ordered c c' (store_lost before rest s h e) = true
is_ordered c c' (update s loaded u h v e) = is_empty c.loads
is_ordered c c' (keep s h e) = true
is_ordered c c' (link s user_id h n e) = is_empty c.loads
is_ordered c c' (removal s h e) = is_empty c.loads
is_ordered c c' (invalidate n h e) = true
is_ordered c c' (invalidate_lost n h e) = false
is_ordered c c' (elsewhere s user_id h l e) = false
is_ordered c c' (expire e) = true

-- Runs of the steps that a test allows.
pub data Run (allowed : (c c' : Cached) → CacheStep c c' → Bool) (c : Cached)
    : Cached → Type 0 where
  start : Run allowed c c
  after :
      {d e : Cached}
      → Run allowed c d
      → (st : CacheStep d e) → allowed d e st ≡ true
      → Run allowed c e

abbrev pub AllAre : Option Student → List Student → Type 0
AllAre r [] = Unit
AllAre r (x ∷ xs) = (r ≡ some x) × AllAre r xs

-- The entry is not older than the row: there is none, or it is the row.
abbrev pub IsFresh : Cached → Type 0
IsFresh c = (c.entry ≡ none) ⊎ (c.entry ≡ c.row)

-- What an ordered run keeps: loaded rows are current, and the entry is fresh unless it is about to be
-- dropped.
pub record IsCoherent (c : Cached) : Type 0 where
  pub current : AllAre c.row c.loads
  pub fresh : c.commits ≡ 0 → IsFresh c

AllAre-split :
    (r : Option Student) (xs : List Student) (s : Student) (ys : List Student)
    → AllAre r (xs ++ s ∷ ys)
    → (r ≡ some s) × AllAre r (xs ++ ys)
AllAre-split r [] s ys h = h
AllAre-split r (x ∷ xs) s ys (e, h) = let (p, q) = AllAre-split r xs s ys h in (p, (e, q))

empty_AllAre : (r : Option Student) (xs : List Student) → is_empty xs ≡ true → AllAre r xs
empty_AllAre r [] h = tt
empty_AllAre r (x ∷ xs) h = cc

committed_IsCoherent :
    (c : Cached) (r : Option Student)
    → is_empty c.loads ≡ true
    → IsCoherent (record c { row = r; commits = suc c.commits })
committed_IsCoherent c r o = record {
  current = empty_AllAre r c.loads o;
  fresh = λ z. absurd (omega (arith, z));
}

CacheStep-IsCoherent :
    {c c' : Cached} (st : CacheStep c c') → is_ordered c c' st ≡ true → IsCoherent c → IsCoherent c'
CacheStep-IsCoherent (load s h e) o i = rw e (record { current = (h, i.current); fresh = i.fresh })
CacheStep-IsCoherent {c} (store before rest s h e) o i =
    let (p, q) = AllAre-split c.row before s rest (rw h at i.current) in
    rw e (record { current = q; fresh = λ z. inr (sym p) })
CacheStep-IsCoherent {c} (store_lost before rest s h e) o i =
    let (p, q) = AllAre-split c.row before s rest (rw h at i.current) in
    rw e (record { current = q; fresh = i.fresh })
CacheStep-IsCoherent {c} (update s loaded u h v e) o i = rw e (committed_IsCoherent c _ o)
CacheStep-IsCoherent (keep s h e) o i =
    rw e (record { current = i.current; fresh = λ z. absurd (omega (arith, z)) })
CacheStep-IsCoherent {c} (link s user_id h n e) o i = rw e (committed_IsCoherent c _ o)
CacheStep-IsCoherent {c} (removal s h e) o i = rw e (committed_IsCoherent c none o)
CacheStep-IsCoherent (invalidate n h e) o i =
    rw e (record { current = i.current; fresh = λ z. inl refl })
CacheStep-IsCoherent (invalidate_lost n h e) o i = cc
CacheStep-IsCoherent (elsewhere s user_id h l e) o i = cc
CacheStep-IsCoherent (expire e) o i = rw e (record { current = i.current; fresh = λ z. inl refl })

abbrev pub cold : Option Student → Cached
cold r = record { row = r; entry = none; loads = []; commits = 0 }

Run-IsCoherent : {c d : Cached} → Run is_ordered c d → IsCoherent c → IsCoherent d
Run-IsCoherent start i = i
Run-IsCoherent (after r st o) i = CacheStep-IsCoherent st o (Run-IsCoherent r i)

-- From a cold cache, along any run in which no row is committed between a reader's load and its write,
-- no row changes behind the cache and no invalidation is lost: once every request that committed has
-- dropped the entry, the cache holds nothing or the current row.
pub Run-IsFresh :
    (r : Option Student) {c : Cached} → Run is_ordered (cold r) c → c.commits ≡ 0 → IsFresh c
Run-IsFresh r steps z =
    (Run-IsCoherent steps (record { current = tt; fresh = λ e. inl refl })).fresh z
