-- ===== src/Crud/Students/Reads.antt =====
-- `read_student` and `read_students` of app/crud/student.py. Redis gives what `_read_cached_student`
-- makes of its entry; what a read puts into the cache is part of its result.
use system_uni.Prelude.{
  ℕ, ◌≡◌, ◌⊎◌, inl, inr, refl, Option, none, some, Bool, true, false, ◌&&◌, List, ◌==◌, eq_column,
  String, if◌then◌else◌, find?, find?_passes, find?_mem, select_where, Memᴰ, arith,
}
use system_uni.Models.{Db, Student, User, UserRole, admin, user, guest}
use system_uni.Session.{Session, Moment, Ensures, query, pure, pure-Ensures, statement-Ensures}
use system_uni.Crud.Columns.{page}
use system_uni.Crud.Response.{Response, success, http_error}
use system_uni.Crud.Enrollment.{is_guest}
use system_uni.Security.{same_role}

unfoldable pub shown_student : UserRole → User → Student → Bool
shown_student user u s = eq_column s.user_id u.id
shown_student admin u s = true
shown_student guest u s = true

-- The client, if there is one: `none` for a miss, an outage or a corrupt entry.
pub record Redis : Type 0 where
  pub connected : Bool
  pub cached : ℕ → Option Student

-- The entry that the request may use.
unfoldable pub cache_hit : Redis → ℕ → User → Option Student
cache_hit redis k u = if same_role u.role admin && redis.connected then redis.cached k else none

-- What a read answers, and the row that it writes to the cache for 60 seconds.
pub record Read : Type 0 where
  pub response : Response Student
  pub cache_write : Option Student

abbrev pub refuse : ℕ → String → Read
refuse code detail = record { response = http_error code detail; cache_write = none }

unfoldable pub loaded_read : Redis → User → Option Student → Read
loaded_read redis u none = refuse 404 "Student not found"
loaded_read redis u (some s) = record {
  response = success s;
  cache_write = if same_role u.role admin && redis.connected then some s else none;
}

abbrev pub find_shown : ℕ → User → Db → Option Student
find_shown k u d = find? (λ (s : Student). s.id == k && shown_student u.role u s) d.students

module _ (env : ℕ → Moment) where
  unfoldable pub read_missed : Redis → ℕ → User → Option Student → Session Read
  read_missed redis k u (some s) = pure (record { response = success s; cache_write = none })
  read_missed redis k u none = query env (λ d. loaded_read redis u (find_shown k u d))

  unfoldable pub read_student : Redis → ℕ → User → Session Read
  read_student redis k u =
      if is_guest u.role
      then pure (refuse 403 "forbidden")
      else read_missed redis k u (cache_hit redis k u)

  unfoldable pub read_students : User → ℕ → ℕ → Session (Response (List Student))
  read_students u skip limit =
      if is_guest u.role
      then pure (http_error 403 "forbidden")
      else query env (λ d. success (
          page (λ (s : Student). s.id) skip limit
            (select_where (shown_student u.role u) d.students)))

-- A student that a role may be shown.
abbrev pub MaySee : UserRole → User → Student → Type 0
MaySee guest u s = ⊥
MaySee user u s = eq_column s.user_id u.id ≡ true
MaySee admin u s = Unit

shown_student-MaySee :
    (r : UserRole) (u : User) (s : Student)
    → is_guest r ≡ false
    → shown_student r u s ≡ true
    → MaySee r u s
unfolding shown_student
shown_student-MaySee guest u s g h = cc
shown_student-MaySee user u s g h = h
shown_student-MaySee admin u s g h = tt

-- The row of the table, which the caller may see; or, for an admin, the entry of the cache.
abbrev pub Shows : Redis → ℕ → User → Response Student → Db → Type 0
Shows redis k u (http_error code detail) d = Unit
Shows redis k u (success s) d =
    ((s.id ≡ k) × Memᴰ s d.students × MaySee u.role u s)
    ⊎ ((same_role u.role admin ≡ true) × (redis.cached k ≡ some s))

loaded_read-Shows :
    (redis : Redis) (k : ℕ) (u : User) (d : Db)
    → is_guest u.role ≡ false
    → Shows redis k u (loaded_read redis u (find_shown k u d)).response d
loaded_read-Shows redis k u d g = go (find_shown k u d) refl
  where
    p : Student → Bool
    p s = s.id == k && shown_student u.role u s

    go :
        (r : Option Student)
        → find_shown k u d ≡ r
        → Shows redis k u (loaded_read redis u r).response d
    go none h = unfold loaded_read in tt
    go (some s) h =
        let passes : p s ≡ true = find?_passes p d.students s h in
        unfold loaded_read in
        inl
          (ground arith, find?_mem p d.students h, shown_student-MaySee u.role u s g (ground arith))

cache_hit-admin :
    (redis : Redis) (k : ℕ) (u : User) (s : Student)
    → cache_hit redis k u ≡ some s
    → (same_role u.role admin ≡ true) × (redis.cached k ≡ some s)
unfolding cache_hit
cache_hit-admin redis k u s h = go (same_role u.role admin) redis.connected refl h
  where
    go :
        (a b : Bool)
        → same_role u.role admin ≡ a
        → (if a && b then redis.cached k else none) ≡ some s
        → (same_role u.role admin ≡ true) × (redis.cached k ≡ some s)
    go true true e h = (e, h)
    go true false e h = cc
    go false b e h = cc

-- Whatever the cache holds, `read_student` answers a guest with no student, an ordinary user only with
-- the stored row of the requested key that is linked to the account, and an admin with the stored row
-- or the cache's entry for the key.
pub read_student-Shows :
    (env : ℕ → Moment) (redis : Redis) (k : ℕ) (u : User)
    → Ensures (λ (r : Read) d. Shows redis k u r.response d) (read_student env redis k u)
unfolding read_student read_missed query
read_student-Shows env redis k u = go (is_guest u.role) (cache_hit redis k u) refl refl
  where
    Right : Read → Db → Type 0
    Right r d = Shows redis k u r.response d

    go :
        (g : Bool) (c : Option Student)
        → is_guest u.role ≡ g
        → cache_hit redis k u ≡ c
        → Ensures Right (if g then pure (refuse 403 "forbidden") else read_missed env redis k u c)
    go true c e h = pure-Ensures Right (refuse 403 "forbidden") (λ d. tt)
    go false none e h = statement-Ensures Right env _ (λ m d. loaded_read-Shows redis k u d e)
    go false (some s) e h =
        pure-Ensures Right (record { response = success s; cache_write = none })
          (λ d. inr (cache_hit-admin redis k u s h))
