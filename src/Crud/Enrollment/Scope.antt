-- ===== src/Crud/Enrollment/Scope.antt =====
-- Who sees which enrollments.
use system_uni.Prelude.{
  ℕ, ◌≡◌, ◌≤◌, refl, Option, none, some, Bool, true, false, ◌&&◌, List, ◌==◌, find?, find?_passes,
  find?_mem, select_where, select_where_sound, Memᴰ, length, arith, if◌then◌else◌,
}
use system_uni.Models.{Db, Enrollment, User, UserRole, admin, user, guest}
use system_uni.Session.{Moment, Ensures, pure-Ensures, statement-Ensures, query, pure, statement}
use system_uni.Crud.Response.{Response, success, http_error}
use system_uni.Crud.Columns.{page}
use system_uni.Crud.Columns.Members.{length-page, page_mem}
use system_uni.Crud.Enrollment.{
  owned_by, visible, is_guest, found_or_404, read_enrollment, read_enrollments,
}

-- An enrollment that a role may be shown: a guest sees none, an ordinary user those of the student
-- that is linked to the account, and an admin all.
abbrev pub MaySee : UserRole → User → Db → Enrollment → Type 0
MaySee guest u d e = ⊥
MaySee user u d e = owned_by u d e ≡ true
MaySee admin u d e = Unit

visible-MaySee :
    (r : UserRole) (u : User) (d : Db) (e : Enrollment)
    → is_guest r ≡ false
    → visible r u d e ≡ true
    → MaySee r u d e
unfolding visible
visible-MaySee guest u d e g h = cc
visible-MaySee user u d e g h = h
visible-MaySee admin u d e g h = tt

-- What a read of one enrollment shows.
abbrev pub Shows : ℕ → User → Response Enrollment → Db → Type 0
Shows k u (http_error code detail) d = Unit
Shows k u (success e) d = (e.id ≡ k) × Memᴰ e d.enrollments × MaySee u.role u d e

found-Shows :
    (k : ℕ) (u : User) (d : Db)
    → is_guest u.role ≡ false
    → Shows k u
        (found_or_404 "Enrollment not found"
          (find? (λ (e : Enrollment). e.id == k && visible u.role u d e) d.enrollments))
        d
found-Shows k u d g = go (find? p d.enrollments) refl
  where
    p : Enrollment → Bool
    p e = e.id == k && visible u.role u d e

    go :
        (r : Option Enrollment)
        → find? p d.enrollments ≡ r
        → Shows k u (found_or_404 "Enrollment not found" r) d
    go none h = tt
    go (some e) h =
        let passes : p e ≡ true = find?_passes p d.enrollments e h in
        (ground arith, find?_mem p d.enrollments h, visible-MaySee u.role u d e g (ground arith))

-- `read_enrollment` returns only a stored row with the key that was asked for, which the caller may
-- see at that moment: none to a guest, to a user only those of the linked student.
pub read_enrollment-Shows :
    (env : ℕ → Moment) (k : ℕ) (u : User) → Ensures (Shows k u) (read_enrollment env k u)
unfolding read_enrollment query
read_enrollment-Shows env k u = go (is_guest u.role) refl
  where
    go :
        (b : Bool)
        → is_guest u.role ≡ b
        → Ensures (Shows k u) (
            if b
            then pure (http_error 403 "forbidden")
            else statement env (λ m d. (
              found_or_404 "Enrollment not found"
                  (find? (λ (e : Enrollment). e.id == k && visible u.role u d e) d.enrollments),
              d,
            )))
    go true g = pure-Ensures (Shows k u) (http_error 403 "forbidden") (λ d. tt)
    go false g = statement-Ensures (Shows k u) env _ (λ m d. found-Shows k u d g)

visible_row :
    (u : User) (d : Db) (e : Enrollment)
    → is_guest u.role ≡ false
    → Memᴰ e (select_where (visible u.role u d) d.enrollments)
    → Memᴰ e d.enrollments × MaySee u.role u d e
visible_row u d e g m =
    let (seen, stored) = select_where_sound (visible u.role u d) d.enrollments m in
    (stored, visible-MaySee u.role u d e g seen)

-- What a page shows: at most `limit` rows, each stored and one that the caller may see.
abbrev pub Lists : ℕ → User → Response (List Enrollment) → Db → Type 0
Lists limit u (http_error code detail) d = Unit
Lists limit u (success rows) d =
    (length rows ≤ limit)
    × ((e : Enrollment) → Memᴰ e rows → Memᴰ e d.enrollments × MaySee u.role u d e)

-- `read_enrollments` returns at most `limit` rows, and only stored ones that the caller may see at
-- that moment: none to a guest, to a user only those of the linked student.
pub read_enrollments-Lists :
    (env : ℕ → Moment) (u : User) (skip limit : ℕ)
    → Ensures (Lists limit u) (read_enrollments env u skip limit)
unfolding read_enrollments query
read_enrollments-Lists env u skip limit = go (is_guest u.role) refl
  where
    rows : Db → List Enrollment
    rows d = select_where (visible u.role u d) d.enrollments

    go :
        (b : Bool)
        → is_guest u.role ≡ b
        → Ensures (Lists limit u) (
            if b
            then pure (http_error 403 "forbidden")
            else statement env
                (λ m d. (success (page (λ (e : Enrollment). e.id) skip limit (rows d)), d)))
    go true g = pure-Ensures (Lists limit u) (http_error 403 "forbidden") (λ d. tt)
    go false g = statement-Ensures (Lists limit u) env _ (λ m d. (
      length-page (λ (e : Enrollment). e.id) skip limit (rows d),
      λ e k. visible_row u d e g (page_mem (λ (x : Enrollment). x.id) skip limit (rows d) k),
    ))
