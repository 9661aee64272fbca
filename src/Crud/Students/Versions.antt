-- ===== src/Crud/Students/Versions.antt =====
-- The version column of `student` in `update_student` of app/crud/student.py.
use system_uni.Prelude.{
  ℕ, ◌≡◌, refl, Option, none, some, Bool, true, false, List, [], ◌∷◌, ◌==◌, any, find?,
  update_where, is_unique, if◌then◌else◌, arith,
}
use system_uni.Models.{
  Db, Student, Postgres, Verdict, committed, violated, invalid_data, students_ok, students_clash,
}
use system_uni.Crud.Response.{Commit, written, integrity_failed, data_failed, stale, flush, judge}
use system_uni.Crud.Enrollment.{get_student}
use system_uni.Crud.Students.{
  StudentColumns, no_student_column, write_student, at_version, flush_student,
}

updated : ℕ → ℕ → StudentColumns → Db → Db
updated k v c d = record d {
  students = update_where (at_version k v) (write_student v c) d.students;
}

-- No row is left at the version that an update has replaced.
any-update_where :
    (k v : ℕ) (c : StudentColumns) (xs : List Student)
    → any (at_version k v) (update_where (at_version k v) (write_student v c) xs) ≡ false
unfolding write_student
any-update_where k v c [] = refl
any-update_where k v c (x ∷ xs) = ground (arith, any-update_where k v c xs)

stale_next :
    (pg : Postgres) (k v : ℕ) (c c2 : StudentColumns) (d : Db)
    → no_student_column c2 ≡ false
    → flush pg (flush_student k v c2 (updated k v c d)) (updated k v c d) ≡ (stale, updated k v c d)
unfolding flush_student updated
stale_next pg k v c c2 d h = rw (h, any-update_where k v c d.students) refl

-- The first to commit an update of a student wins: after it, an update that rests on the same loaded
-- version matches no row and changes nothing.
pub flush_student_first_wins :
    (pg : Postgres) (k v : ℕ) (c c2 : StudentColumns) (d : Db)
    → no_student_column c ≡ false
    → no_student_column c2 ≡ false
    → let (r, d') = flush pg (flush_student k v c d) d in
      (r ≡ written tt) → flush pg (flush_student k v c2 d') d' ≡ (stale, d')
unfolding flush_student updated
flush_student_first_wins pg k v c c2 d h h2 =
    go (no_student_column c) (any (at_version k v) d.students) refl
  where
    Wins : Commit (Unit {0}) × Db → Type 0
    Wins (r, d') = r ≡ written tt → flush pg (flush_student k v c2 d') d' ≡ (stale, d')

    judged : (w : Verdict) → Wins (judge {A = Unit {0}} w tt (updated k v c d) d)
    judged committed same = stale_next pg k v c c2 d h2
    judged violated same = cc
    judged invalid_data same = cc

    go :
        (b1 b2 : Bool)
        → no_student_column c ≡ b1
        → let change : Option (Unit {0} × Db) =
            if b1 then some (tt, d) else if b2 then some (tt, updated k v c d) else none in
          Wins (flush pg change d)
    go true b e = cc
    go false true e = judged (pg.verdict (updated k v c d))
    go false false e = λ same. cc

-- The row that an update of the version `v` needs, and what it leaves: the same row, with the new
-- columns and the next version; where the update does not commit, nothing changes.
abbrev pub Replaces : ℕ → ℕ → StudentColumns → Db → Commit (Unit {0}) → Db → Type 0
Replaces k v c d (written done) d' =
    (s : Student) × (get_student k d ≡ some s)
    × (s.version_id ≡ v)
    × (get_student k d' ≡ some (write_student v c s))
Replaces k v c d integrity_failed d' = d' ≡ d
Replaces k v c d data_failed d' = d' ≡ d
Replaces k v c d stale d' = d' ≡ d

no_clash-version :
    (k v : ℕ) (x : Student) (xs : List Student)
    → (x.id == k) ≡ true
    → any (students_clash x) xs ≡ false
    → any (at_version k v) xs ≡ false
no_clash-version k v x [] e h = refl
no_clash-version k v x (y ∷ ys) e h = ground (arith, no_clash-version k v x ys e)

abbrev Row : ℕ → ℕ → StudentColumns → List Student → Type 0
Row k v c xs =
    (s : Student) × (find? (λ (x : Student). x.id == k) xs ≡ some s)
    × (s.version_id ≡ v)
    × (find? (λ (x : Student). x.id == k) (update_where (at_version k v) (write_student v c) xs)
        ≡ some (write_student v c s))

-- The row `k` of a table with unique keys, if some row `k` is at version `v`.
replaced :
    (k v : ℕ) (c : StudentColumns) (xs : List Student)
    → is_unique students_clash xs ≡ true
    → any (at_version k v) xs ≡ true
    → Row k v c xs
unfolding write_student
replaced k v c [] u h = cc
replaced k v c (x ∷ xs) u h =
    go (x.id == k) (x.version_id == v) refl refl (λ p q. replaced k v c xs p q)
  where
    go :
        (b1 b2 : Bool)
        → (x.id == k) ≡ b1
        → (x.version_id == v) ≡ b2
        → (is_unique students_clash xs ≡ true → any (at_version k v) xs ≡ true → Row k v c xs)
        → Row k v c (x ∷ xs)
    go true true e f rest = (x, rw e refl, ground arith, rw (e, f, e) refl)
    go true false e f rest =
        let nowhere : any (at_version k v) (x ∷ xs) ≡ false =
          ground (arith, no_clash-version k v x xs) in
        cc
    go false b e f rest =
        let (s, p, q, r) = rest (ground arith) (ground arith) in (s, rw e p, q, rw (e, e) r)

-- In a table that meets its constraints, an update that commits replaces the row of the student at the
-- loaded version, by the same row with the new columns and the next version; one that does not commit
-- changes nothing.
pub flush_student-Replaces :
    (pg : Postgres) (k v : ℕ) (c : StudentColumns) (d : Db)
    → students_ok d ≡ true
    → no_student_column c ≡ false
    → let (r, d') = flush pg (flush_student k v c d) d in Replaces k v c d r d'
unfolding flush_student updated students_ok
flush_student-Replaces pg k v c d u h =
    go (no_student_column c) (any (at_version k v) d.students) refl refl
  where
    judged :
        (w : Verdict)
        → any (at_version k v) d.students ≡ true
        → let (r, d') = judge {A = Unit {0}} w tt (updated k v c d) d in Replaces k v c d r d'
    judged committed e = replaced k v c d.students (ground arith) e
    judged violated e = refl
    judged invalid_data e = refl

    go :
        (b1 b2 : Bool)
        → no_student_column c ≡ b1
        → any (at_version k v) d.students ≡ b2
        → let change : Option (Unit {0} × Db) =
            if b1 then some (tt, d) else if b2 then some (tt, updated k v c d) else none in
          let (r, d') = flush pg change d in Replaces k v c d r d'
    go true b e f = cc
    go false true e f = judged (pg.verdict (updated k v c d)) f
    go false false e f = refl
