-- ===== src/Crud/Catalogue/Departments/Removal.antt =====
-- What the removal of a department means for the rows that refer to it.
use system_uni.Prelude.{
  ℕ, ◌≡◌, refl, some, true, false, not, ◌&&◌, List, [], ◌∷◌, ◌==◌, any, all, select_where,
  update_where, arith, Bool-cases, inl, inr,
}
use system_uni.Models.{
  Db, Department, Course, Teacher, Student, Postgres, Verdict, committed, violated, invalid_data,
  constraints, teachers_ok, students_ok, nullable_key, User,
}
use system_uni.Crud.Response.{Commit, written, integrity_failed, data_failed, stale, flush, judge}
use system_uni.Crud.Catalogue.{without_row}
use system_uni.Crud.Catalogue.Departments.{
  departments, course_of, without_department, detach_courses,
}

abbrev kept : ℕ → List Department → List Department
kept k xs = select_where (λ (p : Department). not (p.id == k)) xs

no_kept : (k : ℕ) (xs : List Department) → any (λ (p : Department). p.id == k) (kept k xs) ≡ false
no_kept k [] = refl
no_kept k (x ∷ xs) = ground (arith, no_kept k xs)

-- A row whose department is among those that are kept is not in the removed one.
kept_other :
    (k n : ℕ) (xs : List Department)
    → any (λ (p : Department). p.id == n) (kept k xs) ≡ true
    → (n == k) ≡ false
kept_other k n xs h = elim (Bool-cases (n == k)) [
  | inl same ↦
      let e : n ≡ k = ground arith in
      let none_left : any (λ (p : Department). p.id == n) (kept k xs) ≡ false =
        rw e (no_kept k xs) in
      cc
  | inr other ↦ other
]

teachers_elsewhere :
    (k : ℕ) (xs : List Department) (ts : List Teacher)
    → all (λ (t : Teacher). any (λ (p : Department). p.id == t.department_id) (kept k xs)) ts ≡ true
    → any (λ (t : Teacher). t.department_id == k) ts ≡ false
teachers_elsewhere k xs [] h = refl
teachers_elsewhere k xs (t ∷ ts) h =
    ground (arith, teachers_elsewhere k xs ts, kept_other k t.department_id xs)

students_elsewhere :
    (k : ℕ) (xs : List Department) (us : List User) (ss : List Student)
    → all
        (λ (s : Student).
          any (λ (p : Department). p.id == s.department_id) (kept k xs)
          && nullable_key (λ j. any (λ (u : User). u.id == j) us) s.user_id)
        ss
      ≡ true
    → any (λ (s : Student). s.department_id == k) ss ≡ false
students_elsewhere k xs us [] h = refl
students_elsewhere k xs us (s ∷ ss) h =
    ground (arith, students_elsewhere k xs us ss, kept_other k s.department_id xs)

detached :
    (k : ℕ) (cs : List Course)
    → any (course_of k) (update_where (course_of k) without_department cs) ≡ false
detached k [] = refl
detached k (c ∷ cs) = ground (arith, detached k cs)

-- What a removal that committed shows: the department had no teacher and no student, and its courses
-- are all there, in no department.
pub record Dissolved (k : ℕ) (d : Db) (d' : Db) : Type 0 where
  pub no_teacher : any (λ (t : Teacher). t.department_id == k) d.teachers ≡ false
  pub no_student : any (λ (s : Student). s.department_id == k) d.students ≡ false
  pub no_course : any (course_of k) d'.courses ≡ false
  pub courses_kept : d'.courses ≡ update_where (course_of k) without_department d.courses

abbrev pub Removes : ℕ → Db → Commit (Unit {0}) × Db → Type 0
Removes k d (written done, d') = Dissolved k d d'
Removes k d (integrity_failed, d') = d' ≡ d
Removes k d (data_failed, d') = d' ≡ d
Removes k d (stale, d') = d' ≡ d

valid-Dissolved :
    (k : ℕ) (d : Db)
    → constraints (without_row departments k d) ≡ true
    → Dissolved k d (without_row departments k d)
unfolding constraints teachers_ok students_ok detach_courses
valid-Dissolved k d h = record {
  no_teacher = teachers_elsewhere k d.departments d.teachers (ground arith);
  no_student = students_elsewhere k d.departments d.users d.students (ground arith);
  no_course = detached k d.courses;
  courses_kept = refl;
}

-- The removal of a department commits only if it has no teacher and no student. Its courses do not
-- stand in the way: they all stay, and those that it had are left in no department. A removal that does
-- not commit changes nothing.
pub remove_department-Removes :
    (pg : Postgres) (k : ℕ) (d : Db)
    → Removes k d (flush pg (some (tt {0}, without_row departments k d)) d)
remove_department-Removes pg k d = go (pg.verdict (without_row departments k d)) refl
  where
    go :
        (v : Verdict)
        → pg.verdict (without_row departments k d) ≡ v
        → Removes k d (judge v (tt {0}) (without_row departments k d) d)
    go committed e = valid-Dissolved k d (pg.accepts (without_row departments k d) e)
    go violated e = refl
    go invalid_data e = refl
