-- ===== src/Crud/Enrollment/Arbiter.antt =====
-- The insert of `create_enrollment`, and the unique constraints of `enrollment`.
use system_uni.Prelude.{
  ℕ, String, ◌≡◌, refl, some, true, ◌&&◌, [], ◌∷◌, ◌++◌, ◌==◌, str_eq, str_eq_iff, find?-of_unique,
  mem_last, arith,
}
use system_uni.Models.{
  Db, Enrollment, Postgres, Verdict, committed, violated, invalid_data, enrollments_ok,
  enrollments_clash, constraints-enrollments,
}
use system_uni.Session.{Moment, Ensures, statement-Ensures}
use system_uni.Crud.Response.{Commit, written, integrity_failed, data_failed, stale, commit, judge}
use system_uni.Crud.Enrollment.{
  EnrollmentCreate, new_enrollment, with_enrollment, find_pair, find_code, insert_enrollment,
}

-- The row is the one of its student and course offering, and the one of its code; the table meets its
-- constraints.
pub record IsOnly (row : Enrollment) (d : Db) : Type 0 where
  pub pair_unique : find_pair row.student_id row.course_offering_id d ≡ some row
  pub code_unique : find_code row.enrollment_code d ≡ some row
  pub table_ok : enrollments_ok d ≡ true

pair_clash :
    (s o : ℕ) (a b : Enrollment)
    → (a.student_id == s && a.course_offering_id == o) ≡ true
    → (b.student_id == s && b.course_offering_id == o) ≡ true
    → enrollments_clash a b ≡ true
pair_clash s o a b h k = ground arith

code_clash :
    (c : String) (a b : Enrollment)
    → str_eq a.enrollment_code c ≡ true
    → str_eq b.enrollment_code c ≡ true
    → enrollments_clash a b ≡ true
code_clash c a b h k = ground (
  arith,
  str_eq_iff a.enrollment_code c,
  str_eq_iff b.enrollment_code c,
  str_eq_iff a.enrollment_code b.enrollment_code,
)

with_enrollment-IsOnly :
    (row : Enrollment) (d : Db)
    → enrollments_ok (with_enrollment row d) ≡ true
    → IsOnly row (with_enrollment row d)
unfolding enrollments_ok
with_enrollment-IsOnly row d h = record {
  pair_unique =
      find?-of_unique enrollments_clash
        (λ (e : Enrollment).
          e.student_id == row.student_id && e.course_offering_id == row.course_offering_id)
        (d.enrollments ++ row ∷ []) (pair_clash row.student_id row.course_offering_id)
        (ground arith) (mem_last d.enrollments row) (ground arith);
  code_unique =
      find?-of_unique enrollments_clash
        (λ (e : Enrollment). str_eq e.enrollment_code row.enrollment_code)
        (d.enrollments ++ row ∷ []) (code_clash row.enrollment_code) (ground arith)
        (mem_last d.enrollments row)
        (ground (arith, str_eq_iff row.enrollment_code row.enrollment_code));
  table_ok = h;
}

-- How the insert ends.
abbrev pub Enrolls : EnrollmentCreate → Commit Enrollment → Db → Type 0
Enrolls e (written row) d =
    (row.student_id ≡ e.student_id)
    × (row.course_offering_id ≡ e.course_offering_id)
    × (row.enrollment_code ≡ e.enrollment_code)
    × IsOnly row d
Enrolls e integrity_failed d = Unit
Enrolls e data_failed d = Unit
Enrolls e stale d = Unit

-- Whatever other transactions committed since the checks of `create_enrollment`: if its insert goes
-- through, then at that moment the new row holds the requested student, course offering and code, it
-- is the only one of its pair and of its code, and the table meets all its constraints.
pub insert_enrollment-Enrolls :
    (env : ℕ → Moment) (pg : Postgres) (e : EnrollmentCreate)
    → Ensures (Enrolls e) (insert_enrollment env pg e)
unfolding insert_enrollment commit
insert_enrollment-Enrolls env pg e =
    statement-Ensures (Enrolls e) env _
      (λ m d. go m d (pg.verdict (with_enrollment (new_enrollment e m) d)) refl)
  where
    go :
        (m : Moment) (d : Db) (v : Verdict)
        → pg.verdict (with_enrollment (new_enrollment e m) d) ≡ v
        → let (c, d') = judge v (new_enrollment e m) (with_enrollment (new_enrollment e m) d) d in
          Enrolls e c d'
    go m d committed h = (
      refl,
      refl,
      refl,
      with_enrollment-IsOnly (new_enrollment e m) d (
          constraints-enrollments (with_enrollment (new_enrollment e m) d)
            (pg.accepts (with_enrollment (new_enrollment e m) d) h)),
    )
    go m d violated h = tt
    go m d invalid_data h = tt
