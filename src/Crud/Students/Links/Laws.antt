-- ===== src/Crud/Students/Links/Laws.antt =====
-- The update of `link_student_to_user` of app/crud/student.py.
use system_uni.Prelude.{
  ℕ, ◌≡◌, refl, Option, none, some, Bool, true, false, List, ◌==◌, eq_column, find?-of_unique, any,
  any-update_where_mem, update_where, is_unique, if◌then◌else◌, arith,
}
use system_uni.Models.{
  Db, Student, Postgres, Verdict, committed, violated, invalid_data, students_ok, students_clash,
  constraints-students,
}
use system_uni.Session.{Moment, Ensures, statement-Ensures}
use system_uni.Crud.Response.{
  Commit, written, integrity_failed, data_failed, stale, commit, flush, judge,
}
use system_uni.Crud.Enrollment.{get_student}
use system_uni.Crud.Students.{write_student, at_version, flush_student, write_loaded}
use system_uni.Crud.Students.Links.{link_columns, student_of}

-- The student's row carries the account, and is the only one that does.
abbrev pub Links : ℕ → ℕ → Commit (Unit {0}) → Db → Type 0
Links k user_id (written done) d =
    (s : Student) × (get_student k d ≡ some s)
    × (s.user_id ≡ some user_id)
    × (student_of user_id d ≡ some s)
Links k user_id integrity_failed d = Unit
Links k user_id data_failed d = Unit
Links k user_id stale d = Unit

module _ (k v user_id : ℕ) (d : Db) where
  linked_rows : List Student
  linked_rows = update_where (at_version k v) (write_student v (link_columns user_id)) d.students

  account_clash :
      (a b : Student)
      → eq_column a.user_id user_id ≡ true
      → eq_column b.user_id user_id ≡ true
      → students_clash a b ≡ true
  account_clash a b h j = ground arith

  updated-Links :
      any (at_version k v) d.students ≡ true
      → students_ok (record d { students = linked_rows }) ≡ true
      → Links k user_id (written tt) (record d { students = linked_rows })
  unfolding linked_rows students_ok
  updated-Links found valid =
      let (x, at, m) =
        any-update_where_mem (at_version k v) (write_student v (link_columns user_id)) d.students
          found in
      let unique : is_unique students_clash linked_rows ≡ true = ground arith in
      (
        write_student v (link_columns user_id) x,
        find?-of_unique students_clash (λ (s : Student). s.id == k) linked_rows
            (λ a b p q. ground arith) unique m (unfold write_student in ground arith),
        unfold write_student in refl,
        find?-of_unique students_clash (λ (s : Student). eq_column s.user_id user_id) linked_rows
            account_clash unique m (unfold write_student in ground arith),
      )

flush_student-Links :
    (pg : Postgres) (k v user_id : ℕ) (d : Db)
    → let (r, d') = flush pg (flush_student k v (link_columns user_id) d) d in Links k user_id r d'
unfolding flush_student linked_rows
flush_student-Links pg k v user_id d = go (any (at_version k v) d.students) refl
  where
    new : Db
    new = record d { students = linked_rows k v user_id d }

    judged :
        (w : Verdict)
        → pg.verdict new ≡ w
        → any (at_version k v) d.students ≡ true
        → let (r, d') = judge {A = Unit {0}} w tt new d in Links k user_id r d'
    judged committed e found =
        updated-Links k v user_id d found (constraints-students new (pg.accepts new e))
    judged violated e found = tt
    judged invalid_data e found = tt

    go :
        (b : Bool)
        → any (at_version k v) d.students ≡ b
        → let change : Option (Unit {0} × Db) = if b then some (tt, new) else none in
          let (r, d') = flush pg change d in Links k user_id r d'
    go true e = judged (pg.verdict new) refl e
    go false e = tt

-- Whatever other sessions committed since the checks of `link_student_to_user`: if its update commits,
-- then at that moment the student carries the account, and is the one student that does.
pub write_loaded-Links :
    (env : ℕ → Moment) (pg : Postgres) (s : Student) (user_id : ℕ)
    → Ensures (Links s.id user_id) (write_loaded env pg (link_columns user_id) s)
unfolding write_loaded commit
write_loaded-Links env pg s user_id =
    statement-Ensures (Links s.id user_id) env _
      (λ m d. flush_student-Links pg s.id s.version_id user_id d)
