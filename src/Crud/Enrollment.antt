-- ===== src/Crud/Enrollment.antt =====
-- app/crud/enrollment.py.
pub mod Arbiter
pub mod Scope
mod Tests
use system_uni.Prelude.{
  ℕ, String, Option, none, some, Bool, true, false, ◌&&◌, List, [], ◌∷◌, ◌++◌, ◌==◌, str_eq,
  eq_column, or_else, if◌then◌else◌, find?, select_where, update_where, any, is_none, not,
}
use system_uni.Models.{
  Db, Enrollment, Student, CourseOffering, User, UserRole, admin, user, guest, Postgres,
}
use system_uni.Session.{Session, Moment, query, pure, ◌>>=◌}
use system_uni.Crud.Columns.{net, same_bool, page}
use system_uni.Crud.Response.{
  Response, success, http_error, Commit, Change, commit, refreshed, answer, answer_delete,
}

-- app/schemas/enrollment.py.
pub record EnrollmentCreate : Type 0 where
  pub student_id : ℕ
  pub course_offering_id : ℕ
  pub enrollment_code : String
  pub grade : Option ℕ
  pub is_active : Bool
  pub is_withdrawn : Bool

pub record EnrollmentUpdate : Type 0 where
  pub student_id : Option ℕ
  pub course_offering_id : Option ℕ
  pub enrollment_code : Option String
  pub grade : Option ℕ
  pub is_active : Option Bool
  pub is_withdrawn : Option Bool

abbrev pub get_student : ℕ → Db → Option Student
get_student k d = find? (λ (s : Student). s.id == k) d.students

abbrev pub get_offering : ℕ → Db → Option CourseOffering
get_offering k d = find? (λ (o : CourseOffering). o.id == k) d.offerings

abbrev pub get_enrollment : ℕ → Db → Option Enrollment
get_enrollment k d = find? (λ (e : Enrollment). e.id == k) d.enrollments

abbrev pub find_pair : ℕ → ℕ → Db → Option Enrollment
find_pair student offering d =
    find? (λ (e : Enrollment). e.student_id == student && e.course_offering_id == offering)
      d.enrollments

abbrev pub find_code : String → Db → Option Enrollment
find_code code d = find? (λ (e : Enrollment). str_eq e.enrollment_code code) d.enrollments

-- `Enrollment(**enrollment.model_dump())`, with the key and the time that the server gives.
abbrev pub new_enrollment : EnrollmentCreate → Moment → Enrollment
new_enrollment e m = record {
  id = m.serial;
  student_id = e.student_id;
  course_offering_id = e.course_offering_id;
  enrollment_code = e.enrollment_code;
  grade = e.grade;
  is_active = e.is_active;
  is_withdrawn = e.is_withdrawn;
  created_at = m.now;
}

abbrev pub with_enrollment : Enrollment → Db → Db
with_enrollment e d = record d { enrollments = d.enrollments ++ e ∷ [] }

module _ (env : ℕ → Moment) (pg : Postgres) (e : EnrollmentCreate) where
  unfoldable pub insert_enrollment : Session (Commit Enrollment)
  insert_enrollment =
      commit env pg (λ m d. some (new_enrollment e m, with_enrollment (new_enrollment e m) d))

  unfoldable pub inserted : Commit Enrollment → Session (Response Enrollment)
  inserted =
      answer (λ (row : Enrollment). query env (get_enrollment row.id) >>= refreshed)
        "Student is already enrolled in this course offering or enrollment code duplicate"
        "Invalid enrollment data provided"

  -- The four checks, each on the state that its statement sees, in the order of the source.
  unfoldable pub code_checked : Option Enrollment → Session (Response Enrollment)
  code_checked (some x) = pure (http_error 409 "Enrollment code duplicate")
  code_checked none = insert_enrollment >>= inserted

  unfoldable pub pair_checked : Option Enrollment → Session (Response Enrollment)
  pair_checked (some x) =
      pure (http_error 409 "Student is already enrolled in this course offering")
  pair_checked none = query env (find_code e.enrollment_code) >>= code_checked

  unfoldable pub offering_checked : Option CourseOffering → Session (Response Enrollment)
  offering_checked none = pure (http_error 404 "Course offering not found")
  offering_checked (some o) =
      query env (find_pair e.student_id e.course_offering_id) >>= pair_checked

  unfoldable pub student_checked : Option Student → Session (Response Enrollment)
  student_checked none = pure (http_error 404 "Student not found")
  student_checked (some s) = query env (get_offering e.course_offering_id) >>= offering_checked

  unfoldable pub create_enrollment : Session (Response Enrollment)
  create_enrollment = query env (get_student e.student_id) >>= student_checked

-- A grade that is given, where the column may be NULL.
abbrev pub net_grade : Option ℕ → Option ℕ → Option ℕ
net_grade none old = none
net_grade (some g) old = if eq_column old g then none else some g

abbrev pub net_update : EnrollmentUpdate → Enrollment → EnrollmentUpdate
net_update u e = record {
  student_id = net ◌==◌ u.student_id e.student_id;
  course_offering_id = net ◌==◌ u.course_offering_id e.course_offering_id;
  enrollment_code = net str_eq u.enrollment_code e.enrollment_code;
  grade = net_grade u.grade e.grade;
  is_active = net same_bool u.is_active e.is_active;
  is_withdrawn = net same_bool u.is_withdrawn e.is_withdrawn;
}

abbrev pub changes_nothing : EnrollmentUpdate → Bool
changes_nothing u =
    is_none u.student_id
    && (is_none u.course_offering_id
        && (is_none u.enrollment_code
            && (is_none u.grade && (is_none u.is_active && is_none u.is_withdrawn))))

abbrev pub given_grade : Option ℕ → Option ℕ → Option ℕ
given_grade none old = old
given_grade (some g) old = some g

unfoldable pub write_columns : EnrollmentUpdate → Enrollment → Enrollment
write_columns u e = record e {
  student_id = or_else u.student_id e.student_id;
  course_offering_id = or_else u.course_offering_id e.course_offering_id;
  enrollment_code = or_else u.enrollment_code e.enrollment_code;
  grade = given_grade u.grade e.grade;
  is_active = or_else u.is_active e.is_active;
  is_withdrawn = or_else u.is_withdrawn e.is_withdrawn;
}

-- `UPDATE enrollment SET ... WHERE id = ...`, if a column changed.
unfoldable pub flush_update : ℕ → EnrollmentUpdate → Db → Option (Unit {0} × Db)
flush_update k u d =
    if changes_nothing u
    then some (tt, d)
    else if any (λ (e : Enrollment). e.id == k) d.enrollments
    then some (
      tt,
      record d {
        enrollments = update_where (λ (e : Enrollment). e.id == k) (write_columns u) d.enrollments;
      },
    )
    else none

module _ (env : ℕ → Moment) (pg : Postgres) (u : EnrollmentUpdate) (enrollment_id : ℕ) where
  unfoldable pub loaded_for_update : Option Enrollment → Session (Response Enrollment)
  loaded_for_update none = pure (http_error 404 "Enrollment not found")
  loaded_for_update (some e) =
      commit env pg (λ m d. flush_update enrollment_id (net_update u e) d)
      >>= answer (λ (done : Unit {0}). query env (get_enrollment enrollment_id) >>= refreshed)
          "Enrollment constraint violation" "Invalid enrollment data provided"

  unfoldable pub update_enrollment : Session (Response Enrollment)
  update_enrollment = query env (get_enrollment enrollment_id) >>= loaded_for_update

-- `join(Student).where(Student.user_id == user.id)`: the student of the enrollment is the user's.
abbrev pub owned_by : User → Db → Enrollment → Bool
owned_by u d e = any (λ (s : Student). s.id == e.student_id && eq_column s.user_id u.id) d.students

-- The rows that the role may see; a guest is refused before.
unfoldable pub visible : UserRole → User → Db → Enrollment → Bool
visible user u d e = owned_by u d e
visible _ u d e = true

abbrev pub is_guest : UserRole → Bool
is_guest guest = true
is_guest _ = false

abbrev pub found_or_404 : String → Option Enrollment → Response Enrollment
found_or_404 detail none = http_error 404 detail
found_or_404 detail (some e) = success e

module _ (env : ℕ → Moment) where
  unfoldable pub read_enrollment : ℕ → User → Session (Response Enrollment)
  read_enrollment enrollment_id u =
      if is_guest u.role
      then pure (http_error 403 "forbidden")
      else query env (λ d.
        found_or_404 "Enrollment not found"
          (find? (λ (e : Enrollment). e.id == enrollment_id && visible u.role u d e) d.enrollments))

  unfoldable pub read_enrollments : User → ℕ → ℕ → Session (Response (List Enrollment))
  read_enrollments u skip limit =
      if is_guest u.role
      then pure (http_error 403 "forbidden")
      else query env (λ d. success (
          page (λ (e : Enrollment). e.id) skip limit
            (select_where (visible u.role u d) d.enrollments)))

module _ (env : ℕ → Moment) (pg : Postgres) (enrollment_id : ℕ) where
  -- A DELETE that matches no row is no error for a table without versions.
  abbrev pub without_enrollment : Db → Db
  without_enrollment d = record d {
    enrollments = select_where (λ (e : Enrollment). not (e.id == enrollment_id)) d.enrollments;
  }

  unfoldable pub loaded_for_delete : Option Enrollment → Session (Response String)
  loaded_for_delete none = pure (http_error 404 "Enrollment not found")
  loaded_for_delete (some e) =
      commit env pg (λ m d. some (tt, without_enrollment d))
      >>= answer_delete (pure (success "Enrollment deleted successfully"))
          "Cannot delete enrollment due to database constraints"

  unfoldable pub delete_enrollment : Session (Response String)
  delete_enrollment = query env (get_enrollment enrollment_id) >>= loaded_for_delete
