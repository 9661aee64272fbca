-- ===== src/Services/Reports.antt =====
-- app/services/reports.py: the grade point average and the transcript. Grade points are counted in
-- tenths (4.0 is 40) and the average in hundredths.
use system_uni.Prelude.{
  ℕ, ◌+◌, ◌*◌, ◌≤◌, ◌<◌, Option, none, some, List, [], ◌∷◌, leb, ◌==◌, if◌then◌else◌, length,
  select_where, find?, map,
}
use system_uni.Session.{Session, Moment, pure, ◌>>=◌, query}
use system_uni.Models.{Db, Student, Enrollment, CourseRecord, Transcript}

-- `round(total / count, 2)` on floats: the hundredth nearest to the mean of `count` tenths-valued
-- points that add up to `total`.
pub record Rounding : Type 0 where
  pub mean2 : ℕ → ℕ → ℕ
  pub mean2_above :
      (total count : ℕ) → 0 < count → 20 * total ≤ 2 * (count * mean2 total count) + count
  pub mean2_below :
      (total count : ℕ) → 0 < count → 2 * (count * mean2 total count) ≤ 20 * total + count

-- The ladder of `calculate_gpa`, in tenths.
unfoldable pub grade_points : ℕ → ℕ
grade_points g =
    if leb 90 g
    then 40
    else if leb 85 g
    then 37
    else if leb 80 g
    then 33
    else if leb 75 g
    then 30
    else if leb 70 g
    then 27
    else if leb 65 g
    then 23
    else if leb 60 g
    then 20
    else 0

unfoldable pub sum_points : List ℕ → ℕ
sum_points [] = 0
sum_points (g ∷ grades) = grade_points g + sum_points grades

unfoldable pub calculate_gpa : Rounding → List ℕ → ℕ
calculate_gpa floats [] = 0
calculate_gpa floats (g ∷ grades) = floats.mean2 (sum_points (g ∷ grades)) (length (g ∷ grades))

abbrev pub add_grade : Option ℕ → List ℕ → List ℕ
add_grade none rest = rest
add_grade (some g) rest = g ∷ rest

-- The grades that are not None.
unfoldable pub valid_grades : List Enrollment → List ℕ
valid_grades [] = []
valid_grades (e ∷ es) = add_grade e.grade (valid_grades es)

abbrev pub course_record : Enrollment → CourseRecord
course_record e = record {
  enrollment_code = e.enrollment_code;
  course_offering_id = e.course_offering_id;
  grade = e.grade;
  is_active = e.is_active;
  is_withdrawn = e.is_withdrawn;
}

-- `select(Enrollment).where(Enrollment.student_id == student_id)`.
abbrev pub enrollments_of : ℕ → Db → List Enrollment
enrollments_of student_id d =
    select_where (λ (e : Enrollment). e.student_id == student_id) d.enrollments

unfoldable pub transcript_of : Rounding → Student → List Enrollment → Transcript
transcript_of floats s es = record {
  student_id = s.id;
  name = s.name;
  email = s.email;
  department_id = s.department_id;
  gpa = calculate_gpa floats (valid_grades es);
  total_courses = length es;
  courses = map course_record es;
}

-- `db.get(Student, student_id)`.
abbrev pub get_student : ℕ → Db → Option Student
get_student student_id d = find? (λ (s : Student). s.id == student_id) d.students

module _ (env : ℕ → Moment) (floats : Rounding) (student_id : ℕ) where
  unfoldable pub transcript_for : Option Student → Session (Option Transcript)
  transcript_for none = pure none
  transcript_for (some s) = do
    es ← query env (enrollments_of student_id)
    pure (some (transcript_of floats s es))

  -- Two statements, of which the second runs only if the student is there.
  unfoldable pub generate_student_transcript : Session (Option Transcript)
  generate_student_transcript = query env (get_student student_id) >>= transcript_for
