-- ===== src/Models/Database.antt =====
-- The database as a record of tables, and the constraints that app/models declares on them: primary
-- and unique keys, foreign keys and check constraints.
use system_uni.Prelude.{
  arith, ◌≡◌, ℕ, Option, none, some, Bool, true, false, not, ◌&&◌, ◌||◌, List, leb, ltb, ◌==◌,
  str_eq, eq_column, any, all, is_unique,
}
use system_uni.Models.People.{User, Student}
use system_uni.Models.Teaching.{
  College, Department, Course, Teacher, CourseOffering, CourseSchedule, Enrollment,
}
use system_uni.Models.Work.{Job, Report}

pub record Db : Type 0 where
  pub users : List User
  pub students : List Student
  pub colleges : List College
  pub departments : List Department
  pub courses : List Course
  pub teachers : List Teacher
  pub offerings : List CourseOffering
  pub schedules : List CourseSchedule
  pub enrollments : List Enrollment
  pub jobs : List Job
  pub reports : List Report

-- A foreign key that may be NULL.
abbrev pub nullable_key : (ℕ → Bool) → Option ℕ → Bool
nullable_key exists none = true
nullable_key exists (some k) = exists k

unfoldable pub users_ok : Db → Bool
users_ok d =
    is_unique
      (λ (a b : User). a.id == b.id || str_eq a.username b.username || str_eq a.email b.email)
      d.users

-- Two NULLs do not collide.
abbrev pub same_key : Option ℕ → Option ℕ → Bool
same_key none v = false
same_key (some u) v = eq_column v u

-- Two students collide on the key, the email, or a user that is not NULL.
abbrev pub students_clash : Student → Student → Bool
students_clash a b = a.id == b.id || str_eq a.email b.email || same_key a.user_id b.user_id

unfoldable pub students_ok : Db → Bool
students_ok d =
    is_unique students_clash d.students
    && all
        (λ (s : Student).
          any (λ (p : Department). p.id == s.department_id) d.departments
          && nullable_key (λ k. any (λ (u : User). u.id == k) d.users) s.user_id)
        d.students

unfoldable pub colleges_ok : Db → Bool
colleges_ok d = is_unique (λ (a b : College). a.id == b.id || str_eq a.code b.code) d.colleges

unfoldable pub departments_ok : Db → Bool
departments_ok d =
    is_unique
      (λ (a b : Department).
        a.id == b.id
        || a.college_id == b.college_id && (str_eq a.name b.name || str_eq a.code b.code))
      d.departments
    && all (λ (p : Department). any (λ (c : College). c.id == p.college_id) d.colleges)
        d.departments

-- A course without a department collides on its key alone.
abbrev pub courses_clash : Course → Course → Bool
courses_clash a b =
    a.id == b.id
    || same_key a.department_id b.department_id && (str_eq a.code b.code || str_eq a.name b.name)

unfoldable pub courses_ok : Db → Bool
courses_ok d =
    is_unique courses_clash d.courses
    && all
        (λ (c : Course).
          nullable_key (λ k. any (λ (p : Department). p.id == k) d.departments) c.department_id)
        d.courses

unfoldable pub teachers_ok : Db → Bool
teachers_ok d =
    is_unique (λ (a b : Teacher). a.id == b.id) d.teachers
    && all (λ (t : Teacher). any (λ (p : Department). p.id == t.department_id) d.departments)
        d.teachers

-- `uq_course_offering`.
abbrev pub offerings_clash : CourseOffering → CourseOffering → Bool
offerings_clash a b =
    a.id == b.id
    || a.course_id == b.course_id
      && (a.teacher_id == b.teacher_id
          && (str_eq a.semester b.semester
              && (a.academic_year == b.academic_year && str_eq a.section b.section)))

unfoldable pub offerings_ok : Db → Bool
offerings_ok d =
    is_unique offerings_clash d.offerings
    && all
        (λ (o : CourseOffering).
          any (λ (c : Course). c.id == o.course_id) d.courses
          && any (λ (t : Teacher). t.id == o.teacher_id) d.teachers)
        d.offerings

-- `uq_course_schedule`.
abbrev pub schedules_clash : CourseSchedule → CourseSchedule → Bool
schedules_clash a b =
    a.id == b.id
    || a.course_offering_id == b.course_offering_id
      && (str_eq a.day b.day && (a.start_time == b.start_time && a.end_time == b.end_time))

-- `ck_course_schedule_time_order`.
abbrev pub in_time_order : CourseSchedule → Bool
in_time_order s = ltb s.start_time s.end_time

unfoldable pub schedules_ok : Db → Bool
schedules_ok d =
    is_unique schedules_clash d.schedules
    && (all in_time_order d.schedules
        && all
            (λ (s : CourseSchedule).
              any (λ (o : CourseOffering). o.id == s.course_offering_id) d.offerings)
            d.schedules)

-- Two enrollments collide on the key, the code, or the pair of student and course offering.
abbrev pub enrollments_clash : Enrollment → Enrollment → Bool
enrollments_clash a b =
    a.id == b.id
    || str_eq a.enrollment_code b.enrollment_code
    || a.student_id == b.student_id && a.course_offering_id == b.course_offering_id

-- `ck_enrollment_grade_range` and `ck_enrollment_active_xor_withdrawn`.
abbrev pub grade_in_range : Option ℕ → Bool
grade_in_range none = true
grade_in_range (some g) = leb g 100

abbrev pub enrollment_checks : Enrollment → Bool
enrollment_checks e = grade_in_range e.grade && not (e.is_active && e.is_withdrawn)

abbrev pub enrollment_keys : Db → Enrollment → Bool
enrollment_keys d e =
    any (λ (s : Student). s.id == e.student_id) d.students
    && any (λ (o : CourseOffering). o.id == e.course_offering_id) d.offerings

unfoldable pub enrollments_ok : Db → Bool
enrollments_ok d =
    is_unique enrollments_clash d.enrollments
    && (all enrollment_checks d.enrollments && all (enrollment_keys d) d.enrollments)

unfoldable pub jobs_ok : Db → Bool
jobs_ok d = is_unique (λ (a b : Job). a.job_id == b.job_id) d.jobs

-- `report.job_id` is unique and refers to a job.
unfoldable pub reports_ok : Db → Bool
reports_ok d =
    is_unique (λ (a b : Report). a.id == b.id || a.job_id == b.job_id) d.reports
    && all (λ (r : Report). any (λ (j : Job). j.job_id == r.job_id) d.jobs) d.reports

-- What the database enforces when a transaction commits.
unfoldable pub constraints : Db → Bool
constraints d =
    users_ok d
    && (students_ok d
        && (colleges_ok d
            && (departments_ok d
                && (courses_ok d
                    && (teachers_ok d
                        && (offerings_ok d
                            && (schedules_ok d
                                && (enrollments_ok d && (jobs_ok d && reports_ok d)))))))))

-- How a flush or a commit of new rows ends.
pub data Verdict : Type 0 where
  committed violated invalid_data : Verdict

-- PostgreSQL, which decides whether a transaction commits: it lets through only states that meet
-- the constraints, and reports a violation only where there is one.
pub record Postgres : Type 0 where
  pub verdict : Db → Verdict
  pub accepts : (d : Db) → verdict d ≡ committed → constraints d ≡ true
  pub rejects : (d : Db) → verdict d ≡ violated → constraints d ≡ false

pub constraints-enrollments : (d : Db) → constraints d ≡ true → enrollments_ok d ≡ true
unfolding constraints
constraints-enrollments d h = ground arith

pub constraints-users : (d : Db) → constraints d ≡ true → users_ok d ≡ true
unfolding constraints
constraints-users d h = ground arith

pub constraints-students : (d : Db) → constraints d ≡ true → students_ok d ≡ true
unfolding constraints
constraints-students d h = ground arith

pub constraints-reports : (d : Db) → constraints d ≡ true → reports_ok d ≡ true
unfolding constraints
constraints-reports d h = ground arith

pub constraints-jobs : (d : Db) → constraints d ≡ true → jobs_ok d ≡ true
unfolding constraints
constraints-jobs d h = ground arith

pub constraints-schedules : (d : Db) → constraints d ≡ true → schedules_ok d ≡ true
unfolding constraints
constraints-schedules d h = ground arith
