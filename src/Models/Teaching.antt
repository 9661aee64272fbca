-- ===== src/Models/Teaching.antt =====
-- The tables of the teaching side: app/models/college.py, department.py, course.py, teacher.py,
-- courseoffering.py, courseschedule.py and enrollment.py. A grade is a natural number: the request
-- schema and the check constraint both refuse a negative one. A `time` is its microsecond of the
-- day.
use system_uni.Prelude.{ℕ, String, Option, Bool}

pub record College : Type 0 where
  pub id : ℕ
  pub name : String
  pub code : String
  pub created_at : ℕ

pub record Department : Type 0 where
  pub id : ℕ
  pub name : String
  pub code : String
  pub created_at : ℕ
  pub college_id : ℕ

pub record Course : Type 0 where
  pub id : ℕ
  pub name : String
  pub code : String
  pub created_at : ℕ
  pub department_id : Option ℕ

pub record Teacher : Type 0 where
  pub id : ℕ
  pub name : String
  pub created_at : ℕ
  pub department_id : ℕ

pub record CourseOffering : Type 0 where
  pub id : ℕ
  pub course_id : ℕ
  pub teacher_id : ℕ
  pub semester : String
  pub academic_year : ℕ
  pub section : String
  pub created_at : ℕ

-- The columns of the times are TIME WITHOUT TIME ZONE: microseconds from midnight.
pub record CourseSchedule : Type 0 where
  pub id : ℕ
  pub day : String
  pub schedule_type : String
  pub start_time : ℕ
  pub end_time : ℕ
  pub room : String
  pub course_offering_id : ℕ
  pub created_at : ℕ

pub record Enrollment : Type 0 where
  pub id : ℕ
  pub student_id : ℕ
  pub course_offering_id : ℕ
  pub enrollment_code : String
  pub grade : Option ℕ
  pub is_active : Bool
  pub is_withdrawn : Bool
  pub created_at : ℕ
