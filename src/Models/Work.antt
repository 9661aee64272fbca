-- ===== src/Models/Work.antt =====
-- app/models/job.py and app/models/report.py, with the transcript that a report holds
-- (app/services/reports.py). A uuid is the number that its 32 hexadecimal digits write, so that the
-- order of the texts is the order of the numbers. A message is the list of its code points.
use system_uni.Prelude.{ℕ, String, Option, Bool, List}

pub data Status : Type 0 where
  queued processing completed failed : Status

pub Status-discrete : Discrete Status
Status-discrete = hlevel

pub record Job : Type 0 where
  pub job_id : ℕ
  pub job_version : ℕ
  pub status : Status
  pub owner_id : ℕ
  pub worker_token : Option ℕ
  pub lease_until : Option ℕ
  pub report_type : String
  pub target_id : ℕ
  pub attempt_count : ℕ
  pub retry_at : Option ℕ
  pub last_error : Option (List ℕ)
  pub created_at : ℕ
  pub updated_at : ℕ

pub record CourseRecord : Type 0 where
  pub enrollment_code : String
  pub course_offering_id : ℕ
  pub grade : Option ℕ
  pub is_active : Bool
  pub is_withdrawn : Bool

-- `gpa` counts hundredths: the source rounds it to two decimals.
pub record Transcript : Type 0 where
  pub student_id : ℕ
  pub name : String
  pub email : String
  pub department_id : ℕ
  pub gpa : ℕ
  pub total_courses : ℕ
  pub courses : List CourseRecord

pub record Report : Type 0 where
  pub id : ℕ
  pub result : Transcript
  pub job_id : ℕ
