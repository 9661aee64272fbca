-- ===== src/Migrations/Declared.antt =====
-- The schema that the models of app/models declare. SQLAlchemy names an index of one column after the
-- table and the column, and makes a unique column that has an index a unique index.
use system_uni.Prelude.{true, [], ◌∷◌}
use system_uni.Migrations.{
  integer, timestamp, time, boolean, json, user_role, varchar, primary_key, unique, foreign_key,
  check, SqlTable, Schema,
}
use system_uni.Migrations.Revisions.{
  column, optional, defaulted, stamped, unnamed, named, refers, index, unique_index,
}

abbrev pub college_table : SqlTable
college_table = record {
  name = "college";
  columns =
      column "id" integer
      ∷ column "name" (varchar 150)
      ∷ column "code" (varchar 10)
      ∷ stamped "created_at"
      ∷ [];
  rules = unnamed (primary_key ("id" ∷ [])) ∷ unnamed (unique ("code" ∷ [])) ∷ [];
  indexes = index "ix_college_name" ("name" ∷ []) ∷ [];
}

abbrev pub course_table : SqlTable
course_table = record {
  name = "course";
  columns =
      column "id" integer
      ∷ column "name" (varchar 150)
      ∷ column "code" (varchar 10)
      ∷ stamped "created_at"
      ∷ optional "department_id" integer
      ∷ [];
  rules =
      unnamed (primary_key ("id" ∷ []))
      ∷ refers "department_id" "department"
      ∷ named "uq_course_code" (unique ("department_id" ∷ "code" ∷ []))
      ∷ named "uq_course_name" (unique ("department_id" ∷ "name" ∷ []))
      ∷ [];
  indexes = [];
}

abbrev pub course_offering_table : SqlTable
course_offering_table = record {
  name = "course_offering";
  columns =
      column "id" integer
      ∷ column "course_id" integer
      ∷ column "teacher_id" integer
      ∷ column "semester" (varchar 10)
      ∷ column "academic_year" integer
      ∷ column "section" (varchar 10)
      ∷ stamped "created_at"
      ∷ [];
  rules =
      unnamed (primary_key ("id" ∷ []))
      ∷ refers "course_id" "course"
      ∷ refers "teacher_id" "teacher"
      ∷ named "uq_course_offering"
          (unique ("course_id" ∷ "teacher_id" ∷ "semester" ∷ "academic_year" ∷ "section" ∷ []))
      ∷ [];
  indexes = [];
}

abbrev pub course_schedule_table : SqlTable
course_schedule_table = record {
  name = "course_schedule";
  columns =
      column "id" integer
      ∷ column "day" (varchar 10)
      ∷ column "schedule_type" (varchar 10)
      ∷ column "start_time" time
      ∷ column "end_time" time
      ∷ column "room" (varchar 10)
      ∷ column "course_offering_id" integer
      ∷ stamped "created_at"
      ∷ [];
  rules =
      unnamed (primary_key ("id" ∷ []))
      ∷ refers "course_offering_id" "course_offering"
      ∷ named "uq_course_schedule"
          (unique ("course_offering_id" ∷ "day" ∷ "start_time" ∷ "end_time" ∷ []))
      ∷ named "ck_course_schedule_time_order"
          (check ("end_time" ∷ "start_time" ∷ []) "end_time > start_time")
      ∷ [];
  indexes = [];
}

abbrev pub department_table : SqlTable
department_table = record {
  name = "department";
  columns =
      column "id" integer
      ∷ column "name" (varchar 150)
      ∷ column "code" (varchar 10)
      ∷ stamped "created_at"
      ∷ column "college_id" integer
      ∷ [];
  rules =
      unnamed (primary_key ("id" ∷ []))
      ∷ refers "college_id" "college"
      ∷ named "uq_department_name" (unique ("college_id" ∷ "name" ∷ []))
      ∷ named "uq_department_code" (unique ("college_id" ∷ "code" ∷ []))
      ∷ [];
  indexes = index "ix_department_name" ("name" ∷ []) ∷ [];
}

abbrev pub enrollment_table : SqlTable
enrollment_table = record {
  name = "enrollment";
  columns =
      column "id" integer
      ∷ column "student_id" integer
      ∷ column "course_offering_id" integer
      ∷ column "enrollment_code" (varchar 50)
      ∷ optional "grade" integer
      ∷ defaulted "is_active" boolean "true"
      ∷ defaulted "is_withdrawn" boolean "false"
      ∷ stamped "created_at"
      ∷ [];
  rules =
      unnamed (primary_key ("id" ∷ []))
      ∷ refers "student_id" "student"
      ∷ refers "course_offering_id" "course_offering"
      ∷ named "uq_student_course_offering" (unique ("student_id" ∷ "course_offering_id" ∷ []))
      ∷ named "ck_enrollment_grade_range"
          (check ("grade" ∷ []) "grade IS NULL OR (grade >= 0 AND grade <= 100)")
      ∷ named "ck_enrollment_active_xor_withdrawn"
          (check ("is_active" ∷ "is_withdrawn" ∷ []) "NOT (is_active AND is_withdrawn)")
      ∷ [];
  indexes = unique_index "ix_enrollment_enrollment_code" ("enrollment_code" ∷ []) ∷ [];
}

abbrev pub job_table : SqlTable
job_table = record {
  name = "job";
  columns =
      column "job_id" (varchar 255)
      ∷ defaulted "job_version" integer "0"
      ∷ defaulted "status" (varchar 50) "queued"
      ∷ column "owner_id" integer
      ∷ optional "worker_token" (varchar 64)
      ∷ optional "lease_until" timestamp
      ∷ column "report_type" (varchar 50)
      ∷ column "target_id" integer
      ∷ defaulted "attempt_count" integer "0"
      ∷ optional "retry_at" timestamp
      ∷ optional "last_error" (varchar 1000)
      ∷ stamped "created_at"
      ∷ stamped "updated_at"
      ∷ [];
  rules = unnamed (primary_key ("job_id" ∷ [])) ∷ [];
  indexes =
      index "ix_job_status" ("status" ∷ [])
      ∷ index "ix_job_owner_id" ("owner_id" ∷ [])
      ∷ index "ix_job_worker_token" ("worker_token" ∷ [])
      ∷ index "ix_job_retry_at" ("retry_at" ∷ [])
      ∷ index "ix_job_created_at" ("created_at" ∷ [])
      ∷ index "ix_job_claim" ("status" ∷ "retry_at" ∷ "lease_until" ∷ [])
      ∷ [];
}

abbrev pub report_table : SqlTable
report_table = record {
  name = "report";
  columns = column "id" integer ∷ optional "result" json ∷ column "job_id" (varchar 255) ∷ [];
  rules =
      unnamed (primary_key ("id" ∷ []))
      ∷ unnamed (foreign_key ("job_id" ∷ []) "job" true)
      ∷ unnamed (unique ("job_id" ∷ []))
      ∷ [];
  indexes = [];
}

abbrev pub student_table : SqlTable
student_table = record {
  name = "student";
  columns =
      column "id" integer
      ∷ column "name" (varchar 150)
      ∷ optional "age" integer
      ∷ column "email" (varchar 150)
      ∷ stamped "created_at"
      ∷ column "department_id" integer
      ∷ optional "user_id" integer
      ∷ defaulted "version_id" integer "1"
      ∷ [];
  rules =
      unnamed (primary_key ("id" ∷ []))
      ∷ unnamed (unique ("email" ∷ []))
      ∷ refers "department_id" "department"
      ∷ refers "user_id" "users"
      ∷ [];
  indexes =
      index "ix_student_name" ("name" ∷ [])
      ∷ unique_index "ix_student_user_id" ("user_id" ∷ [])
      ∷ [];
}

abbrev pub teacher_table : SqlTable
teacher_table = record {
  name = "teacher";
  columns =
      column "id" integer
      ∷ column "name" (varchar 150)
      ∷ stamped "created_at"
      ∷ column "department_id" integer
      ∷ [];
  rules = unnamed (primary_key ("id" ∷ [])) ∷ refers "department_id" "department" ∷ [];
  indexes = [];
}

abbrev pub users_table : SqlTable
users_table = record {
  name = "users";
  columns =
      column "id" integer
      ∷ column "username" (varchar 150)
      ∷ column "email" (varchar 150)
      ∷ column "role" user_role
      ∷ stamped "created_at"
      ∷ column "password_hash" (varchar 255)
      ∷ defaulted "token_version" integer "0"
      ∷ [];
  rules =
      unnamed (primary_key ("id" ∷ []))
      ∷ unnamed (unique ("username" ∷ []))
      ∷ unnamed (unique ("email" ∷ []))
      ∷ [];
  indexes = [];
}

-- `Base.metadata`.
abbrev pub declared : Schema
declared =
    college_table ∷ course_table ∷ course_offering_table ∷ course_schedule_table ∷ department_table
    ∷ enrollment_table ∷ job_table ∷ report_table ∷ student_table ∷ teacher_table ∷ users_table ∷ []
