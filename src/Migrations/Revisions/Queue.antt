-- ===== src/Migrations/Revisions/Queue.antt =====
-- The revisions of the job queue, and the last ones of accounts, enrollments and schedules.
use system_uni.Prelude.{some, true, false, [], ◌∷◌}
use system_uni.Migrations.{
  integer, timestamp, json, varchar, no_default, literal, primary_key, unique, foreign_key, check,
  create_table, drop_table, add_column, drop_column, set_nullable, set_default, create_constraint,
  drop_constraint, create_index, drop_index, backfill,
}
use system_uni.Migrations.Upgrade.{Revision}
use system_uni.Migrations.Revisions.{column, optional, defaulted, stamped, unnamed, named, index}

abbrev pub create_job_report : Revision
create_job_report = record {
  revision = "843b988b5e47";
  down_revision = some "dd978d37882b";
  upgrade =
      create_table "job"
        (column "job_id" (varchar 255)
          ∷ defaulted "job_version" integer "1"
          ∷ defaulted "status" (varchar 50) "queued"
          ∷ column "owner_id" integer
          ∷ optional "lease_until" timestamp
          ∷ column "report_type" (varchar 50)
          ∷ column "target_id" integer
          ∷ [])
        (unnamed (primary_key ("job_id" ∷ [])) ∷ [])
      ∷ create_index "job" (index "ix_job_owner_id" ("owner_id" ∷ []))
      ∷ create_index "job" (index "ix_job_status" ("status" ∷ []))
      ∷ create_table "report"
          (column "id" integer ∷ optional "result" json ∷ column "job_id" (varchar 255) ∷ [])
          (unnamed (foreign_key ("job_id" ∷ []) "job" true)
            ∷ unnamed (primary_key ("id" ∷ []))
            ∷ unnamed (unique ("job_id" ∷ []))
            ∷ [])
      ∷ [];
  downgrade =
      drop_table "report"
      ∷ drop_index "job" "ix_job_status"
      ∷ drop_index "job" "ix_job_owner_id"
      ∷ drop_table "job"
      ∷ [];
}

abbrev pub add_worker_token : Revision
add_worker_token = record {
  revision = "4f21c8e9b7a0";
  down_revision = some "843b988b5e47";
  upgrade =
      add_column "job" (optional "worker_token" (varchar 64))
      ∷ create_index "job" (index "ix_job_worker_token" ("worker_token" ∷ []))
      ∷ [];
  downgrade = drop_index "job" "ix_job_worker_token" ∷ drop_column "job" "worker_token" ∷ [];
}

abbrev pub redesign_queue : Revision
redesign_queue = record {
  revision = "8b2c6f1d3a90";
  down_revision = some "4f21c8e9b7a0";
  upgrade =
      set_default "job" "job_version" (literal "0")
      ∷ add_column "job" (defaulted "attempt_count" integer "0")
      ∷ add_column "job" (optional "retry_at" timestamp)
      ∷ add_column "job" (optional "last_error" (varchar 1000))
      ∷ add_column "job" (stamped "created_at")
      ∷ add_column "job" (stamped "updated_at")
      ∷ create_index "job" (index "ix_job_retry_at" ("retry_at" ∷ []))
      ∷ create_index "job" (index "ix_job_created_at" ("created_at" ∷ []))
      ∷ [];
  downgrade =
      drop_index "job" "ix_job_created_at"
      ∷ drop_index "job" "ix_job_retry_at"
      ∷ drop_column "job" "updated_at"
      ∷ drop_column "job" "created_at"
      ∷ drop_column "job" "last_error"
      ∷ drop_column "job" "retry_at"
      ∷ drop_column "job" "attempt_count"
      ∷ set_default "job" "job_version" (literal "1")
      ∷ [];
}

abbrev pub add_token_version : Revision
add_token_version = record {
  revision = "c4d5e6f7a8b9";
  down_revision = some "8b2c6f1d3a90";
  upgrade =
      add_column "users" (optional "token_version" integer)
      ∷ backfill "users" "token_version"
      ∷ set_nullable "users" "token_version" false
      ∷ [];
  downgrade = drop_column "users" "token_version" ∷ [];
}

abbrev pub add_check_constraints : Revision
add_check_constraints = record {
  revision = "b1a2c3d4e5f6";
  down_revision = some "c4d5e6f7a8b9";
  upgrade =
      create_constraint "enrollment" (
        named "ck_enrollment_grade_range"
          (check ("grade" ∷ []) "grade IS NULL OR (grade >= 0 AND grade <= 100)"))
      ∷ create_constraint "enrollment" (
          named "ck_enrollment_active_xor_withdrawn"
            (check ("is_active" ∷ "is_withdrawn" ∷ []) "NOT (is_active AND is_withdrawn)"))
      ∷ set_default "enrollment" "is_active" (literal "true")
      ∷ set_default "enrollment" "is_withdrawn" (literal "false")
      ∷ create_constraint "course_schedule" (
          named "ck_course_schedule_time_order"
            (check ("end_time" ∷ "start_time" ∷ []) "end_time > start_time"))
      ∷ [];
  downgrade =
      drop_constraint "course_schedule" (some "ck_course_schedule_time_order")
      ∷ set_default "enrollment" "is_active" no_default
      ∷ set_default "enrollment" "is_withdrawn" no_default
      ∷ drop_constraint "enrollment" (some "ck_enrollment_active_xor_withdrawn")
      ∷ drop_constraint "enrollment" (some "ck_enrollment_grade_range")
      ∷ [];
}

abbrev pub add_job_claim_index : Revision
add_job_claim_index = record {
  revision = "d7e8f9a0b1c2";
  down_revision = some "b1a2c3d4e5f6";
  upgrade =
      create_index "job" (index "ix_job_claim" ("status" ∷ "retry_at" ∷ "lease_until" ∷ [])) ∷ [];
  downgrade = drop_index "job" "ix_job_claim" ∷ [];
}
