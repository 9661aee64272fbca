-- ===== src/Migrations/Revisions/University.antt =====
-- The first four revisions: the tables of the university.
use system_uni.Prelude.{none, some, [], ◌∷◌}
use system_uni.Migrations.{
  integer, time, boolean, varchar, primary_key, unique, create_table, drop_table, add_column,
  drop_column, set_type, create_constraint, drop_constraint, create_index, drop_index,
}
use system_uni.Migrations.Upgrade.{Revision}
use system_uni.Migrations.Revisions.{column, optional, stamped, unnamed, named, refers, index}

abbrev pub initial_schema : Revision
initial_schema = record {
  revision = "efb3cf8d0b70";
  down_revision = none;
  upgrade = [];
  downgrade = [];
}

abbrev pub second_initial_schema : Revision
second_initial_schema = record {
  revision = "c2c3a82ed581";
  down_revision = some "efb3cf8d0b70";
  upgrade = [];
  downgrade = [];
}

abbrev pub add_tables : Revision
add_tables = record {
  revision = "fe5279b329bf";
  down_revision = some "c2c3a82ed581";
  upgrade =
      create_table "college"
        (column "id" integer
          ∷ column "name" (varchar 150)
          ∷ column "code" (varchar 10)
          ∷ stamped "created_at"
          ∷ [])
        (unnamed (primary_key ("id" ∷ [])) ∷ unnamed (unique ("code" ∷ [])) ∷ [])
      ∷ create_index "college" (index "ix_college_name" ("name" ∷ []))
      ∷ create_table "department"
          (column "id" integer
            ∷ column "name" (varchar 150)
            ∷ column "code" (varchar 10)
            ∷ stamped "created_at"
            ∷ column "college_id" integer
            ∷ [])
          (refers "college_id" "college"
            ∷ unnamed (primary_key ("id" ∷ []))
            ∷ named "uq_department_code" (unique ("college_id" ∷ "code" ∷ []))
            ∷ named "uq_department_name" (unique ("college_id" ∷ "name" ∷ []))
            ∷ [])
      ∷ create_index "department" (index "ix_department_name" ("name" ∷ []))
      ∷ create_table "course"
          (column "id" integer
            ∷ column "name" (varchar 150)
            ∷ column "code" (varchar 10)
            ∷ stamped "created_at"
            ∷ column "department_id" integer
            ∷ [])
          (refers "department_id" "department"
            ∷ unnamed (primary_key ("id" ∷ []))
            ∷ named "uq_course_code" (unique ("department_id" ∷ "code" ∷ []))
            ∷ named "uq_course_name" (unique ("department_id" ∷ "name" ∷ []))
            ∷ [])
      ∷ create_table "student"
          (column "id" integer
            ∷ column "name" (varchar 150)
            ∷ column "department_id" integer
            ∷ stamped "created_at"
            ∷ [])
          (refers "department_id" "department" ∷ unnamed (primary_key ("id" ∷ [])) ∷ [])
      ∷ create_index "student" (index "ix_student_name" ("name" ∷ []))
      ∷ create_table "teacher"
          (column "id" integer
            ∷ column "name" (varchar 150)
            ∷ column "department_id" integer
            ∷ stamped "created_at"
            ∷ [])
          (refers "department_id" "department" ∷ unnamed (primary_key ("id" ∷ [])) ∷ [])
      ∷ create_index "teacher" (index "ix_teacher_name" ("name" ∷ []))
      ∷ create_table "course_offering"
          (column "id" integer
            ∷ column "course_id" integer
            ∷ column "teacher_id" integer
            ∷ column "semester" (varchar 10)
            ∷ column "academic_year" integer
            ∷ column "section" (varchar 10)
            ∷ [])
          (refers "course_id" "course"
            ∷ refers "teacher_id" "teacher"
            ∷ unnamed (primary_key ("id" ∷ []))
            ∷ named "uq_course_offering" (
                unique ("course_id" ∷ "teacher_id" ∷ "semester" ∷ "academic_year" ∷ "section" ∷ []))
            ∷ [])
      ∷ create_table "course_schedule"
          (column "id" integer
            ∷ column "course_offering_id" integer
            ∷ column "day_of_week" (varchar 15)
            ∷ column "start_time" time
            ∷ column "end_time" time
            ∷ column "room" (varchar 50)
            ∷ [])
          (refers "course_offering_id" "course_offering" ∷ unnamed (primary_key ("id" ∷ [])) ∷ [])
      ∷ [];
  downgrade =
      drop_table "course_schedule"
      ∷ drop_table "course_offering"
      ∷ drop_index "teacher" "ix_teacher_name"
      ∷ drop_table "teacher"
      ∷ drop_index "student" "ix_student_name"
      ∷ drop_table "student"
      ∷ drop_table "course"
      ∷ drop_index "department" "ix_department_name"
      ∷ drop_table "department"
      ∷ drop_index "college" "ix_college_name"
      ∷ drop_table "college"
      ∷ [];
}

abbrev pub sync_models : Revision
sync_models = record {
  revision = "1f13b6c5ebd7";
  down_revision = some "fe5279b329bf";
  upgrade =
      create_table "enrollment"
        (column "id" integer
          ∷ column "student_id" integer
          ∷ column "course_offering_id" integer
          ∷ column "enrollment_code" (varchar 50)
          ∷ optional "grade" integer
          ∷ column "is_active" boolean
          ∷ column "is_withdrawn" boolean
          ∷ stamped "created_at"
          ∷ [])
        (refers "course_offering_id" "course_offering"
          ∷ refers "student_id" "student"
          ∷ unnamed (primary_key ("id" ∷ []))
          ∷ unnamed (unique ("enrollment_code" ∷ []))
          ∷ named "uq_enrollment_student_offering"
              (unique ("student_id" ∷ "course_offering_id" ∷ []))
          ∷ [])
      ∷ add_column "course_offering" (stamped "created_at")
      ∷ add_column "course_schedule" (column "day" (varchar 10))
      ∷ add_column "course_schedule" (column "schedule_type" (varchar 10))
      ∷ add_column "course_schedule" (stamped "created_at")
      ∷ set_type "course_schedule" "room" (varchar 10)
      ∷ create_constraint "course_schedule" (
          named "uq_course_schedule"
            (unique ("course_offering_id" ∷ "day" ∷ "start_time" ∷ "end_time" ∷ [])))
      ∷ drop_column "course_schedule" "day_of_week"
      ∷ drop_index "teacher" "ix_teacher_name"
      ∷ [];
  downgrade =
      create_index "teacher" (index "ix_teacher_name" ("name" ∷ []))
      ∷ add_column "course_schedule" (column "day_of_week" (varchar 15))
      ∷ drop_constraint "course_schedule" (some "uq_course_schedule")
      ∷ set_type "course_schedule" "room" (varchar 50)
      ∷ drop_column "course_schedule" "created_at"
      ∷ drop_column "course_schedule" "schedule_type"
      ∷ drop_column "course_schedule" "day"
      ∷ drop_column "course_offering" "created_at"
      ∷ drop_table "enrollment"
      ∷ [];
}
