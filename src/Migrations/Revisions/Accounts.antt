-- ===== src/Migrations/Revisions/Accounts.antt =====
-- The revisions that bring accounts, and those of students and enrollments after them.
use system_uni.Prelude.{none, some, true, false, [], ◌∷◌}
use system_uni.Migrations.{
  integer, user_role, varchar, primary_key, unique, create_table, drop_table, add_column,
  drop_column, set_nullable, create_constraint, drop_constraint, create_index, drop_index, backfill,
}
use system_uni.Migrations.Upgrade.{Revision}
use system_uni.Migrations.Revisions.{
  column, optional, defaulted, stamped, unnamed, named, refers, unique_index,
}

abbrev pub add_user_table : Revision
add_user_table = record {
  revision = "261ef2b9bad0";
  down_revision = some "1f13b6c5ebd7";
  upgrade =
      create_table "users"
        (column "id" integer
          ∷ column "username" (varchar 150)
          ∷ column "email" (varchar 150)
          ∷ column "role" user_role
          ∷ stamped "created_at"
          ∷ column "password_hash" (varchar 255)
          ∷ [])
        (unnamed (primary_key ("id" ∷ []))
          ∷ unnamed (unique ("email" ∷ []))
          ∷ unnamed (unique ("username" ∷ []))
          ∷ [])
      ∷ add_column "enrollment" (optional "cenrollment_code" (varchar 50))
      ∷ backfill "enrollment" "cenrollment_code"
      ∷ set_nullable "enrollment" "cenrollment_code" false
      ∷ drop_constraint "enrollment" (some "enrollment_enrollment_code_key")
      ∷ drop_constraint "enrollment" (some "uq_enrollment_student_offering")
      ∷ create_constraint "enrollment"
          (named "uq_student_course_offering" (unique ("student_id" ∷ "course_offering_id" ∷ [])))
      ∷ drop_column "enrollment" "enrollment_code"
      ∷ add_column "student" (optional "age" integer)
      ∷ add_column "student" (optional "email" (varchar 150))
      ∷ backfill "student" "email"
      ∷ set_nullable "student" "email" false
      ∷ create_constraint "student" (unnamed (unique ("email" ∷ [])))
      ∷ [];
  downgrade =
      drop_constraint "student" none
      ∷ drop_column "student" "email"
      ∷ drop_column "student" "age"
      ∷ add_column "enrollment" (column "enrollment_code" (varchar 50))
      ∷ drop_constraint "enrollment" (some "uq_student_course_offering")
      ∷ create_constraint "enrollment" (
          named "uq_enrollment_student_offering"
            (unique ("student_id" ∷ "course_offering_id" ∷ [])))
      ∷ create_constraint "enrollment"
          (named "enrollment_enrollment_code_key" (unique ("enrollment_code" ∷ [])))
      ∷ drop_column "enrollment" "cenrollment_code"
      ∷ drop_table "users"
      ∷ [];
}

abbrev pub fix_enrollment_code : Revision
fix_enrollment_code = record {
  revision = "403a366388eb";
  down_revision = some "261ef2b9bad0";
  upgrade =
      set_nullable "course" "department_id" true
      ∷ add_column "enrollment" (column "enrollment_code" (varchar 50))
      ∷ drop_column "enrollment" "cenrollment_code"
      ∷ [];
  downgrade =
      add_column "enrollment" (column "cenrollment_code" (varchar 50))
      ∷ drop_column "enrollment" "enrollment_code"
      ∷ set_nullable "course" "department_id" false
      ∷ [];
}

abbrev pub add_user_id : Revision
add_user_id = record {
  revision = "feb7795f68f3";
  down_revision = some "403a366388eb";
  upgrade =
      create_index "enrollment"
        (unique_index "ix_enrollment_enrollment_code" ("enrollment_code" ∷ []))
      ∷ add_column "student" (optional "user_id" integer)
      ∷ create_index "student" (unique_index "ix_student_user_id" ("user_id" ∷ []))
      ∷ create_constraint "student" (refers "user_id" "users")
      ∷ [];
  downgrade =
      drop_constraint "student" none
      ∷ drop_index "student" "ix_student_user_id"
      ∷ drop_column "student" "user_id"
      ∷ drop_index "enrollment" "ix_enrollment_enrollment_code"
      ∷ [];
}

abbrev pub age_nullable : Revision
age_nullable = record {
  revision = "4108c6f0c305";
  down_revision = some "feb7795f68f3";
  upgrade = set_nullable "student" "age" true ∷ [];
  downgrade = set_nullable "student" "age" false ∷ [];
}

abbrev pub add_version_id : Revision
add_version_id = record {
  revision = "dd978d37882b";
  down_revision = some "4108c6f0c305";
  upgrade = add_column "student" (defaulted "version_id" integer "1") ∷ [];
  downgrade = drop_column "student" "version_id" ∷ [];
}
