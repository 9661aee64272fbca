-- ===== src/Migrations/Laws.antt =====
-- The chain of revisions of alembic/versions, from an empty schema to the head.
use system_uni.Prelude.{
  ℕ, suc, ◌≡◌, refl, ap, ◌∙◌, String, Option, none, some, Bool, true, false, ◌&&◌, ◌||◌, List, [],
  ◌∷◌, if◌then◌else◌, arith,
}
use system_uni.Migrations.{Schema, Op, apply, apply_all, set_default, no_default}
use system_uni.Migrations.Upgrade.{
  Rows, is_refused, rows_after, Ddl, IsDocumented, documented, documented_lem, run, Revision,
  upgrade_all,
}
use system_uni.Migrations.Revisions.University.{
  initial_schema, second_initial_schema, add_tables, sync_models,
}
use system_uni.Migrations.Revisions.Accounts.{
  add_user_table, fix_enrollment_code, add_user_id, age_nullable, add_version_id,
}
use system_uni.Migrations.Revisions.Queue.{
  create_job_report, add_worker_token, redesign_queue, add_token_version, add_check_constraints,
  add_job_claim_index,
}
use system_uni.Migrations.Agreement.{agrees, same_name}
use system_uni.Migrations.Declared.{declared}

-- The revisions, from the base to the head.
abbrev pub history : List Revision
history =
    initial_schema ∷ second_initial_schema ∷ add_tables ∷ sync_models ∷ add_user_table
    ∷ fix_enrollment_code ∷ add_user_id ∷ age_nullable ∷ add_version_id ∷ create_job_report
    ∷ add_worker_token ∷ redesign_queue ∷ add_token_version ∷ add_check_constraints
    ∷ add_job_claim_index ∷ []

abbrev is_chain : Option String → List Revision → Bool
is_chain parent [] = true
is_chain parent (r ∷ rs) = same_name r.down_revision parent && is_chain (some r.revision) rs

-- `history` is the order of the `down_revision` links.
history_linked : is_chain none history ≡ true
history_linked = refl

unfoldable is_stopped : Rows → List Op → Bool
is_stopped d [] = false
is_stopped d (op ∷ ops) = is_refused d op || is_stopped (rows_after op d) ops

unfoldable is_halted : (ℕ → Rows) → ℕ → List Revision → Bool
is_halted rows n [] = false
is_halted rows n (r ∷ rs) = is_stopped (rows n) r.upgrade || is_halted rows (suc n) rs

unfoldable apply_revisions : List Revision → Schema → Option Schema
apply_revisions [] s = some s
apply_revisions (r ∷ rs) s = elim (apply_all r.upgrade s) [
  | none ↦ none
  | some s' ↦ apply_revisions rs s'
]

if_none : (b : Bool) → ◌≡◌ {A = Option Schema} none (if b then none else none)
if_none true = refl
if_none false = refl

run-apply_all :
    (d : Rows) (ops : List Op) (s : Schema)
    → run documented d ops s ≡ (if is_stopped d ops then none else apply_all ops s)
unfolding run is_stopped apply_all
run-apply_all d [] s = refl
run-apply_all d (op ∷ ops) s =
    go (is_refused d op) (apply op s) (run-apply_all (rows_after op d) ops)
  where
    go :
        (b : Bool) (r : Option Schema)
        → ((s' : Schema)
            → run documented (rows_after op d) ops s'
              ≡ (if is_stopped (rows_after op d) ops then none else apply_all ops s'))
        → (if b
            then none
            else elim r [ none ↦ none | some s' ↦ run documented (rows_after op d) ops s' ])
          ≡ (if b || is_stopped (rows_after op d) ops
              then none
              else elim r [ none ↦ none | some s' ↦ apply_all ops s' ])
    go true r later = refl
    go false none later = if_none (is_stopped (rows_after op d) ops)
    go false (some s') later = later s'

upgrade_all-apply_revisions :
    (rows : ℕ → Rows) (n : ℕ) (rs : List Revision) (s : Schema)
    → upgrade_all documented rows n rs s
      ≡ (if is_halted rows n rs then none else apply_revisions rs s)
unfolding upgrade_all is_halted apply_revisions
upgrade_all-apply_revisions rows n [] s = refl
upgrade_all-apply_revisions rows n (r ∷ rs) s =
    ap next (run-apply_all (rows n) r.upgrade s)
    ∙ go (is_stopped (rows n) r.upgrade) (apply_all r.upgrade s)
        (upgrade_all-apply_revisions rows (suc n) rs)
  where
    next : Option Schema → Option Schema
    next x = elim x [ none ↦ none | some s' ↦ upgrade_all documented rows (suc n) rs s' ]

    go :
        (b : Bool) (x : Option Schema)
        → ((s' : Schema)
            → upgrade_all documented rows (suc n) rs s'
              ≡ (if is_halted rows (suc n) rs then none else apply_revisions rs s'))
        → next (if b then none else x) ≡ (
            if b || is_halted rows (suc n) rs
            then none
            else elim x [ none ↦ none | some s' ↦ apply_revisions rs s' ])
    go true x later = refl
    go false none later = if_none (is_halted rows (suc n) rs)
    go false (some s') later = later s'

-- The rows that stop the chain: schedules as revision 1f13b6c5ebd7 begins, enrollments as 403a366388eb
-- does, and rows that violate a constraint that a revision adds.
abbrev pub is_hindered : (ℕ → Rows) → Bool
is_hindered rows =
    (rows 3).has_rows "course_schedule"
    || ((rows 3).violates "course_schedule" (some "uq_course_schedule")
        || ((rows 4).violates "enrollment" (some "uq_student_course_offering")
            || ((rows 4).violates "student" none
                || ((rows 5).has_rows "enrollment"
                    || ((rows 6).violates "enrollment" (some "ix_enrollment_enrollment_code")
                        || ((rows 6).violates "student" (some "ix_student_user_id")
                            || ((rows 6).violates "student" none
                                || ((rows 13).violates "enrollment"
                                      (some "ck_enrollment_grade_range")
                                    || ((rows 13).violates "enrollment"
                                          (some "ck_enrollment_active_xor_withdrawn")
                                        || (rows 13).violates "course_schedule"
                                            (some "ck_course_schedule_time_order"))))))))))

is_halted-is_hindered : (rows : ℕ → Rows) → is_halted rows 0 history ≡ is_hindered rows
unfolding is_halted is_stopped is_refused rows_after
is_halted-is_hindered rows = ground arith

unfoldable latest : Schema
latest = elim (apply_revisions history []) [ none ↦ [] | some s ↦ s ]

latest_lem : apply_revisions history [] ≡ some latest
unfolding latest apply_revisions apply_all apply
latest_lem = refl

-- The schema of the models, but for the default of `users.token_version`.
abbrev pub is_declared : Schema → Bool
is_declared s = elim (apply (set_default "users" "token_version" no_default) declared) [
  | none ↦ false
  | some s' ↦ agrees s s'
]

latest-is_declared : (is_declared latest ≡ true) × (agrees latest declared ≡ false)
unfolding latest apply_revisions apply_all apply agrees
latest-is_declared = (refl, refl)

-- If alembic and PostgreSQL do what is documented, whatever the rows are like as each revision begins: the upgrade of an empty schema to the head goes
-- through unless some table has schedules at 1f13b6c5ebd7, enrollments at 403a366388eb, or rows that
-- violate a constraint that a revision adds. It then ends in one schema, which has the tables, columns,
-- constraints and indexes of the models, and differs from them in the default of
-- `users.token_version` alone.
pub upgrade_all_reaches_models :
    (ddl : Ddl) (rows : ℕ → Rows)
    → IsDocumented ddl
    → (s : Schema) × (upgrade_all ddl rows 0 history []
        ≡ (if is_hindered rows then none else some s))
      × (is_declared s ≡ true)
      × (agrees s declared ≡ false)
upgrade_all_reaches_models ddl rows h = (
  latest,
  ap (λ x. upgrade_all x rows 0 history []) (documented_lem ddl h)
      ∙ upgrade_all-apply_revisions rows 0 history []
      ∙ ap (λ b. if b then none else apply_revisions history []) (is_halted-is_hindered rows)
      ∙ ap (λ x. if is_hindered rows then none else x) latest_lem,
  latest-is_declared.0,
  latest-is_declared.1,
)
