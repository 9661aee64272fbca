-- ===== src/Migrations/Tests.antt =====
-- The theorems on the migrations at concrete inputs.
use system_uni.Prelude.{
  ℕ, ◌≡◌, refl, none, some, true, false, not, ◌==◌, ◌&&◌, [], str_eq, Memᴰ, if◌then◌else◌,
}
use system_uni.Migrations.{Schema}
use system_uni.Migrations.Upgrade.{Rows, IsDocumented, documented, run, upgrade_all}
use system_uni.Migrations.Agreement.{agrees}
use system_uni.Migrations.Declared.{declared}
use system_uni.Migrations.Revisions.University.{initial_schema}
use system_uni.Migrations.Laws.{history, is_hindered, is_declared, upgrade_all_reaches_models}
use system_uni.Migrations.Downgrades.{
  Stage, stages, blank, reverts, is_irreversible, reverts-is_irreversible,
}

-- Enrollments were made before revision 403a366388eb.
abbrev in_use : ℕ → Rows
in_use n = record blank { has_rows = λ t. n == 5 && str_eq t "enrollment" }

as_documented : IsDocumented documented
as_documented = record {
  execute_lem = λ op s. refl;
  refuses_lem = λ d op. refl;
  leaves_lem = λ op d. refl;
}

upgrade_all_reaches_models_example :
    (s : Schema) × (upgrade_all documented in_use 0 history []
      ≡ (if is_hindered in_use then none else some s))
    × (is_declared s ≡ true)
    × (agrees s declared ≡ false)
upgrade_all_reaches_models_example = upgrade_all_reaches_models documented in_use as_documented

abbrev first_stage : Stage
first_stage = record { before = []; made_by = initial_schema; result = [] }

first_stage_mem : Memᴰ first_stage (stages documented history [])
unfolding stages run
first_stage_mem = Memᴰ.head refl

reverts-is_irreversible_example :
    reverts documented first_stage ≡ not (is_irreversible initial_schema)
reverts-is_irreversible_example =
    reverts-is_irreversible documented first_stage as_documented first_stage_mem
