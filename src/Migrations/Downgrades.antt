-- ===== src/Migrations/Downgrades.antt =====
-- The downgrades of alembic/versions, stage by stage.
use system_uni.Prelude.{
  ◌≡◌, refl, none, some, Bool, true, false, not, List, [], ◌∷◌, all, Memᴰ, all_mem, sym, ap, ◌∙◌,
  subst, length,
}
use system_uni.Migrations.{Schema, apply, mem}
use system_uni.Migrations.Upgrade.{
  Rows, Revision, is_refused, rows_after, Ddl, IsDocumented, documented, documented_lem, run,
}
use system_uni.Migrations.Revisions.Accounts.{add_user_table, add_user_id}
use system_uni.Migrations.Agreement.{agrees, same_bool}
use system_uni.Migrations.Laws.{history}

-- A revision, with the schemas before and after its upgrade.
pub record Stage : Type 0 where
  pub before : Schema
  pub made_by : Revision
  pub result : Schema

-- A database without rows.
abbrev pub blank : Rows
blank = record { has_rows = λ t. false; has_nulls = λ t c. false; violates = λ t n. false }

unfoldable pub stages : Ddl → List Revision → Schema → List Stage
stages ddl [] s = []
stages ddl (r ∷ rs) s = elim (run ddl blank r.upgrade s) [
  | none ↦ []
  | some s' ↦ record { before = s; made_by = r; result = s' } ∷ stages ddl rs s'
]

-- The downgrade goes through and gives back the schema before the upgrade.
unfoldable pub reverts : Ddl → Stage → Bool
reverts ddl x = elim (run ddl blank x.made_by.downgrade x.result) [
  | none ↦ false
  | some s ↦ agrees s x.before
]

abbrev pub is_irreversible : Revision → Bool
is_irreversible r = mem r.revision ("261ef2b9bad0" ∷ "feb7795f68f3" ∷ "4108c6f0c305" ∷ [])

abbrev is_as_told : Stage → Bool
is_as_told x = same_bool (reverts documented x) (not (is_irreversible x.made_by))

all_as_told : all is_as_told (stages documented history []) ≡ true
unfolding stages reverts apply agrees run is_refused rows_after
all_as_told = refl

-- Each of the fifteen revisions is a stage.
stages_complete : length (stages documented history []) ≡ 15
unfolding stages run is_refused apply rows_after
stages_complete = refl

same_bool_eq : (a b : Bool) → same_bool a b ≡ true → a ≡ b
same_bool_eq true b h = sym h
same_bool_eq false true h = cc
same_bool_eq false false h = refl

documented-reverts :
    (x : Stage)
    → Memᴰ x (stages documented history [])
    → reverts documented x ≡ not (is_irreversible x.made_by)
documented-reverts x m =
    same_bool_eq (reverts documented x) (not (is_irreversible x.made_by))
      (all_mem is_as_told (stages documented history []) all_as_told m)

-- If alembic and PostgreSQL do what is documented: at every stage of the chain, on a database without
-- rows, the downgrade goes through and gives back the schema before the upgrade, except for exactly
-- three revisions: 261ef2b9bad0, feb7795f68f3 and 4108c6f0c305.
pub reverts-is_irreversible :
    (ddl : Ddl) (x : Stage)
    → IsDocumented ddl
    → Memᴰ x (stages ddl history [])
    → reverts ddl x ≡ not (is_irreversible x.made_by)
reverts-is_irreversible ddl x h m =
    let e = documented_lem ddl h in
    ap (λ y. reverts y x) e ∙ documented-reverts x (subst (λ y. Memᴰ x (stages y history [])) e m)

-- As documented, two downgrades drop a constraint without a name, and so fail on every schema,
-- whatever the rows are.
nameless_downgrades_fail :
    (d : Rows) (s : Schema)
    → (run documented d add_user_table.downgrade s ≡ none)
      × (run documented d add_user_id.downgrade s ≡ none)
unfolding run is_refused apply
nameless_downgrades_fail d s = (refl, refl)
