-- ===== src/Migrations/Revisions.antt =====
-- The revisions of alembic/versions, and short forms for what they are made of.
pub mod University
pub mod Accounts
pub mod Queue
use system_uni.Prelude.{String, none, some, true, false, List, [], ◌∷◌}
use system_uni.Migrations.{
  ColumnType, integer, timestamp, time, boolean, json, user_role, varchar, Default, no_default, now,
  literal, Column, Rule, primary_key, unique, foreign_key, check, Constraint, Index, Op,
  create_table, drop_table, add_column, drop_column, set_nullable, set_type, set_default,
  create_constraint, drop_constraint, create_index, drop_index, backfill,
}

abbrev pub column : String → ColumnType → Column
column n ty = record { name = n; type_of = ty; nullable = false; server_default = no_default }

abbrev pub optional : String → ColumnType → Column
optional n ty = record { name = n; type_of = ty; nullable = true; server_default = no_default }

abbrev pub defaulted : String → ColumnType → String → Column
defaulted n ty text = record {
  name = n;
  type_of = ty;
  nullable = false;
  server_default = literal text;
}

abbrev pub stamped : String → Column
stamped n = record { name = n; type_of = timestamp; nullable = false; server_default = now }

abbrev pub unnamed : Rule → Constraint
unnamed r = record { name = none; rule = r }

abbrev pub named : String → Rule → Constraint
named n r = record { name = some n; rule = r }

abbrev pub refers : String → String → Constraint
refers c t = unnamed (foreign_key (c ∷ []) t false)

abbrev pub index : String → List String → Index
index n cs = record { name = n; columns = cs; is_unique = false }

abbrev pub unique_index : String → List String → Index
unique_index n cs = record { name = n; columns = cs; is_unique = true }
