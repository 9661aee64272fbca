-- ===== src/Migrations/Agreement.antt =====
-- When two schemas agree: tables, columns, constraints and indexes are sets.
use system_uni.Prelude.{
  String, Option, none, some, Bool, true, false, ◌&&◌, List, [], ◌∷◌, str_eq, ◌==◌, any, all,
}
use system_uni.Migrations.{
  ColumnType, integer, timestamp, time, boolean, json, user_role, varchar, Default, no_default, now,
  literal, Column, Rule, primary_key, unique, foreign_key, check, Constraint, Index, SqlTable,
  Schema,
}

abbrev pub same_bool : Bool → Bool → Bool
same_bool true b = b
same_bool false true = false
same_bool false false = true

abbrev pub same_type : ColumnType → ColumnType → Bool
same_type integer integer = true
same_type timestamp timestamp = true
same_type time time = true
same_type boolean boolean = true
same_type json json = true
same_type user_role user_role = true
same_type (varchar n) (varchar m) = n == m
same_type _ _ = false

abbrev pub same_default : Default → Default → Bool
same_default no_default no_default = true
same_default now now = true
same_default (literal a) (literal b) = str_eq a b
same_default _ _ = false

abbrev pub same_column : Column → Column → Bool
same_column a b =
    str_eq a.name b.name
    && (same_type a.type_of b.type_of
        && (same_bool a.nullable b.nullable && same_default a.server_default b.server_default))

abbrev pub same_strings : List String → List String → Bool
same_strings [] [] = true
same_strings (a ∷ xs) (b ∷ ys) = str_eq a b && same_strings xs ys
same_strings _ _ = false

abbrev pub same_rule : Rule → Rule → Bool
same_rule (primary_key a) (primary_key b) = same_strings a b
same_rule (unique a) (unique b) = same_strings a b
same_rule (foreign_key a t c) (foreign_key b u e) =
    same_strings a b && (str_eq t u && same_bool c e)
same_rule (check a s) (check b t) = same_strings a b && str_eq s t
same_rule _ _ = false

abbrev pub same_name : Option String → Option String → Bool
same_name none none = true
same_name (some a) (some b) = str_eq a b
same_name _ _ = false

abbrev pub same_constraint : Constraint → Constraint → Bool
same_constraint a b = same_name a.name b.name && same_rule a.rule b.rule

abbrev pub same_index : Index → Index → Bool
same_index a b =
    str_eq a.name b.name && (same_strings a.columns b.columns && same_bool a.is_unique b.is_unique)

-- The same elements, as sets.
abbrev pub same_set : {A : Type 0} → (A → A → Bool) → List A → List A → Bool
same_set same xs ys = all (λ x. any (same x) ys) xs && all (λ y. any (λ x. same x y) xs) ys

abbrev pub same_table : SqlTable → SqlTable → Bool
same_table a b =
    str_eq a.name b.name
    && (same_set same_column a.columns b.columns
        && (same_set same_constraint a.rules b.rules && same_set same_index a.indexes b.indexes))

unfoldable pub agrees : Schema → Schema → Bool
agrees s t = same_set same_table s t
