-- ===== src/Migrations.antt =====
-- alembic/versions: schemas and the operations of alembic that the revisions use. What alembic and
-- PostgreSQL do with them is an argument, `Upgrade.Ddl`; `apply` writes their documented behaviour
-- out, for its laws.
pub mod Upgrade
pub mod Revisions
pub mod Agreement
pub mod Declared
pub mod Laws
pub mod Downgrades
mod Tests
use system_uni.Prelude.{
  ℕ, suc, String, Option, none, some, Bool, true, false, not, ◌&&◌, ◌||◌, List, [], ◌∷◌, ◌++◌, ◌==◌,
  str_eq, any, all, find?, select_where, update_where, is_none, if◌then◌else◌,
}

pub data ColumnType : Type 0 where
  integer timestamp time boolean json user_role : ColumnType
  varchar : ℕ → ColumnType

-- `now()` and `CURRENT_TIMESTAMP` are the same function.
pub data Default : Type 0 where
  no_default now : Default
  literal : String → Default

pub record Column : Type 0 where
  pub name : String
  pub type_of : ColumnType
  pub nullable : Bool
  pub server_default : Default

pub data Rule : Type 0 where
  primary_key unique : List String → Rule
  -- The columns, the table they refer to, and `ON DELETE CASCADE`.
  foreign_key : List String → String → Bool → Rule
  check : List String → String → Rule

-- A constraint, with the name that the source gives it.
pub record Constraint : Type 0 where
  pub name : Option String
  pub rule : Rule

pub record Index : Type 0 where
  pub name : String
  pub columns : List String
  pub is_unique : Bool

pub record SqlTable : Type 0 where
  pub name : String
  pub columns : List Column
  pub rules : List Constraint
  pub indexes : List Index

abbrev pub Schema : Type 0
Schema = List SqlTable

pub data Op : Type 0 where
  create_table : String → List Column → List Constraint → Op
  drop_table : String → Op
  add_column : String → Column → Op
  drop_column : String → String → Op
  set_nullable : String → String → Bool → Op
  set_type : String → String → ColumnType → Op
  set_default : String → String → Default → Op
  create_constraint : String → Constraint → Op
  drop_constraint : String → Option String → Op
  create_index : String → Index → Op
  drop_index : String → String → Op
  -- An UPDATE that gives every row a value in the column.
  backfill : String → String → Op

abbrev pub mem : String → List String → Bool
mem s xs = any (str_eq s) xs

abbrev pub columns_of : Rule → List String
columns_of (primary_key cs) = cs
columns_of (unique cs) = cs
columns_of (foreign_key cs t cascade) = cs
columns_of (check cs text) = cs

abbrev pub refers_to : String → Rule → Bool
refers_to t (primary_key cs) = false
refers_to t (unique cs) = false
refers_to t (foreign_key cs s cascade) = str_eq s t
refers_to t (check cs text) = false

abbrev pub append : String → String → String
append String.[] t = t
append (String.◌∷◌ c s) t = String.◌∷◌ c (append s t)

-- The name that PostgreSQL gives to the constraint of one column.
abbrev pub generated_name : String → Rule → String
generated_name t (primary_key cs) = append t "_pkey"
generated_name t (unique []) = append t "_key"
generated_name t (unique (c ∷ cs)) = append t (append "_" (append c "_key"))
generated_name t (foreign_key [] s cascade) = append t "_fkey"
generated_name t (foreign_key (c ∷ cs) s cascade) = append t (append "_" (append c "_fkey"))
generated_name t (check cs text) = append t "_check"

abbrev pub is_called : String → String → Constraint → Bool
is_called t n c = elim c.name [ none ↦ str_eq (generated_name t c.rule) n | some m ↦ str_eq m n ]

abbrev pub has_table : String → Schema → Bool
has_table t s = any (λ (x : SqlTable). str_eq x.name t) s

abbrev pub has_column : String → SqlTable → Bool
has_column c t = any (λ (x : Column). str_eq x.name c) t.columns

abbrev pub has_index : String → SqlTable → Bool
has_index n t = any (λ (x : Index). str_eq x.name n) t.indexes

-- Every column of a rule is there, and so is the table that it refers to.
abbrev pub can_hold : Schema → SqlTable → Rule → Bool
can_hold s t r = all (λ c. has_column c t) (columns_of r) && elim r [
  | primary_key cs ↦ true
  | unique cs ↦ true
  | foreign_key cs u cascade ↦ has_table u s
  | check cs text ↦ true
]

-- A change of one table, if the table is there and the test holds of it.
abbrev pub change_table :
    String → (SqlTable → Bool) → (SqlTable → SqlTable) → Schema → Option Schema
change_table t test f s =
    if any (λ (x : SqlTable). str_eq x.name t && test x) s
    then some (update_where (λ (x : SqlTable). str_eq x.name t) f s)
    else none

abbrev pub change_column : String → String → (Column → Column) → Schema → Option Schema
change_column t c f s =
    change_table t (has_column c)
      (λ x. record x { columns = update_where (λ (k : Column). str_eq k.name c) f x.columns }) s

-- With a column its indexes and constraints go.
abbrev pub remove_column : String → SqlTable → SqlTable
remove_column c t = record t {
  columns = select_where (λ (x : Column). not (str_eq x.name c)) t.columns;
  rules = select_where (λ (x : Constraint). not (mem c (columns_of x.rule))) t.rules;
  indexes = select_where (λ (x : Index). not (mem c x.columns)) t.indexes;
}

abbrev pub new_table : String → List Column → List Constraint → SqlTable
new_table t cs ks = record { name = t; columns = cs; rules = ks; indexes = [] }

-- Documented behaviour: the schema after an operation, or `none` where it fails whatever the rows are. Without a name
-- alembic cannot drop a constraint.
unfoldable pub apply : Op → Schema → Option Schema
apply (create_table t cs ks) s =
    if not (has_table t s) && all (λ (k : Constraint). can_hold s (new_table t cs ks) k.rule) ks
    then some (s ++ new_table t cs ks ∷ [])
    else none
apply (drop_table t) s =
    if has_table t s
      && not (
          any
            (λ (x : SqlTable).
              not (str_eq x.name t) && any (λ (k : Constraint). refers_to t k.rule) x.rules)
            s)
    then some (select_where (λ (x : SqlTable). not (str_eq x.name t)) s)
    else none
apply (add_column t c) s =
    change_table t (λ x. not (has_column c.name x))
      (λ x. record x { columns = x.columns ++ c ∷ [] }) s
apply (drop_column t c) s = change_table t (has_column c) (remove_column c) s
apply (set_nullable t c b) s = change_column t c (λ k. record k { nullable = b }) s
apply (set_type t c ty) s = change_column t c (λ k. record k { type_of = ty }) s
apply (set_default t c v) s = change_column t c (λ k. record k { server_default = v }) s
apply (create_constraint t k) s =
    change_table t (λ x. can_hold s x k.rule) (λ x. record x { rules = x.rules ++ k ∷ [] }) s
apply (drop_constraint t none) s = none
apply (drop_constraint t (some n)) s =
    change_table t (λ x. any (is_called t n) x.rules)
      (λ x. record x { rules = select_where (λ k. not (is_called t n k)) x.rules }) s
apply (create_index t i) s =
    change_table t (λ x. not (has_index i.name x) && all (λ c. has_column c x) i.columns)
      (λ x. record x { indexes = x.indexes ++ i ∷ [] }) s
apply (drop_index t n) s =
    change_table t (has_index n)
      (λ x. record x { indexes = select_where (λ (i : Index). not (str_eq i.name n)) x.indexes }) s
apply (backfill t c) s = change_column t c (λ k. k) s

-- The operations of one revision, without a look at the rows.
unfoldable pub apply_all : List Op → Schema → Option Schema
apply_all [] s = some s
apply_all (op ∷ ops) s = elim (apply op s) [ none ↦ none | some s' ↦ apply_all ops s' ]
