-- ===== src/Migrations/Upgrade.antt =====
-- alembic/env.py and `alembic upgrade head`: when the stored rows let a revision through.
use system_uni.Prelude.{
  ℕ, suc, ◌≡◌, String, Option, none, some, Bool, true, false, not, ◌&&◌, List, [], ◌∷◌, str_eq,
  if◌then◌else◌,
}
use system_uni.Migrations.{
  Default, no_default, now, literal, Schema, Op, create_table, drop_table, add_column, drop_column,
  set_nullable, set_type, set_default, create_constraint, drop_constraint, create_index, drop_index,
  backfill, apply,
}

-- What the rows of the tables are like: which tables have rows, which columns hold a NULL, and which
-- new constraints or unique indexes they violate.
pub record Rows : Type 0 where
  pub has_rows : String → Bool
  pub has_nulls : String → String → Bool
  pub violates : String → Option String → Bool

abbrev pub is_no_default : Default → Bool
is_no_default no_default = true
is_no_default now = false
is_no_default (literal text) = false

-- Documented behaviour: the rows refuse an operation for a column that is NOT NULL and has no default, added to a table with
-- rows; NOT NULL on a column with a NULL; a constraint or a unique index that they violate.
unfoldable pub is_refused : Rows → Op → Bool
is_refused d (create_table t cs ks) = false
is_refused d (drop_table t) = false
is_refused d (add_column t c) = not c.nullable && is_no_default c.server_default && d.has_rows t
is_refused d (drop_column t c) = false
is_refused d (set_nullable t c b) = not b && d.has_nulls t c
is_refused d (set_type t c ty) = false
is_refused d (set_default t c v) = false
is_refused d (create_constraint t k) = d.violates t k.name
is_refused d (drop_constraint t n) = false
is_refused d (create_index t i) = i.is_unique && d.violates t (some i.name)
is_refused d (drop_index t n) = false
is_refused d (backfill t c) = false

abbrev pub at_column : String → String → String → String → Bool
at_column t c u k = str_eq t u && str_eq c k

abbrev pub with_nulls : String → String → Bool → Rows → Rows
with_nulls t c b d = record d {
  has_nulls = λ u k. if at_column t c u k then b else d.has_nulls u k;
}

-- Documented behaviour: the rows after an operation. a new column without a default is NULL in every row.
unfoldable pub rows_after : Op → Rows → Rows
rows_after (create_table t cs ks) d = d
rows_after (drop_table t) d = d
rows_after (add_column t c) d =
    with_nulls t c.name (is_no_default c.server_default && d.has_rows t) d
rows_after (drop_column t c) d = d
rows_after (set_nullable t c b) d = d
rows_after (set_type t c ty) d = d
rows_after (set_default t c v) d = d
rows_after (create_constraint t k) d = d
rows_after (drop_constraint t n) d = d
rows_after (create_index t i) d = d
rows_after (drop_index t n) d = d
rows_after (backfill t c) d = with_nulls t c false d

-- What alembic and PostgreSQL do with an operation: the new schema, if it can be carried out, whether
-- the rows refuse it, and the rows after it.
pub record Ddl : Type 0 where
  pub execute : Op → Schema → Option Schema
  pub refuses : Rows → Op → Bool
  pub leaves : Op → Rows → Rows

-- They do what is documented.
pub record IsDocumented (ddl : Ddl) : Type 0 where
  pub execute_lem : (op : Op) (s : Schema) → ddl.execute op s ≡ apply op s
  pub refuses_lem : (d : Rows) (op : Op) → ddl.refuses d op ≡ is_refused d op
  pub leaves_lem : (op : Op) (d : Rows) → ddl.leaves op d ≡ rows_after op d

abbrev pub documented : Ddl
documented = record { execute = apply; refuses = is_refused; leaves = rows_after }

pub documented_lem : (ddl : Ddl) → IsDocumented ddl → ddl ≡ documented
documented_lem ddl h = λ i. record {
  execute = λ op s. h.execute_lem op s i;
  refuses = λ d op. h.refuses_lem d op i;
  leaves = λ op d. h.leaves_lem op d i;
}

-- `upgrade()` or `downgrade()` of a revision.
unfoldable pub run : Ddl → Rows → List Op → Schema → Option Schema
run ddl d [] s = some s
run ddl d (op ∷ ops) s =
    if ddl.refuses d op
    then none
    else elim (ddl.execute op s) [ none ↦ none | some s' ↦ run ddl (ddl.leaves op d) ops s' ]

pub record Revision : Type 0 where
  pub revision : String
  pub down_revision : Option String
  pub upgrade : List Op
  pub downgrade : List Op

-- `alembic upgrade head`: revision after revision; `rows n` are the rows as the n-th one begins. An
-- earlier upgrade may have ended at any revision, and the program may have run on its schema.
unfoldable pub upgrade_all : Ddl → (ℕ → Rows) → ℕ → List Revision → Schema → Option Schema
upgrade_all ddl rows n [] s = some s
upgrade_all ddl rows n (r ∷ rs) s = elim (run ddl (rows n) r.upgrade s) [
  | none ↦ none
  | some s' ↦ upgrade_all ddl rows (suc n) rs s'
]
