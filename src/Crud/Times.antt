-- ===== src/Crud/Times.antt =====
-- `datetime.time` as app/schemas/courseschedule.py parses it and app/crud/courseschedule.py compares
-- it. CPython compares two times with offsets by their distance from UTC, without a wrap at midnight,
-- and raises TypeError where just one of them has an offset.
use system_uni.Prelude.{ℕ, ◌+◌, Option, none, some, Bool, ◌&&◌, ◌==◌, leb, is_none, if◌then◌else◌}

-- The reading of the clock in microseconds from midnight, and the offset from UTC, if there is one, in
-- microseconds counted from an offset of -24:00, so that it is a natural number.
pub record Time : Type 0 where
  pub clock : ℕ
  pub offset : Option ℕ

-- A value that a column has: its type is TIME WITHOUT TIME ZONE.
abbrev pub naive : ℕ → Time
naive clock = record { clock = clock; offset = none }

-- `b <= a`, with `none` for a TypeError.
abbrev pub is_not_after : Time → Time → Option Bool
is_not_after b a = elim b.offset [
  | none ↦ if is_none a.offset then some (leb b.clock a.clock) else none
  | some later ↦ elim a.offset [
    | none ↦ none
    | some earlier ↦ some (leb (b.clock + earlier) (a.clock + later))
  ]
]

-- `a == b` for a value of a column: a time with an offset is equal to none of them, and no error.
abbrev pub equals_stored : Time → ℕ → Bool
equals_stored t stored = is_none t.offset && t.clock == stored

-- What the column keeps of a time that is assigned: PostgreSQL drops the offset.
abbrev pub stored_clock : Option Time → ℕ → ℕ
stored_clock none old = old
stored_clock (some t) old = t.clock
