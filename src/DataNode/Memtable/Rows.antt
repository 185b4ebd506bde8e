-- ===== src/DataNode/Memtable/Rows.antt =====
-- What a memtable holds after its writes.
use di_traffic_database.Common.{
  add64, ℕ, zero, suc, min, max, ◌≤◌, true, none, some, List, [], ◌∷◌, ◌++◌, ◌≡◌, arith, u64,
  length, length-append, get_elem?, Option-cases, inl, inr,
}
use di_traffic_database.DataNode.Exceptions.{invalid_argument}
use di_traffic_database.DataNode.Text.{Str}
use di_traffic_database.DataNode.Maps.{Dict, find}
use di_traffic_database.DataNode.Values.{Value, ColumnType}
use di_traffic_database.DataNode.Memtable.{Memtable, Row, create, row_values, write}

-- The row has one value for each column, and a time inside the range.
abbrev pub IsRow : Dict ColumnType → ℕ → ℕ → Row → Type 0
IsRow columns lo hi r = (length r.values ≡ length columns) × (lo ≤ r.timestamp) × (r.timestamp ≤ hi)

abbrev pub AllRows : Dict ColumnType → ℕ → ℕ → List Row → Type 0
AllRows columns lo hi [] = Unit {0}
AllRows columns lo hi (r ∷ rs) = IsRow columns lo hi r × AllRows columns lo hi rs

pub record IsValid (m : Memtable) : Type 0 where
  pub rows : AllRows m.column_names m.min_time m.max_time m.table
  pub counted : m.row_count ≡ u64 (length m.table)

AllRows-widen :
    (columns : Dict ColumnType) (lo hi lo' hi' : ℕ) (rs : List Row)
    → lo' ≤ lo
    → hi ≤ hi'
    → AllRows columns lo hi rs
    → AllRows columns lo' hi' rs
AllRows-widen columns lo hi lo' hi' [] p q a = tt
AllRows-widen columns lo hi lo' hi' (r ∷ rs) p q a =
    (omega arith, AllRows-widen columns lo hi lo' hi' rs p q a.1)

AllRows-snoc :
    (columns : Dict ColumnType) (lo hi : ℕ) (rs : List Row) (r : Row)
    → AllRows columns lo hi rs
    → IsRow columns lo hi r
    → AllRows columns lo hi (rs ++ (r ∷ []))
AllRows-snoc columns lo hi [] r a h = (h, tt)
AllRows-snoc columns lo hi (x ∷ rs) r a h = (a.0, AllRows-snoc columns lo hi rs r a.1 h)

pub length-row_values :
    (columns : Dict ColumnType) (fields : Dict Value) {vs : List Value}
    → row_values columns fields ≡ some vs
    → length vs ≡ length columns
unfolding row_values
length-row_values [] fields e = ground arith
length-row_values ((name, t) ∷ rest) fields e = elim (Option-cases (row_values rest fields)) [
  | inl missing ↦ ground (arith, missing)
  | inr (vs, found) ↦ ground (arith, length-row_values rest fields found)
]

pub create-IsValid : (columns : Dict ColumnType) → IsValid (create columns)
unfolding create
create-IsValid columns = record { rows = tt; counted = omega arith }

-- A write, failed or not, keeps a memtable valid: each row has one value for each column and a time in
-- the time range, and the row count is the number of rows modulo 2 ^ 64.
pub write-IsValid :
    {m : Memtable} (ts : ℕ) (fields : Dict Value) → IsValid m → IsValid (write m ts fields).0
unfolding write
write-IsValid {m} ts fields v = elim (Option-cases (row_values m.column_names fields)) [
  | inl missing ↦ ground (arith, widened)
  | inr (vs, found) ↦
      let row : Row = record { timestamp = ts; values = vs } in
      ground (
        arith,
        widened,
        length-row_values m.column_names fields found,
        length-append m.table (row ∷ []),
        AllRows-snoc m.column_names (min m.min_time ts) (max m.max_time ts) m.table row widened,
      )
]
  where
    widened : AllRows m.column_names (min m.min_time ts) (max m.max_time ts) m.table
    widened =
        AllRows-widen m.column_names m.min_time m.max_time (min m.min_time ts) (max m.max_time ts)
          m.table (omega arith) (omega arith) v.rows

-- If a row has a value for every column, its value at an index is that of the field with the name of
-- the column at this index.
pub row_values-find :
    (columns : Dict ColumnType) (fields : Dict Value) {vs : List Value} (i : ℕ) {name : Str}
    {t : ColumnType}
    → row_values columns fields ≡ some vs
    → get_elem? columns i ≡ some (name, t)
    → get_elem? vs i ≡ find name fields
unfolding row_values
row_values-find [] fields i e h = ground arith
row_values-find ((n, t) ∷ rest) fields zero e h = elim (Option-cases (row_values rest fields)) [
  | inl missing ↦ ground (arith, missing)
  | inr (vs, found) ↦ ground (arith, found)
]
row_values-find ((n, u) ∷ rest) fields (suc i) {name = name} {t = t} e h =
    elim (Option-cases (row_values rest fields)) [
      | inl missing ↦ ground (arith, missing)
      | inr (vs, found) ↦ ground (arith, row_values-find rest fields i {name = name} {t = t} found)
    ]

-- The memtable after a write that stored the values `vs`.
abbrev pub appended : Memtable → ℕ → List Value → Memtable
appended m ts vs = record m {
  min_time = min m.min_time ts;
  max_time = max m.max_time ts;
  table = m.table ++ (record { timestamp = ts; values = vs } ∷ []);
  row_count = add64 m.row_count 1;
}

pub write-appended :
    (m : Memtable) (ts : ℕ) (fields : Dict Value) (vs : List Value)
    → m.mut ≡ true
    → row_values m.column_names fields ≡ some vs
    → write m ts fields ≡ (appended m ts vs, none)
unfolding write
write-appended m ts fields vs open_for_writes found = ground arith

pub write-missing :
    (m : Memtable) (ts : ℕ) (fields : Dict Value)
    → m.mut ≡ true
    → row_values m.column_names fields ≡ none
    → (write m ts fields).1 ≡ some invalid_argument
unfolding write
write-missing m ts fields open_for_writes missing = rw (open_for_writes, missing)
