-- ===== src/DataNode/Memtable/Capacity.antt =====
-- The counters of a memtable against the sizes that they stand for.
use di_traffic_database.Common.{ℕ, ◌+◌, ◌*◌, ◌^◌, ◌<◌, [], ◌∷◌, ◌≡◌, arith, add64, u64, length}
use di_traffic_database.DataNode.Maps.{Dict}
use di_traffic_database.DataNode.Values.{Value, uint64, int64, double, string, ColumnType}
use di_traffic_database.DataNode.Memtable.{RowSize, create, names_size, cal_row_size, row_size_from}

-- The bytes of the fixed part and of the texts in a row, counted without bound.
abbrev pub fixed_bytes : Dict Value → ℕ
fixed_bytes [] = 0
fixed_bytes ((_, uint64 n) ∷ rest) = 8 + fixed_bytes rest
fixed_bytes ((_, int64 n) ∷ rest) = 8 + fixed_bytes rest
fixed_bytes ((_, double n) ∷ rest) = 8 + fixed_bytes rest
fixed_bytes ((_, string s) ∷ rest) = fixed_bytes rest

abbrev pub text_bytes : Dict Value → ℕ
text_bytes [] = 0
text_bytes ((_, uint64 n) ∷ rest) = text_bytes rest
text_bytes ((_, int64 n) ∷ rest) = text_bytes rest
text_bytes ((_, double n) ∷ rest) = text_bytes rest
text_bytes ((_, string s) ∷ rest) = length s + text_bytes rest

abbrev pub name_bytes : Dict ColumnType → ℕ
name_bytes [] = 0
name_bytes ((name, _) ∷ rest) = length name + name_bytes rest

row_size_from_lem :
    (size : RowSize) (fields : Dict Value)
    → (u64 (row_size_from size fields).fixed_size ≡ u64 (size.fixed_size + fixed_bytes fields))
      × (u64 (row_size_from size fields).var_size ≡ u64 (size.var_size + text_bytes fields))
unfolding row_size_from
row_size_from_lem size [] = (omega arith, omega arith)
row_size_from_lem size ((_, uint64 n) ∷ rest) =
    omega (arith, row_size_from_lem (record size { fixed_size = add64 size.fixed_size 8 }) rest)
row_size_from_lem size ((_, int64 n) ∷ rest) =
    omega (arith, row_size_from_lem (record size { fixed_size = add64 size.fixed_size 8 }) rest)
row_size_from_lem size ((_, double n) ∷ rest) =
    omega (arith, row_size_from_lem (record size { fixed_size = add64 size.fixed_size 8 }) rest)
row_size_from_lem size ((_, string s) ∷ rest) =
    omega
      (arith, row_size_from_lem (record size { var_size = add64 size.var_size (length s) }) rest)

row_size_from_words :
    (size : RowSize) (fields : Dict Value)
    → size.fixed_size < 2 ^ 64
    → size.var_size < 2 ^ 64
    → ((row_size_from size fields).fixed_size < 2 ^ 64)
      × ((row_size_from size fields).var_size < 2 ^ 64)
unfolding row_size_from
row_size_from_words size [] p q = (p, q)
row_size_from_words size ((_, uint64 n) ∷ rest) p q =
    row_size_from_words (record size { fixed_size = add64 size.fixed_size 8 }) rest (omega arith) q
row_size_from_words size ((_, int64 n) ∷ rest) p q =
    row_size_from_words (record size { fixed_size = add64 size.fixed_size 8 }) rest (omega arith) q
row_size_from_words size ((_, double n) ∷ rest) p q =
    row_size_from_words (record size { fixed_size = add64 size.fixed_size 8 }) rest (omega arith) q
row_size_from_words size ((_, string s) ∷ rest) p q =
    row_size_from_words (record size { var_size = add64 size.var_size (length s) }) rest p
      (omega arith)

pub cal_row_size-lt :
    (fields : Dict Value)
    → ((cal_row_size fields).fixed_size < 2 ^ 64) × ((cal_row_size fields).var_size < 2 ^ 64)
unfolding cal_row_size
cal_row_size-lt fields =
    row_size_from_words (record { fixed_size = 8; var_size = 0 }) fields (omega arith) (omega arith)

-- `calRowSize` counts eight bytes for the time and for each number, and the length of each text, when
-- the sums fit 64 bits.
pub cal_row_size_lem :
    (fields : Dict Value)
    → 8 + fixed_bytes fields < 2 ^ 64
    → text_bytes fields < 2 ^ 64
    → ((cal_row_size fields).fixed_size ≡ 8 + fixed_bytes fields)
      × ((cal_row_size fields).var_size ≡ text_bytes fields)
unfolding cal_row_size
cal_row_size_lem fields p q = omega (
  arith,
  row_size_from_lem (record { fixed_size = 8; var_size = 0 }) fields,
  row_size_from_words (record { fixed_size = 8; var_size = 0 }) fields,
)

names_size_lem :
    (total : ℕ) (columns : Dict ColumnType)
    → u64 (names_size total columns) ≡ u64 (total + name_bytes columns)
unfolding names_size
names_size_lem total [] = omega arith
names_size_lem total ((name, _) ∷ rest) =
    omega (arith, names_size_lem (add64 total (length name)) rest)

-- A new memtable starts at the size of its column names and four bytes a column, modulo 2 ^ 64.
pub create-capacity :
    (columns : Dict ColumnType)
    → (create columns).current_capacity ≡ u64 (name_bytes columns + 4 * length columns)
unfolding create
create-capacity columns = omega (arith, names_size_lem 0 columns)
