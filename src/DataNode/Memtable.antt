-- ===== src/DataNode/Memtable.antt =====
-- The Memtable of src/dataNode/dataNodeLib/memtable.hpp: the rows written to a region since its last
-- flush, with the counters that bound its memory.
pub mod Rows
pub mod Capacity
mod Tests
use di_traffic_database.Common.{
  ℕ, ◌+◌, ◌*◌, Bool, true, false, not, Option, none, some, List, [], ◌∷◌, ◌++◌, if◌then◌else◌,
  add64, u64, max64, length, min, max,
}
use di_traffic_database.DataNode.Exceptions.{Exception, runtime_error, invalid_argument}
use di_traffic_database.DataNode.Text.{Str}
use di_traffic_database.DataNode.Maps.{Dict, find}
use di_traffic_database.DataNode.Values.{Value, uint64, int64, double, string, ColumnType}

pub record Row : Type 0 where
  pub timestamp : ℕ
  pub values : List Value

pub record RowSize : Type 0 where
  pub fixed_size : ℕ
  pub var_size : ℕ

pub record Memtable : Type 0 where
  pub current_capacity : ℕ
  pub table : List Row
  pub column_names : Dict ColumnType
  pub column_name_size : ℕ
  pub mut : Bool
  pub var_data_size : ℕ
  pub min_time : ℕ
  pub max_time : ℕ
  pub row_count : ℕ

-- The loop of the constructor over the names.
names_size : ℕ → Dict ColumnType → ℕ
names_size total [] = total
names_size total ((name, _) ∷ rest) = names_size (add64 total (length name)) rest

abbrev pub column_type_bytes : ℕ
column_type_bytes = 4

unfoldable pub create : Dict ColumnType → Memtable
unfolding names_size
create column_names = record {
  current_capacity =
      add64 (names_size 0 column_names) (u64 (column_type_bytes * length column_names));
  table = [];
  column_names = column_names;
  column_name_size = names_size 0 column_names;
  mut = true;
  var_data_size = 0;
  min_time = max64;
  max_time = 0;
  row_count = 0;
}

-- The values of `fields` in the order of the columns; `none` if a column has none.
unfoldable pub row_values : Dict ColumnType → Dict Value → Option (List Value)
row_values [] fields = some []
row_values ((name, _) ∷ rest) fields = elim (find name fields) [
  | none ↦ none
  | some v ↦ elim (row_values rest fields) [ none ↦ none | some vs ↦ some (v ∷ vs) ]
]

-- `write(ts, fields)`, with the exception that it raises. The time range has grown by then.
unfoldable pub write : Memtable → ℕ → Dict Value → Memtable × Option Exception
write m ts fields =
    if not m.mut then (m, some runtime_error) else elim (row_values m.column_names fields) [
      | none ↦ (ranged, some invalid_argument)
      | some vs ↦ (
        record ranged {
          table = m.table ++ (record { timestamp = ts; values = vs } ∷ []);
          row_count = add64 m.row_count 1;
        },
        none,
      )
    ]
  where
    ranged : Memtable
    ranged = record m { min_time = min m.min_time ts; max_time = max m.max_time ts }

unfoldable pub capacity : Memtable → ℕ
capacity m = m.current_capacity

unfoldable pub var_capacity : Memtable → ℕ
var_capacity m = m.var_data_size

-- The loop of `calRowSize` over the fields.
row_size_from : RowSize → Dict Value → RowSize
row_size_from size [] = size
row_size_from size ((_, uint64 n) ∷ rest) =
    row_size_from (record size { fixed_size = add64 size.fixed_size 8 }) rest
row_size_from size ((_, int64 n) ∷ rest) =
    row_size_from (record size { fixed_size = add64 size.fixed_size 8 }) rest
row_size_from size ((_, double n) ∷ rest) =
    row_size_from (record size { fixed_size = add64 size.fixed_size 8 }) rest
row_size_from size ((_, string s) ∷ rest) =
    row_size_from (record size { var_size = add64 size.var_size (length s) }) rest

unfoldable pub cal_row_size : Dict Value → RowSize
unfolding row_size_from
cal_row_size fields = row_size_from (record { fixed_size = 8; var_size = 0 }) fields

unfoldable pub add_row_size : Memtable → RowSize → Memtable
add_row_size m size = record m {
  current_capacity = add64 m.current_capacity size.fixed_size;
  var_data_size = add64 m.var_data_size size.var_size;
}

unfoldable pub freeze : Memtable → Memtable
freeze m = record m { mut = false }
