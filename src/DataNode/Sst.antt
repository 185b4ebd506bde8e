-- ===== src/DataNode/Sst.antt =====
-- src/dataNode/dataNodeLib/SST.hpp: the layout of a block, and the copies that `serializeMemtable`
-- makes into its buffer. Reading a block back is not modelled.
pub mod Places
pub mod Bounds
pub mod Block
pub mod Total
mod Tests
use di_traffic_database.Common.{
  ℕ, zero, suc, ◌+◌, ◌*◌, ◌/◌, ◌%◌, Option, none, some, List, [], ◌∷◌, ◌++◌, length, u64, add64,
}
use di_traffic_database.DataNode.Exceptions.{
  Try, ok, thrown, ◌>>=◌, invalid_argument, bad_variant_access, index_past_end,
}
use di_traffic_database.DataNode.Text.{Str}
use di_traffic_database.DataNode.Maps.{Dict}
use di_traffic_database.DataNode.Values.{
  Value, uint64, int64, double, string, ColumnType, int64_type, uint64_type, double_type,
  string_type, unknown_type, code_of,
}
use di_traffic_database.DataNode.Memtable.{Memtable, Row, var_capacity}

-- One `memcpy`, or one assignment through a pointer, into the buffer.
pub record Copy : Type 0 where
  pub offset : ℕ
  pub bytes : List ℕ

-- The bytes of a number, lowest first.
unfoldable pub bytes_of : ℕ → ℕ → List ℕ
bytes_of zero n = []
bytes_of (suc k) n = n % 256 ∷ bytes_of k (n / 256)

unfoldable pub word_at : ℕ → ℕ → Copy
word_at offset n = record { offset = offset; bytes = bytes_of 8 n }

-- `sizeof(BlockFixedMeta)`: seven packed numbers.
abbrev pub fixed_meta_bytes : ℕ
fixed_meta_bytes = 56

unfoldable pub basic_size : ℕ → ℕ
basic_size col_count = u64 (4 * col_count + 8 * col_count + 8 * (col_count + 1))

unfoldable pub column_bytes : ColumnType → Try ℕ
column_bytes string_type = ok 16
column_bytes int64_type = ok 8
column_bytes uint64_type = ok 8
column_bytes double_type = ok 8
column_bytes (unknown_type n) = thrown invalid_argument

-- What the loops over the columns compute: the type and the offset in a row for each column, and the
-- size of a row.
pub record Layout : Type 0 where
  pub columns : List (ColumnType × ℕ)
  pub row_size : ℕ

unfoldable pub layout_from : ℕ → Dict ColumnType → Try Layout
layout_from offset [] = ok (record { columns = []; row_size = offset })
layout_from offset ((name, type) ∷ rest) = do
  size ← column_bytes type
  below ← layout_from (add64 offset size) rest
  ok (record below { columns = (type, offset) ∷ below.columns })

unfoldable pub layout_of : Memtable → Try Layout
layout_of m = layout_from 0 m.column_names

unfoldable pub var_meta_size : Memtable → ℕ
var_meta_size m = add64 (basic_size (length m.column_names)) m.column_name_size

unfoldable pub fixed_data_size : Memtable → Layout → ℕ
fixed_data_size m l = u64 (l.row_size * length m.table)

-- `disk_size` of `flushBlock`, the size of the buffer.
unfoldable pub disk_size : Memtable → Layout → ℕ
disk_size m l =
    add64 (add64 (add64 fixed_meta_bytes (var_meta_size m)) (fixed_data_size m l)) (var_capacity m)

unfoldable pub fixed_meta_copies : Memtable → Layout → List Copy
fixed_meta_copies m l =
    word_at 0 (disk_size m l)
    ∷ word_at 8 fixed_meta_bytes
    ∷ word_at 40 (length m.table)
    ∷ word_at 48 (length m.column_names)
    ∷ word_at 16 (var_meta_size m)
    ∷ word_at 24 (fixed_data_size m l)
    ∷ word_at 32 (var_capacity m)
    ∷ []

-- The loop of `BlockVarMeta::serialize` from column `idx` on, with the four arrays' places in the
-- buffer, and the end offset after the loop.
unfoldable pub var_meta_copies : ℕ → ℕ → ℕ → ℕ → ℕ → ℕ → Dict ColumnType → Try (List Copy)
var_meta_copies types sizes offsets names idx name_offset [] =
    ok (word_at (offsets + 8 * idx) name_offset ∷ [])
var_meta_copies types sizes offsets names idx name_offset ((name, type) ∷ rest) = do
  size ← column_bytes type
  copies ←
      var_meta_copies types sizes offsets names (suc idx) (add64 name_offset (length name)) rest
  ok (
      record { offset = types + 4 * idx; bytes = bytes_of 4 (code_of type) }
      ∷ word_at (offsets + 8 * idx) name_offset
      ∷ record { offset = names + name_offset; bytes = name }
      ∷ word_at (sizes + 8 * idx) size
      ∷ copies)

-- One value of a row, at `place` in the fixed part; `text_place` is where the next string goes. A
-- string's entry in the fixed part has the offset `var_data_size`.
unfoldable pub value_copies : ℕ → ℕ → ℕ → ColumnType → Value → Try (List Copy)
value_copies var_data_size place text_place string_type (string s) = ok (
    record { offset = place; bytes = bytes_of 8 var_data_size ++ bytes_of 8 (length s) }
    ∷ record { offset = text_place; bytes = s }
    ∷ [])
value_copies var_data_size place text_place int64_type (int64 n) = ok (word_at place n ∷ [])
value_copies var_data_size place text_place uint64_type (uint64 n) = ok (word_at place n ∷ [])
value_copies var_data_size place text_place double_type (double n) = ok (word_at place n ∷ [])
value_copies var_data_size place text_place (unknown_type c) v = thrown invalid_argument
value_copies var_data_size place text_place t v = thrown bad_variant_access

-- How far `var_data_offset` moves.
unfoldable pub text_length : ColumnType → Value → ℕ
text_length string_type (string s) = length s
text_length t v = 0

-- The loop over the columns of one row, which starts at `row_place`, with `var_data_offset`.
module _ (var_data_size var_place : ℕ) where
  unfoldable pub row_copies : ℕ → ℕ → List (ColumnType × ℕ) → List Value → Try (List Copy × ℕ)
  row_copies row_place var_offset [] values = ok ([], var_offset)
  row_copies row_place var_offset (c ∷ columns) [] = thrown index_past_end
  row_copies row_place var_offset ((type, offset) ∷ columns) (v ∷ values) = do
    copies ← value_copies var_data_size (row_place + offset) (var_place + var_offset) type v
    rest ← row_copies row_place (add64 var_offset (text_length type v)) columns values
    ok (copies ++ rest.0, rest.1)

  -- The loop over the rows, from row `row_id` on.
  unfoldable pub table_copies : Layout → ℕ → ℕ → ℕ → List Row → Try (List Copy)
  table_copies l fixed_place row_id var_offset [] = ok []
  table_copies l fixed_place row_id var_offset (r ∷ rows) = do
    row ← row_copies (fixed_place + u64 (l.row_size * row_id)) var_offset l.columns r.values
    rest ← table_copies l fixed_place (suc row_id) row.1 rows
    ok (row.0 ++ rest)

-- `serializeMemtable` on the buffer of `flushBlock`.
unfoldable pub serialize_memtable : Memtable → Layout → Try (List Copy)
serialize_memtable m l = do
  let n = length m.column_names
  let fixed_place = fixed_meta_bytes + var_meta_size m
  meta ←
      var_meta_copies fixed_meta_bytes (fixed_meta_bytes + 4 * n) (fixed_meta_bytes + 12 * n)
        (fixed_meta_bytes + basic_size n) 0 0 m.column_names
  rows ← table_copies (var_capacity m) (fixed_place + fixed_data_size m l) l fixed_place 0 0 m.table
  ok (fixed_meta_copies m l ++ meta ++ rows)

-- `flushBlock` up to the writing of the file: the size of the block, and the copies into it.
unfoldable pub flush_block : Memtable → Try (ℕ × List Copy)
flush_block m = do l ← layout_of m; copies ← serialize_memtable m l; ok (disk_size m l, copies)
