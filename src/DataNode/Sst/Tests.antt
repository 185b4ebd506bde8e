-- ===== src/DataNode/Sst/Tests.antt =====
-- A block of one row with a number and a text.
use di_traffic_database.Common.{ℕ, ◌^◌, ◌<◌, List, [], ◌∷◌, ◌≡◌, refl, arith, true}
use di_traffic_database.DataNode.Exceptions.{Try, ok, thrown}
use di_traffic_database.DataNode.Text.{codes}
use di_traffic_database.DataNode.Values.{uint64, string, uint64_type, string_type, code_of}
use di_traffic_database.DataNode.Memtable.{Memtable, var_capacity}
use di_traffic_database.DataNode.Sst.{
  Copy, bytes_of, word_at, basic_size, column_bytes, Layout, layout_from, layout_of, var_meta_size,
  fixed_data_size, disk_size, fixed_meta_copies, var_meta_copies, value_copies, text_length,
  row_copies, table_copies, serialize_memtable, flush_block,
}
use di_traffic_database.DataNode.Sst.Places.{AllInside}
use di_traffic_database.DataNode.Sst.Block.{total_size, flush_block-AllInside}
use di_traffic_database.DataNode.Sst.Total.{a_string, a_uint64, flush_block-returns}

abbrev small_table : Memtable
small_table = record {
  current_capacity = 45;
  table = record { timestamp = 5; values = uint64 258 ∷ string (codes "ab") ∷ [] } ∷ [];
  column_names = (codes "packets", uint64_type) ∷ (codes "host", string_type) ∷ [];
  column_name_size = 11;
  mut = true;
  var_data_size = 2;
  min_time = 5;
  max_time = 5;
  row_count = 1;
}

abbrev small_layout : Layout
small_layout = record { columns = (uint64_type, 0) ∷ (string_type, 8) ∷ []; row_size = 24 }

laid_out : layout_of small_table ≡ ok small_layout
unfolding layout_of layout_from column_bytes
laid_out = refl

abbrev block_or : Try (ℕ × List Copy) → ℕ × List Copy
block_or (ok out) = out
block_or (thrown e) = (0, [])

abbrev block : ℕ × List Copy
block = block_or (flush_block small_table)

flush_runs : flush_block small_table ≡ ok block
unfolding flush_block layout_of layout_from column_bytes serialize_memtable var_meta_size basic_size
    disk_size fixed_data_size fixed_meta_copies var_meta_copies value_copies text_length row_copies
    table_copies word_at bytes_of code_of var_capacity
flush_runs = refl

fits : total_size small_table < 2 ^ 64
unfolding total_size
fits = omega arith

flush_block-AllInside_example : AllInside block.0 block.1
unfolding text_length
flush_block-AllInside_example =
    flush_block-AllInside small_table small_layout laid_out refl (omega arith) fits flush_runs

flush_block-returns_example :
    (copies : List Copy) × (flush_block small_table
      ≡ ok (disk_size small_table small_layout, copies))
flush_block-returns_example =
    flush_block-returns small_table small_layout laid_out
      ((a_uint64 258, (a_string (codes "ab"), tt)), tt)
