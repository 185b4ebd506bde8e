-- ===== src/DataNode/Flusher/Tests.antt =====
-- Two flushes of one SST, one whose file cannot be opened, and one of another SST.
use di_traffic_database.Common.{ℕ, Bool, true, false, List, [], ◌∷◌, ◌≡◌, refl, map}
use di_traffic_database.DataNode.Exceptions.{Try, ok, thrown}
use di_traffic_database.DataNode.Text.{codes, str_eq}
use di_traffic_database.DataNode.Values.{uint64, uint64_type, code_of}
use di_traffic_database.DataNode.Memtable.{Memtable, var_capacity}
use di_traffic_database.DataNode.Sst.{
  bytes_of, word_at, basic_size, column_bytes, layout_from, layout_of, var_meta_size,
  fixed_data_size, disk_size, fixed_meta_copies, var_meta_copies, value_copies, text_length,
  row_copies, table_copies, serialize_memtable, flush_block,
}
use di_traffic_database.DataNode.Requests.{FlushSignal}
use di_traffic_database.DataNode.Flusher.{
  SstStore, Flush, file_size, write_block, push_meta, append_memtable, logged, handle_flush, run,
}
use di_traffic_database.DataNode.Flusher.Offsets.{IsOwn, IsPlaced, run-IsPlaced}
use di_traffic_database.Index.SkipList.Towers.{All}

abbrev counts : Memtable
counts = record {
  current_capacity = 27;
  table = record { timestamp = 5; values = uint64 258 ∷ [] } ∷ [];
  column_names = (codes "packets", uint64_type) ∷ [];
  column_name_size = 7;
  mut = false;
  var_data_size = 0;
  min_time = 5;
  max_time = 5;
  row_count = 1;
}

abbrev flush : ℕ → FlushSignal
flush id = record {
  region_id = id;
  start_time = 5;
  end_time = 5;
  memtable = counts;
  sst = record { region_id = id; data_path = codes "data"; log_path = codes "log" };
}

abbrev empty_sst : SstStore
empty_sst = record { region_metas = λ s. []; files = λ f i. [] }

abbrev store_or : Try SstStore → SstStore
store_or (ok s) = s
store_or (thrown e) = empty_sst

abbrev flushed : Bool → ℕ → ℕ → Flush
flushed can_open sst id = record { can_open = can_open; sst = sst; signal = flush id }

abbrev flushes : List Flush
flushes = flushed true 1 3 ∷ flushed false 1 3 ∷ flushed true 2 4 ∷ flushed true 1 3 ∷ []

abbrev stored : SstStore
stored = store_or (run empty_sst flushes)

stored_runs : run empty_sst flushes ≡ ok stored
unfolding run handle_flush append_memtable write_block push_meta str_eq logged file_size flush_block
    layout_of layout_from column_bytes serialize_memtable var_meta_size basic_size disk_size
    fixed_data_size fixed_meta_copies var_meta_copies value_copies text_length row_copies
    table_copies word_at bytes_of code_of var_capacity
stored_runs = refl

-- The second block begins after the 99 bytes of the first.
stored_offsets : map (λ m. m.file_offset) (stored.region_metas 1) ≡ 0 ∷ 99 ∷ []
unfolding run handle_flush append_memtable write_block push_meta str_eq logged file_size flush_block
    layout_of layout_from column_bytes serialize_memtable var_meta_size basic_size disk_size
    fixed_data_size fixed_meta_copies var_meta_copies value_copies text_length row_copies
    table_copies word_at bytes_of code_of var_capacity
stored_offsets = refl

run-IsPlaced_example : IsPlaced 1 (codes "data") 3 stored
unfolding str_eq
run-IsPlaced_example = run-IsPlaced 1 (codes "data") 3 flushes empty_sst own tt stored_runs
  where
    own : All (IsOwn 1 (codes "data") 3) flushes
    own = (refl, (refl, (refl, (refl, tt))))
