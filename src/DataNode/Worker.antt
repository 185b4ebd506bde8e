-- ===== src/DataNode/Worker.antt =====
-- src/dataNode/regionWorker.cpp: one thread that owns some regions, writes to their memtables, and
-- hands full memtables to the flusher. The log file is not modelled.
pub mod Fields
pub mod Write
pub mod Status
pub mod Dispatch
pub mod Sound
pub mod Safety
pub mod History
pub mod Lifecycle
pub mod Accept
pub mod Rows
mod Tests
use di_traffic_database.Common.{
  ℕ, ◌+◌, Bool, true, false, ◌&&◌, Option, none, some, List, [], ◌∷◌, ◌++◌, if◌then◌else◌, add64,
  ltb,
}
use di_traffic_database.DataNode.Exceptions.{
  Exception, Try, ok, thrown, null_dereference, json_error, ◌>>=◌,
}
use di_traffic_database.DataNode.Text.{Str, codes, stoull}
use di_traffic_database.DataNode.Maps.{Dict, Table, no_entries, put, erase}
use di_traffic_database.DataNode.Values.{Value, ColumnType}
use di_traffic_database.DataNode.Memtable
use di_traffic_database.DataNode.Memtable.{
  Memtable, RowSize, cal_row_size, write, add_row_size, freeze, capacity, var_capacity,
}
use di_traffic_database.DataNode.Region
use di_traffic_database.DataNode.Region.{Region, Sst, get_attr, set_memtable, set_sst}
use di_traffic_database.DataNode.Requests.{FlushSignal}

-- `sent` holds the signals that went to the flusher, in the order of the calls of `put`.
pub record Worker : Type 0 where
  pub log_path : Str
  pub regions : Table Region
  pub closed_regions : Table Region
  pub catchup_regions : Table Region
  pub droping_regions : Table Region
  pub sent : List FlushSignal

unfoldable pub create : Str → Worker
create log_path = record {
  log_path = log_path;
  regions = no_entries;
  closed_regions = no_entries;
  catchup_regions = no_entries;
  droping_regions = no_entries;
  sent = [];
}

-- `contains` of the code's maps: `find(id) != end()`
abbrev pub has {ℓ} : {V : Type ℓ} → Table V → ℕ → Bool
has t id = elim (t id) [ none ↦ false | some _ ↦ true ]

-- `this->regions[regionID]->getMemtable()`, used: a region or a memtable that is not there is a null
-- pointer.
unfoldable pub memtable_of : Worker → ℕ → Try Memtable
memtable_of w id = elim (w.regions id) [
  | none ↦ thrown null_dereference
  | some r ↦ elim r.current_memtable [ none ↦ thrown null_dereference | some m ↦ ok m ]
]

-- The memtable object that region `id` points at is replaced by its new state.
unfoldable pub update_memtable : Worker → ℕ → Memtable → Worker
update_memtable w id m = elim (w.regions id) [
  | none ↦ w
  | some r ↦ record w { regions = put id (set_memtable r (some m)) w.regions }
]

abbrev pub usage : Memtable → ℕ
usage m = add64 (capacity m) (var_capacity m)

unfoldable pub check_region_mem_usage : Worker → ℕ → Try ℕ
check_region_mem_usage w id = do m ← memtable_of w id; ok (usage m)

unfoldable pub flush_signal : ℕ → Memtable → Sst → FlushSignal
flush_signal id m sst = record {
  region_id = id;
  start_time = m.min_time;
  end_time = m.max_time;
  memtable = freeze m;
  sst = sst;
}

-- A region that is not open, or lacks a memtable or an SST, is only logged.
unfoldable pub send_flush_signal : Worker → ℕ → Worker
unfolding flush_signal set_memtable
send_flush_signal w id = elim (w.regions id) [
  | none ↦ w
  | some r ↦ elim r.current_memtable [
    | none ↦ w
    | some m ↦ elim r.current_sst [
      | none ↦ w
      | some sst ↦ record w {
        regions = put id (set_memtable r (some (Memtable.create m.column_names))) w.regions;
        sent = w.sent ++ (flush_signal id m sst ∷ []);
      }
    ]
  ]
]

abbrev pub threshold_key : Str
threshold_key = codes "memTableUsageThreshold"

-- `std::stoull(this->regions[regionID]->getAtrr("memTableUsageThreshold"))`
unfoldable pub threshold_of : Worker → ℕ → Try ℕ
threshold_of w id = elim (w.regions id) [
  | none ↦ thrown null_dereference
  | some r ↦ stoull (get_attr r threshold_key)
]

unfoldable pub stored_row : Worker → ℕ → RowSize → Memtable × Option Exception → Try Worker
stored_row w id size (m, some e) = thrown e
stored_row w id size (m, none) = ok (update_memtable w id (add_row_size m size))

-- The memtable's `write`, whose exception nobody catches, then `addRowSize`.
unfoldable pub store_row : Worker → ℕ → ℕ → Dict Value → RowSize → Try Worker
unfolding stored_row
store_row w id ts fields size = do m ← memtable_of w id; stored_row w id size (write m ts fields)
