-- ===== src/DataNode/Worker/Status.antt =====
-- `RegionWorker::handleStatus`: the life cycle of a region.
use di_traffic_database.Common.{ℕ, ◌&&◌, Option, none, some, if◌then◌else◌, ltb}
use di_traffic_database.DataNode.Exceptions.{Try, ok, thrown, runtime_error, ◌>>=◌}
use di_traffic_database.DataNode.Text.{Str, codes}
use di_traffic_database.DataNode.Maps.{Dict, put, erase}
use di_traffic_database.DataNode.Values.{ColumnType}
use di_traffic_database.DataNode.Memtable
use di_traffic_database.DataNode.Memtable.{Memtable, cal_row_size}
use di_traffic_database.DataNode.Json.{Libraries}
use di_traffic_database.DataNode.Region
use di_traffic_database.DataNode.Region.{Region, Sst, get_attr, set_memtable, set_sst}
use di_traffic_database.DataNode.Requests.{
  CreateRegion, RegionAdminRequest, create_region, open_region, close_region, drop_region,
}
use di_traffic_database.DataNode.Worker.{Worker, has, send_flush_signal}
use di_traffic_database.DataNode.Worker.Fields.{parse_attrs, parse_columns}

abbrev pub columns_key : Str
columns_key = codes "columnNames"

abbrev pub sst_key : Str
sst_key = codes "sstPath"

-- The columns are read outside any `try`.
unfoldable pub opened : Worker → ℕ → Region → Option (Dict ColumnType) → Worker
unfolding set_memtable
opened w id r none = w
opened w id r (some columns) = record w {
  regions = put id (set_memtable r (some (Memtable.create columns))) w.regions;
  closed_regions = erase id w.closed_regions;
}

-- A memtable with rows is flushed first.
unfoldable pub flushed_for_close : Worker → ℕ → Region → Worker
flushed_for_close w id r = elim r.current_memtable [
  | none ↦ w
  | some m ↦ if ltb 0 m.row_count then send_flush_signal w id else w
]

unfoldable pub moved_to_closed : Worker → ℕ → Worker
unfolding set_memtable
moved_to_closed w id = elim (w.regions id) [
  | none ↦ w
  | some r ↦ record w {
    closed_regions = put id (set_memtable r none) w.closed_regions;
    regions = erase id w.regions;
  }
]

unfoldable pub handle_close : Worker → ℕ → Try Worker
unfolding flushed_for_close moved_to_closed
handle_close w id = elim (w.regions id) [
  | none ↦ ok w
  | some r ↦ ok (moved_to_closed (flushed_for_close w id r) id)
]

unfoldable pub handle_drop : Worker → ℕ → Try Worker
handle_drop w id = if has w.regions id then ok w else elim (w.closed_regions id) [
  | none ↦ ok w
  | some r ↦ ok (record w {
    droping_regions = put id r w.droping_regions;
    closed_regions = erase id w.closed_regions;
  })
]

module _ (lib : Libraries) where
  -- The constructor of SST opens its log file, outside the `try`.
  unfoldable pub handle_create : Worker → CreateRegion → ℕ → Try Worker
  unfolding Region.create set_sst
  handle_create w paras id =
      if has w.regions id && has w.closed_regions id
      then ok w
      else elim (parse_attrs lib paras.attrs_json) [
        | none ↦ ok w
        | some attrs ↦
            let r = Region.create id paras.name paras.partition attrs in
            let sst : Sst = record {
              region_id = id;
              data_path = get_attr r sst_key;
              log_path = w.log_path;
            } in
            if lib.log_opens w.log_path
            then ok (record w { closed_regions = put id (set_sst r (some sst)) w.closed_regions })
            else thrown runtime_error
      ]

  unfoldable pub handle_open : Worker → ℕ → Try Worker
  unfolding opened
  handle_open w id = if has w.regions id then ok w else elim (w.closed_regions id) [
    | none ↦ ok w
    | some r ↦ do columns ← parse_columns lib (get_attr r columns_key); ok (opened w id r columns)
  ]

  unfoldable pub handle_status : Worker → RegionAdminRequest → ℕ → Try Worker
  unfolding handle_create handle_open handle_close handle_drop
  handle_status w (create_region paras) id = handle_create w paras id
  handle_status w (open_region force) id = handle_open w id
  handle_status w (close_region force) id = handle_close w id
  handle_status w (drop_region keep_files) id = handle_drop w id
