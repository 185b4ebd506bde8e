-- ===== src/DataNode/Worker/Write.antt =====
-- `RegionWorker::handleWrite`.
use di_traffic_database.Common.{ℕ, none, some, if◌then◌else◌, add64, ltb}
use di_traffic_database.DataNode.Exceptions.{Try, ok, ◌>>=◌}
use di_traffic_database.DataNode.Memtable.{cal_row_size}
use di_traffic_database.DataNode.Maps.{Dict}
use di_traffic_database.DataNode.Values.{Value}
use di_traffic_database.DataNode.Json.{Libraries}
use di_traffic_database.DataNode.Requests.{WriteRequest}
use di_traffic_database.DataNode.Worker.{
  Worker, memtable_of, threshold_of, check_region_mem_usage, send_flush_signal, store_row,
}
use di_traffic_database.DataNode.Worker.Fields.{parse_fields}

-- The part of `handleWrite` below its `try` block.
unfoldable pub write_fields : Worker → ℕ → ℕ → Dict Value → Try Worker
write_fields w ts id fields = do
  m ← memtable_of w id
  let size = cal_row_size fields
  threshold ← threshold_of w id
  if ltb threshold (add64 size.fixed_size size.var_size) then ok w else do
    used ← check_region_mem_usage w id
    let full = ltb threshold (add64 (add64 used size.fixed_size) size.var_size)
    store_row (if full then send_flush_signal w id else w) id ts fields size

module _ (lib : Libraries) where
  -- Without fields, after an error in the JSON text, nothing happens.
  unfoldable pub handle_write : Worker → WriteRequest → ℕ → Try Worker
  handle_write w request id = elim (parse_fields lib request.json_data) [
    | none ↦ ok w
    | some fields ↦ write_fields w request.timestamp id fields
  ]
