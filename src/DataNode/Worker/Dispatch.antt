-- ===== src/DataNode/Worker/Dispatch.antt =====
-- `RegionWorker::handleSignal` and the loop of `run`.
use di_traffic_database.Common.{ℕ, List, [], ◌∷◌, if◌then◌else◌}
use di_traffic_database.DataNode.Exceptions.{Try, ok, thrown}
use di_traffic_database.DataNode.Json.{Libraries}
use di_traffic_database.DataNode.Requests.{
  RegionAdminRequest, create_region, Payload, write_payload, admin_payload, Signal,
}
use di_traffic_database.DataNode.Worker.{Worker, has}
use di_traffic_database.DataNode.Worker.Write.{handle_write}
use di_traffic_database.DataNode.Worker.Status.{handle_status}

module _ (lib : Libraries) where
  -- An admin request for a region that is not open needs the region closed, unless it creates it.
  unfoldable pub handle_absent : Worker → RegionAdminRequest → ℕ → Try Worker
  handle_absent w (create_region paras) id = handle_status lib w (create_region paras) id
  handle_absent w other id = if has w.closed_regions id then handle_status lib w other id else ok w

  unfoldable pub dispatch : Worker → Payload → ℕ → Try Worker
  unfolding handle_absent
  dispatch w (write_payload request) id =
      if has w.regions id then handle_write lib w request id else ok w
  dispatch w (admin_payload request) id =
      if has w.regions id then handle_status lib w request id else handle_absent w request id

  unfoldable pub handle_signal : Worker → Signal → Try Worker
  unfolding dispatch
  handle_signal w s = dispatch w s.request.payload s.region_id

  -- The signals that the worker takes from its pipe, until an exception ends the thread.
  unfoldable pub run : Worker → List Signal → Try Worker
  run w [] = ok w
  run w (s ∷ signals) = elim (handle_signal w s) [ ok w' ↦ run w' signals | thrown e ↦ thrown e ]
