-- ===== src/DataNode/Engine/Tests.antt =====
-- Two workers and the signals of three regions.
use di_traffic_database.Common.{◌++◌, ℕ, false, ◌%◌, List, [], ◌∷◌, ◌≡◌, some, arith}
use di_traffic_database.DataNode.Requests.{Signal, close_region, admin_payload}
use di_traffic_database.DataNode.Engine.{Engine, create, run}
use di_traffic_database.DataNode.Engine.Routes.{
  for_worker, for_region, run-for_worker, run-for_region,
}

abbrev closing : ℕ → Signal
closing id = record {
  region_id = id;
  request = record {
    header = record { request_id = id; timestamp_ns = 0 };
    payload = admin_payload (close_region false);
  };
}

abbrev three : List Signal
three = closing 4 ∷ closing 7 ∷ closing 6 ∷ []

run-for_region_example :
    (e : Engine) × (run (create 2) three ≡ some e)
    × (for_region 4 (e.worker_pipes (4 % 2)) ≡ for_region 4 three)
run-for_region_example = run-for_region three 4 (omega arith)

run-for_worker_example :
    (e : Engine) × (run (create 2) three ≡ some e)
    × ((i : ℕ) → e.worker_pipes i ≡ [] ++ for_worker 2 i three)
unfolding create
run-for_worker_example = run-for_worker three (create 2) (omega arith)
