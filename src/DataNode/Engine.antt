-- ===== src/DataNode/Engine.antt =====
-- src/dataNode/mitoEngine.cpp: distributes the server's signals over the workers. The log file is not
-- modelled.
pub mod Routes
mod Tests
use di_traffic_database.Common.{
  ℕ, ◌%◌, Option, none, some, List, [], ◌∷◌, ◌++◌, ◌==◌, if◌then◌else◌,
}
use di_traffic_database.DataNode.Requests.{Signal}

-- `worker_pipes i` holds what was put into the pipe of worker `i`, for `i < worker_count`.
pub record Engine : Type 0 where
  pub worker_count : ℕ
  pub worker_pipes : ℕ → List Signal

unfoldable pub create : ℕ → Engine
create worker_count = record { worker_count = worker_count; worker_pipes = λ i. [] }

-- `none`: the remainder by zero is a fault.
unfoldable pub region_id_to_worker_id : ℕ → ℕ → Option ℕ
region_id_to_worker_id region_id worker_count =
    if worker_count == 0 then none else some (region_id % worker_count)

-- The work signal has the fields of the signal that it is made of.
unfoldable pub handle_signal : Engine → Signal → Option Engine
handle_signal e s = elim (region_id_to_worker_id s.region_id e.worker_count) [
  | none ↦ none
  | some worker_id ↦ some (record e {
    worker_pipes = λ i. if i == worker_id then e.worker_pipes i ++ (s ∷ []) else e.worker_pipes i;
  })
]

-- The loop of `run` over the signals that it takes from the server's pipe.
unfoldable pub run : Engine → List Signal → Option Engine
run e [] = some e
run e (s ∷ signals) = elim (handle_signal e s) [ none ↦ none | some e' ↦ run e' signals ]
