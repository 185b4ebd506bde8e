-- ===== src/Index/Generator/Tests.antt =====
-- A ring with two flows, which the generator finds after the stop.
use di_traffic_database.Common.{ℕ, true, none, some, [], ◌∷◌, ◌≡◌, refl, arith, ap}
use mathlib.Core.Option
use di_traffic_database.PipeRing.{PipeRing, slot}
use di_traffic_database.PipeRing.Invariant.{IsValid}
use di_traffic_database.PipeRing.Refine.{contents, window}
use di_traffic_database.Index.Tests.{hash, hash_word}
use di_traffic_database.Index.MemoryIndex.Tests.{flow, rand, new_index, stored, flow_runs}
use di_traffic_database.Index.Generator.{FlowIndex, ended, put_index_to_cache, run}
use di_traffic_database.Index.Generator.Drained.{pointers, all_put, without, run-all_put}

abbrev flow_at : ℕ → FlowIndex
flow_at position = record { ts = 5; position = position; node_id = 1; key = flow }

abbrev two_flows : PipeRing FlowIndex
two_flows = record {
  capacity = 8;
  write_pos = 2;
  read_pos = 0;
  pointers = some (flow_at 76) ∷ some (flow_at 77) ∷ none ∷ none ∷ none ∷ none ∷ none ∷ none ∷ [];
}

two_flows-IsValid : IsValid 0 two_flows
two_flows-IsValid = record {
  usable = record { small = omega arith; eight_times = refl };
  allocated = refl;
  write_word = omega arith;
  read_word = omega arith;
  room = omega arith;
}

contents-two_flows : contents two_flows ≡ pointers (flow_at 76 ∷ flow_at 77 ∷ [])
unfolding contents window slot
contents-two_flows = refl

-- The flow that the round of the stop reads is not in the index.
flow_put : put_index_to_cache hash hash_word rand new_index (flow_at 77) ≡ some stored
unfolding put_index_to_cache
flow_put = ap (Option.map (λ r. r.0)) flow_runs

second_put :
    all_put hash hash_word (λ i. rand) new_index (without 0 (flow_at 76 ∷ flow_at 77 ∷ []))
    ≡ some stored
second_put = rw (all_put, flow_put)

run-all_put_example :
    (ring' : PipeRing FlowIndex) × (run hash hash_word (λ i. rand) (true ∷ []) 3 two_flows new_index
      ≡ ended ring' stored)
    × IsValid 0 ring'
    × (contents ring' ≡ [])
run-all_put_example =
    run-all_put hash hash_word (λ i. rand) 0 3 two_flows new_index stored
      (flow_at 76 ∷ flow_at 77 ∷ []) two_flows-IsValid contents-two_flows (omega arith) second_put
