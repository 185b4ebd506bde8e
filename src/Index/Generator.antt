-- ===== src/Index/Generator.antt =====
-- src-old/IndexNode/indexGenerator.cpp: the thread that takes the flows from the ring and puts them into the
-- index. The ring of src-old/lib/singleRingBuffer.hpp is that of PipeRing.
pub mod Drained
mod Tests
use di_traffic_database.Common.{
  ℕ, zero, suc, ◌+◌, ◌%◌, Bool, true, false, Option, none, some, List, [], ◌∷◌,
}
use mathlib.Core.Option
use di_traffic_database.DataNode.Text.{Str}
use di_traffic_database.PipeRing.{PipeRing, Outcome, done, waiting, division_by_zero, get}
use di_traffic_database.Index.BloomFilter.{IndexType}
use di_traffic_database.Index.MemoryIndex.{MemoryIndex, insert_index}

pub record FlowIndex : Type 0 where
  pub ts : ℕ
  pub position : ℕ
  pub node_id : ℕ
  pub key : Str

-- What a loop comes to: it ends with the ring and the index, it needs more rounds, or it is at fault.
pub data Ended : Type 0 where
  ended : PipeRing FlowIndex → MemoryIndex → Ended
  unfinished : Ended
  fault : Ended

-- The random bits of each insertion.
abbrev pub Draws : Type 0
Draws = ℕ → IndexType → ℕ → ℕ

abbrev pub later : Draws → Draws
later draws i = draws (i + 1)

module _ (hash : Str → ℕ) (hash_word : ℕ → ℕ) where
  -- `insertIndex` returns nothing, so a refusal is not seen.
  unfoldable pub put_index_to_cache :
      (IndexType → ℕ → ℕ) → MemoryIndex → FlowIndex → Option MemoryIndex
  put_index_to_cache rand index flow =
      Option.map (λ r. r.0) (insert_index hash hash_word rand index flow.key flow.position)

  -- The second loop of `run`, for some rounds.
  unfoldable pub drain : Draws → ℕ → PipeRing FlowIndex → MemoryIndex → Ended
  drain draws zero ring index = unfinished
  drain draws (suc rounds) ring index = elim (get ring) [
    | waiting ↦ fault
    | division_by_zero ↦ fault
    | done (none, ring') ↦ ended ring' index
    | done (some flow, ring') ↦ elim (put_index_to_cache (draws 0) index flow) [
      | none ↦ fault
      | some index' ↦ drain (later draws) rounds ring' index'
    ]
  ]

  -- The first loop of `run`, for the values of `stop` that its rounds see; then the second one.
  unfoldable pub run : Draws → List Bool → ℕ → PipeRing FlowIndex → MemoryIndex → Ended
  run draws [] rounds ring index = unfinished
  run draws (stop ∷ stops) rounds ring index = elim (get ring) [
    | waiting ↦ fault
    | division_by_zero ↦ fault
    | done (flow, ring') ↦ elim stop [
      | true ↦ drain draws rounds ring' index
      | false ↦ elim flow [
        | none ↦ run draws stops rounds ring' index
        | some f ↦ elim (put_index_to_cache (draws 0) index f) [
          | none ↦ fault
          | some index' ↦ run (later draws) stops rounds ring' index'
        ]
      ]
    ]
  ]
