-- ===== src/Probe/DataBlocks/Tests.antt =====
-- A small ring of four blocks of eight bytes, on a disk of 32 blocks, with two capture threads and one disk
-- thread.
use di_traffic_database.Common.{
  ℕ, ◌+◌, ◌%◌, ◌≤◌, ◌<◌, Bool, true, false, some, [], ◌∷◌, ◌≡◌, ◌≢◌, refl, arith, max64, u64, ◌⊎◌,
}
use di_traffic_database.Probe.DataBlocks.{BlockBuffer, write_block}
use di_traffic_database.Probe.DataBlocks.Arrays.{array}
use di_traffic_database.Probe.DataBlocks.Checks.{
  DataBlock, check_block, direct_get_block_id, get_block, recycle_block,
}
use di_traffic_database.Probe.DataBlocks.Counts.{total_from, counter}
use di_traffic_database.Probe.DataBlocks.Memory.{Written, write_block-Written}
use di_traffic_database.Probe.DataBlocks.Steps.{IsSized, HasThreads}
use di_traffic_database.Probe.DataBlocks.Located.{InRing}
use di_traffic_database.Probe.DataBlocks.Taking.{check_block-lag, direct_get_block_id-lag}
use di_traffic_database.Probe.DataBlocks.Turns.{get_block-counted, recycle_block-write_block}
use di_traffic_database.Probe.DataBlocks.Windows.{lag, direct_lag}

abbrev small_ring : BlockBuffer
small_ring = record {
  total_block_num = 4;
  block_size = 8;
  buffer_size = 32;
  disk_block_num = 32;
  rss_num = 2;
  delayed_block_num = 1;
  memory = λ i. 0;
  block_disk_id = array 4 (λ i. i);
  start_times = array 4 (λ i. max64);
  end_times = array 4 (λ i. 0);
  packet_counts = array 8 (λ i. 3);
  disk_write_ids = array 2 (λ i. i);
  block_check_ids = array 1 (λ i. 0);
}

small_ring-IsSized : IsSized small_ring
small_ring-IsSized = record {
  some_blocks = omega arith;
  some_bytes = omega arith;
  some_disk = omega arith;
  some_slice = omega arith;
  whole = refl;
  disk_ids = refl;
  starts = refl;
  ends = refl;
  counts = refl;
}

small_ring-HasThreads : HasThreads small_ring
small_ring-HasThreads = record {
  short = omega arith;
  disk_small = omega arith;
  delayed_small = omega arith;
  holding = λ i h. omega arith;
  all_writers = omega arith;
  writing = λ i h. omega arith;
  checking = λ i h. omega arith;
}

write_block-Written_example :
    (b' : BlockBuffer) × (done : Bool) × (write_block small_ring (7 ∷ 8 ∷ 9 ∷ []) 6 1 true true 5
      ≡ some (b', done))
    × IsSized b'
    × HasThreads b'
    × (((done ≡ true) × InRing small_ring 6 3 × Written 32 (λ i. 0) 6 (7 ∷ 8 ∷ 9 ∷ []) b'.memory)
        ⊎ ((done ≡ false) × (¬ InRing small_ring 6 3) × (b'.memory ≡ (λ i. 0))))
write_block-Written_example =
    write_block-Written small_ring (7 ∷ 8 ∷ 9 ∷ []) 6 1 true true 5 small_ring-IsSized
      small_ring-HasThreads (omega arith) (omega arith) (omega arith)

recycle_block-write_block_example :
    ((b₁ : BlockBuffer) × (write_block small_ring (7 ∷ 8 ∷ []) 33 1 true true 5 ≡ some (b₁, false))
      × (b₁.memory ≡ (λ i. 0)))
    × ((b₁ : BlockBuffer) × (b₂ : BlockBuffer) × (recycle_block small_ring 0 ≡ some b₁)
        × HasThreads b₁
        × (write_block b₁ (7 ∷ 8 ∷ []) 33 1 true true 5 ≡ some (b₂, true))
        × Written 32 (λ i. 0) 1 (7 ∷ 8 ∷ []) b₂.memory)
recycle_block-write_block_example =
    recycle_block-write_block small_ring 0 (7 ∷ 8 ∷ []) 33 1 true true 5 small_ring-IsSized
      small_ring-HasThreads refl refl (omega arith) (omega arith) (omega arith)

check_block-lag_example :
    ((check_block small_ring 0 ≡ some 0) × ((j : ℕ) → j < 2 → 8 < lag small_ring 0 j))
    ⊎ ((check_block small_ring 0 ≡ some max64) × ((j : ℕ) × (j < 2) × (lag small_ring 0 j ≤ 8)))
check_block-lag_example =
    check_block-lag small_ring 0 small_ring-IsSized small_ring-HasThreads (omega arith)

direct_get_block_id-lag_example :
    ((direct_get_block_id small_ring 0 ≡ some 0)
      × ((j : ℕ) × (j < 2) × ((direct_lag small_ring 0 j ≡ 0) ⊎ (8 < direct_lag small_ring 0 j))))
    ⊎ ((direct_get_block_id small_ring 0 ≡ some max64)
        × ((j : ℕ) → j < 2 → (0 < direct_lag small_ring 0 j) × (direct_lag small_ring 0 j ≤ 8)))
direct_get_block_id-lag_example =
    direct_get_block_id-lag small_ring 0 small_ring-IsSized small_ring-HasThreads (omega arith)

get_block-counted_example :
    (b' : BlockBuffer) × (block : DataBlock) × (get_block small_ring 0 ≡ some (b', block))
    × IsSized b'
    × HasThreads b'
    × (block.block_id ≡ 0)
    × (block.write_pos ≡ block.block_id)
    × (block.packet_count ≡ u64 (total_from (counter small_ring block.block_id) 0 2))
    × ((j : ℕ) → j < 2 → counter b' block.block_id j ≡ 0)
    × ((other j : ℕ) → other < 4 → other ≢ block.block_id → counter b' other j ≡ 3)
    × (b'.block_check_ids.at 0 ≡ (block.block_id + 1) % 4)
    × (b'.memory ≡ (λ i. 0))
get_block-counted_example =
    get_block-counted small_ring 0 small_ring-IsSized small_ring-HasThreads (omega arith)
      (omega arith)
