-- ===== src/Probe/DataBlocks/Checks.antt =====
-- src/probe/probeLib/dataBlockBuffer.hpp: the side of the disk threads, which check that the capture threads
-- have left a block, take it and give it back.
use di_traffic_database.Common.{
  ℕ, zero, suc, ◌+◌, ◌*◌, ◌%◌, Bool, ◌&&◌, ◌||◌, ltb, leb, ◌==◌, Option, none, some, if◌then◌else◌,
  u64, add64, sub64, max64,
}
use di_traffic_database.Probe.DataBlocks.Arrays.{Array, read, write, ◌>>=◌}
use di_traffic_database.Probe.DataBlocks.{BlockBuffer}

-- `checkRSS`: whether the thread writes outside of the places between the barriers.
unfoldable pub outside : ℕ → ℕ → ℕ → Bool
outside left right write_id =
    (ltb left right && (ltb right write_id || ltb write_id left))
    || (ltb right left && (ltb right write_id && ltb write_id left))

-- `directCheckRSS`: the right barrier itself is outside, too.
unfoldable pub outside_or_last : ℕ → ℕ → ℕ → Bool
outside_or_last left right write_id =
    (ltb left right && (leb right write_id || ltb write_id left))
    || (ltb right left && (leb right write_id && ltb write_id left))

-- The barrier on the left, of the one on the right.
unfoldable pub left_barrier : BlockBuffer → ℕ → ℕ
left_barrier b right =
    sub64 (add64 right b.disk_block_num) (u64 (b.total_block_num * 2)) % b.disk_block_num

unfoldable pub check_rss : BlockBuffer → ℕ → ℕ → Option Bool
check_rss b block_check_id rss_id = if b.disk_block_num == 0 then none else (do
  write_id ← read b.disk_write_ids rss_id
  held ← read b.block_disk_id block_check_id
  let right = add64 held b.delayed_block_num % b.disk_block_num
  some (outside (left_barrier b right) right write_id))

unfoldable pub direct_check_rss : BlockBuffer → ℕ → ℕ → Option Bool
direct_check_rss b block_check_id rss_id = if b.disk_block_num == 0 then none else (do
  write_id ← read b.disk_write_ids rss_id
  held ← read b.block_disk_id block_check_id
  let right = held % b.disk_block_num
  some (outside_or_last (left_barrier b right) right write_id))

-- The loop of `checkBlock` over the `n` threads from `i` on.
unfoldable pub check_each : BlockBuffer → ℕ → ℕ → ℕ → Option ℕ
check_each b block_check_id i zero = some block_check_id
check_each b block_check_id i (suc n) =
    let rest = check_each b block_check_id (i + 1) n in
    check_rss b block_check_id i >>= λ passed. if passed then rest else some max64

-- The number of the block that the thread can take, or the largest number.
unfoldable pub check_block : BlockBuffer → ℕ → Option ℕ
check_block b thread_id = do
  block_check_id ← read b.block_check_ids thread_id
  check_each b block_check_id 0 b.rss_num

-- The loop of `directGetBlockID`.
unfoldable pub direct_check_each : BlockBuffer → ℕ → ℕ → ℕ → Option ℕ
direct_check_each b block_check_id i zero = some max64
direct_check_each b block_check_id i (suc n) =
    let rest = direct_check_each b block_check_id (i + 1) n in
    direct_check_rss b block_check_id i >>= λ passed. if passed then some block_check_id else rest

unfoldable pub direct_get_block_id : BlockBuffer → ℕ → Option ℕ
direct_get_block_id b thread_id = do
  block_check_id ← read b.block_check_ids thread_id
  direct_check_each b block_check_id 0 b.rss_num

pub record DataBlock : Type 0 where
  pub block_id : ℕ
  pub write_pos : ℕ
  pub start_time : ℕ
  pub end_time : ℕ
  pub packet_count : ℕ
  -- Where the block begins in `buffer_blocks`.
  pub buffer : ℕ

-- The loop that sums the packets of the `n` threads from `i` on.
unfoldable pub sum_counts : BlockBuffer → ℕ → ℕ → ℕ → ℕ → Option ℕ
sum_counts b block_id i zero sum = some sum
sum_counts b block_id i (suc n) sum =
    read b.packet_counts (block_id + b.total_block_num * i) >>= λ c.
    sum_counts b block_id (i + 1) n (add64 sum c)

-- The loop that resets the counters.
unfoldable pub reset_counts : Array → ℕ → ℕ → ℕ → ℕ → Option Array
reset_counts counts total block_id i zero = some counts
reset_counts counts total block_id i (suc n) = write counts (block_id + total * i) 0 >>= λ counts'.
    reset_counts counts' total block_id (i + 1) n

unfoldable pub get_block : BlockBuffer → ℕ → Option (BlockBuffer × DataBlock)
get_block b thread_id = if b.total_block_num == 0 then none else (do
  block_id ← read b.block_check_ids thread_id
  start_time ← read b.start_times block_id
  end_time ← read b.end_times block_id
  write_pos ← read b.block_disk_id block_id
  packet_count ← sum_counts b block_id 0 b.rss_num 0
  counts ← reset_counts b.packet_counts b.total_block_num block_id 0 b.rss_num
  checks ←
      write b.block_check_ids thread_id (add64 block_id b.block_check_ids.size % b.total_block_num)
  some (
    record b { packet_counts = counts; block_check_ids = checks },
    record {
      block_id = block_id;
      write_pos = write_pos;
      start_time = start_time;
      end_time = end_time;
      packet_count = packet_count;
      buffer = block_id * b.block_size;
    },
  ))

unfoldable pub recycle_block : BlockBuffer → ℕ → Option BlockBuffer
recycle_block b block_id = if b.disk_block_num == 0 then none else (do
  disk_id ← read b.block_disk_id block_id
  ids ← write b.block_disk_id block_id (add64 disk_id b.total_block_num % b.disk_block_num)
  some (record b { block_disk_id = ids }))
