-- ===== src/Probe/DataBlocks.antt =====
-- src/probe/probeLib/dataBlockBuffer.hpp: the ring of blocks that the capture threads write packets into
-- and the disk threads take blocks from. `none` as a result is a fault: an access outside of an array, or
-- a division by zero.
pub mod Arrays
pub mod Steps
pub mod Located
pub mod Memory
pub mod Checks
pub mod Windows
pub mod Taking
pub mod Counts
pub mod Recycled
pub mod Turns
mod Tests
use di_traffic_database.Common.{
  ℕ, zero, suc, ◌+◌, ◌-◌, ◌*◌, ◌/◌, ◌%◌, ◌^◌, min, bit_and, Bool, true, false, not, ◌&&◌, ◌||◌, ltb,
  leb, ◌==◌, Option, none, some, List, [], ◌∷◌, length, take, drop, if◌then◌else◌, u64, add64,
  sub64, max64,
}
use di_traffic_database.DataNode.Exceptions.{Try, ok, thrown, runtime_error}
use di_traffic_database.DataNode.Text.{Str}
use di_traffic_database.Probe.DataBlocks.Arrays.{Array, array, read, write, append, ◌>>=◌, ◌>>◌}

pub record BlockBuffer : Type 0 where
  pub total_block_num : ℕ
  pub block_size : ℕ
  pub buffer_size : ℕ
  pub disk_block_num : ℕ
  pub rss_num : ℕ
  pub delayed_block_num : ℕ
  -- The bytes of `buffer_blocks`.
  pub memory : ℕ → ℕ
  pub block_disk_id : Array
  pub start_times : Array
  pub end_times : Array
  pub packet_counts : Array
  pub disk_write_ids : Array
  pub block_check_ids : Array

-- The constructor; `mapped` says whether the system gives the memory, which is zero.
unfoldable pub create : Bool → ℕ → ℕ → ℕ → ℕ → ℕ → Try BlockBuffer
create mapped total_block_num block_size disk_block_num rss_num delayed_block_num =
    let buffer_size = u64 (total_block_num * block_size) in
    if not (bit_and buffer_size (sub64 buffer_size 1) == 0)
    then thrown runtime_error
    else if leb disk_block_num (u64 (total_block_num * 4))
    then thrown runtime_error
    else if not mapped
    then thrown runtime_error
    else ok (record {
      total_block_num = total_block_num;
      block_size = block_size;
      buffer_size = buffer_size;
      disk_block_num = disk_block_num;
      rss_num = rss_num;
      delayed_block_num = delayed_block_num;
      memory = λ i. 0;
      block_disk_id = array total_block_num (λ i. i);
      start_times = array total_block_num (λ i. max64);
      end_times = array total_block_num (λ i. 0);
      packet_counts = array (u64 (total_block_num * rss_num)) (λ i. 0);
      disk_write_ids = array 0 (λ i. 0);
      block_check_ids = array 0 (λ i. 0);
    })

-- With the number of the thread, or the largest number if there are too many.
unfoldable pub add_write_thread : BlockBuffer → BlockBuffer × ℕ
add_write_thread b =
    let id = b.disk_write_ids.size in
    if leb b.total_block_num id
    then (b, max64)
    else (record b { disk_write_ids = append b.disk_write_ids id }, id)

unfoldable pub add_check_thread : BlockBuffer → BlockBuffer × ℕ
add_check_thread b =
    let id = b.block_check_ids.size in
    if leb b.total_block_num id
    then (b, max64)
    else (record b { block_check_ids = append b.block_check_ids id }, id)

-- `if (new_data) disk_write_ids[thread_id] = disk_id`
unfoldable pub note_writer : BlockBuffer → Bool → ℕ → ℕ → Option BlockBuffer
note_writer b false thread_id disk_id = some b
note_writer b true thread_id disk_id = do
  ids ← write b.disk_write_ids thread_id disk_id
  some (record b { disk_write_ids = ids })

-- `if (new_data) end_times[block_id] = ts`
unfoldable pub note_end : BlockBuffer → Bool → ℕ → ℕ → Option BlockBuffer
note_end b false block_id ts = some b
note_end b true block_id ts = do
  times ← write b.end_times block_id ts
  some (record b { end_times = times })

-- `if (new_data) start_times[block_id] = min(start_times[block_id], ts)`
unfoldable pub note_start : BlockBuffer → Bool → ℕ → ℕ → Option BlockBuffer
note_start b false block_id ts = some b
note_start b true block_id ts = do
  t ← read b.start_times block_id
  times ← write b.start_times block_id (min t ts)
  some (record b { start_times = times })

unfoldable pub count_packet : BlockBuffer → ℕ → ℕ → Option BlockBuffer
count_packet b block_id thread_id = do
  n ← read b.packet_counts (block_id + b.total_block_num * thread_id)
  counts ← write b.packet_counts (block_id + b.total_block_num * thread_id) (add64 n 1)
  some (record b { packet_counts = counts })

abbrev pub copied : (ℕ → ℕ) → ℕ → Str → ℕ → ℕ
copied m pos [] = m
copied m pos (x ∷ bytes) = copied (λ i. if i == pos then x else m i) (pos + 1) bytes

-- memcpy into the buffer
unfoldable pub memcpy : BlockBuffer → ℕ → Str → Option BlockBuffer
memcpy b pos bytes =
    if ltb b.buffer_size (pos + length bytes)
    then none
    else some (record b { memory = copied b.memory pos bytes })

-- A copy that goes on at the begin of the buffer when it comes to its end.
unfoldable pub copy_around : BlockBuffer → ℕ → Str → Option BlockBuffer
copy_around b block_pos bytes =
    if ltb b.buffer_size (add64 block_pos (length bytes))
    then (do
      b₁ ← memcpy b block_pos (take (b.buffer_size - block_pos) bytes)
      memcpy b₁ 0 (drop (b.buffer_size - block_pos) bytes))
    else memcpy b block_pos bytes

-- What a write reads of its block and then of the next one: `none` if a block is not in the buffer for the
-- place on the disk that is written, and else the two numbers of the block that it ends in.
abbrev pub Place : Type 0
Place = Option (ℕ × ℕ)

-- `if (block_offset + len >= block_size)`: the write ends in the next block.
unfoldable pub enter_next : BlockBuffer → ℕ → ℕ → ℕ → Bool → ℕ → Option (BlockBuffer × Place)
enter_next b block_id disk_id thread_id new_data ts = do
  b₁ ← note_end b new_data block_id ts
  held ← read b₁.block_disk_id ((block_id + 1) % b.total_block_num)
  if held == (disk_id + 1) % b.disk_block_num
      then (do
        b₂ ← note_start b₁ new_data ((block_id + 1) % b.total_block_num) ts
        some (b₂, some ((block_id + 1) % b.total_block_num, (disk_id + 1) % b.disk_block_num)))
      else (do
        b₂ ← note_writer b₁ new_data thread_id ((disk_id + 1) % b.disk_block_num)
        some (b₂, none))

unfoldable pub locate : BlockBuffer → ℕ → ℕ → ℕ → Bool → ℕ → Option (BlockBuffer × Place)
locate b len disk_pos thread_id new_data ts =
    let block_id = disk_pos / b.block_size % b.total_block_num in
    let disk_id = disk_pos / b.block_size % b.disk_block_num in
    do
      held ← read b.block_disk_id block_id
      if not (held == disk_id)
          then (do b₁ ← note_writer b new_data thread_id disk_id; some (b₁, none))
          else if leb b.block_size (add64 (disk_pos % b.block_size) len)
          then enter_next b block_id disk_id thread_id new_data ts
          else some (b, some (block_id, disk_id))

-- `if ((block_offset + len) % (block_size / rss_num) == 0)`
unfoldable pub note_slice : BlockBuffer → ℕ → ℕ → Bool → ℕ → Option BlockBuffer
note_slice b end block_id new_data ts =
    if b.block_size / b.rss_num == 0
    then none
    else if end % (b.block_size / b.rss_num) == 0
    then (do
      b₁ ← note_end b new_data block_id ts
      note_start b₁ new_data ((block_id + 1) % b.total_block_num) ts)
    else some b

unfoldable pub count_new : BlockBuffer → ℕ → ℕ → Bool → Bool → Option BlockBuffer
count_new b disk_pos thread_id new_data new_index =
    if new_data && new_index
    then count_packet b (disk_pos / b.block_size % b.total_block_num) thread_id
    else some b

unfoldable pub write_block :
    BlockBuffer → Str → ℕ → ℕ → Bool → Bool → ℕ → Option (BlockBuffer × Bool)
write_block b bytes disk_pos thread_id new_data new_index ts =
    if b.block_size == 0
      || (b.total_block_num == 0 || (b.disk_block_num == 0 || b.buffer_size == 0))
    then none
    else (do
      (b₁, place) ← locate b (length bytes) disk_pos thread_id new_data ts
      elim place [
        | none ↦ some (b₁, false)
        | some (block_id, disk_id) ↦ do
          b₂ ← note_slice b₁ (add64 (disk_pos % b.block_size) (length bytes)) block_id new_data ts
          b₃ ← copy_around b₂ (disk_pos % b.buffer_size) bytes
          b₄ ← note_writer b₃ new_data thread_id disk_id
          b₅ ← count_new b₄ disk_pos thread_id new_data new_index
          some (b₅, true)
      ])
