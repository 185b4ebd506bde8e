-- ===== src/Probe/DiskAgent.antt =====
-- src/probe/probeLib/diskAgent.hpp: the requests for the blocks of a part of the disk. io_uring is not in the
-- repository: its answers are arguments, and what is prepared for it is in `requests`.
pub mod Bounds
mod Tests
use di_traffic_database.Common.{
  ℕ, ◌+◌, ◌*◌, ◌/◌, ◌%◌, ◌^◌, Bool, true, false, not, ◌&&◌, ◌||◌, ltb, leb, ◌==◌, Option, none,
  some, List, [], ◌∷◌, if◌then◌else◌, u64, add64, sub64, max64,
}
use di_traffic_database.DataNode.Exceptions.{Try, ok, thrown, runtime_error}

pub data Direction : Type 0 where
  reading : Direction
  writing : Direction

-- What `io_uring_prep_read` and `io_uring_prep_write` are given, with `user_data`.
pub record Request : Type 0 where
  pub direction : Direction
  pub buffer : ℕ
  pub len : ℕ
  pub offset : ℕ
  pub user_data : ℕ

pub record DiskAgent : Type 0 where
  pub disk_size : ℕ
  pub block_size : ℕ
  pub block_num : ℕ
  pub basic_offset : ℕ
  -- The last request is first.
  pub requests : List Request

-- `none` is the division by zero.
unfoldable pub create : ℕ → ℕ → ℕ → Option (Try DiskAgent)
create disk_size block_size basic_offset =
    if block_size == 0
    then none
    else if not (disk_size % block_size == 0)
    then some (thrown runtime_error)
    else some (
        ok (record {
          disk_size = disk_size;
          block_size = block_size;
          block_num = disk_size / block_size;
          basic_offset = basic_offset;
          requests = [];
        }))

-- What io_uring answers: whether there is an entry in its queue, and whether it takes it.
pub record Answers : Type 0 where
  pub has_entry : Bool
  pub submitted : Bool

-- A request for `len` bytes from the block `first` on; io_uring takes the length as a number of 32 bits.
abbrev pub request : DiskAgent → Direction → ℕ → ℕ → ℕ → ℕ → Request
request a direction buffer len first user_data = record {
  direction = direction;
  buffer = buffer;
  len = len % 2 ^ 32;
  offset = add64 (u64 (first * a.block_size)) a.basic_offset;
  user_data = user_data;
}

abbrev pub prepared : DiskAgent → Request → DiskAgent
prepared a r = record a { requests = r ∷ a.requests }

unfoldable pub async_write : DiskAgent → Answers → ℕ → ℕ → ℕ → DiskAgent × Bool
async_write a answers buffer block_id write_pos =
    if ltb a.block_num write_pos
    then (a, false)
    else if not answers.has_entry
    then (a, false)
    else (prepared a (request a writing buffer a.block_size write_pos block_id), answers.submitted)

-- `read(buffer, id)`; `completed` says whether the wait and the request succeed.
unfoldable pub read : DiskAgent → Answers → Bool → ℕ → ℕ → DiskAgent × Bool
read a answers completed buffer id =
    if leb a.block_num id
    then (a, false)
    else if not answers.has_entry
    then (a, false)
    else (prepared a (request a reading buffer a.block_size id id), answers.submitted && completed)

-- `read(buffer, begin_id, end_id)`
unfoldable pub read_range : DiskAgent → Answers → Bool → ℕ → ℕ → ℕ → DiskAgent × Bool
read_range a answers completed buffer begin_id end_id =
    if leb a.block_num begin_id || (ltb a.block_num end_id || ltb end_id begin_id)
    then (a, false)
    else if not answers.has_entry
    then (a, false)
    else (
      prepared a (
          request a reading buffer (u64 (add64 (sub64 end_id begin_id) 1 * a.block_size)) begin_id
            begin_id),
      answers.submitted && completed,
    )

pub record Completion : Type 0 where
  pub failed : Bool
  pub user_data : ℕ

-- The queue of completions, and the block that is done or the largest number.
unfoldable pub process_completions : List Completion → List Completion × ℕ
process_completions [] = ([], max64)
process_completions (c ∷ rest) = if c.failed then (c ∷ rest, max64) else (rest, c.user_data)
