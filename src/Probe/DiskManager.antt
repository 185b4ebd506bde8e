-- ===== src/Probe/DiskManager.antt =====
-- src/probe/diskManager.cpp: a disk thread for blocks of packets, which takes the blocks that the capture
-- threads have left and requests that they are written. `none` is a fault, as it is for the buffer.
pub mod Rounds
mod Tests
use di_traffic_database.Common.{
  ℕ, ◌+◌, ◌*◌, ◌%◌, ◌^◌, Bool, true, false, ◌==◌, Option, none, some, List, [], ◌∷◌, if◌then◌else◌,
  max64,
}
use di_traffic_database.Probe.DataBlocks.{BlockBuffer}
use di_traffic_database.Probe.DataBlocks.Arrays.{◌>>=◌}
use di_traffic_database.Probe.DataBlocks.Checks.{
  DataBlock, check_block, direct_get_block_id, get_block, recycle_block,
}
use di_traffic_database.Probe.DiskAgent.{DiskAgent, Answers, async_write}

-- What `setTime` and `setPacketCount` are given for a place on the disk.
pub record Entry : Type 0 where
  pub write_pos : ℕ
  pub start_time : ℕ
  pub end_time : ℕ
  pub packet_count : ℕ

pub record DiskManager : Type 0 where
  pub agent_count : ℕ
  pub agents : ℕ → DiskAgent
  pub thread_id : ℕ
  -- The calls of `disk_buffer`, the last one first.
  pub entries : List Entry

abbrev pub with_agent : DiskManager → ℕ → DiskAgent → DiskManager
with_agent m i a = record m { agents = λ j. if j == i then a else m.agents j }

-- `addBlock` for blocks of packets: a block that is not written is given back.
unfoldable pub add_block :
    DiskManager → BlockBuffer → Answers → DataBlock → Option (DiskManager × BlockBuffer)
add_block m b answers block =
    if m.agent_count == 0
    then none
    else let agent_id = block.block_id % m.agent_count % 2 ^ 32 in
      let (a, done) =
        async_write (m.agents agent_id) answers block.buffer block.block_id block.write_pos in
      if done
      then some (with_agent m agent_id a, b)
      else recycle_block b block.block_id >>= λ b'. some (with_agent m agent_id a, b')

unfoldable pub entry_of : DataBlock → Entry
entry_of block = record {
  write_pos = block.write_pos;
  start_time = block.start_time;
  end_time = block.end_time;
  packet_count = block.packet_count;
}

-- What both loops of `runData` do with a block that is ready.
unfoldable pub take_block : DiskManager → BlockBuffer → Answers → Option (DiskManager × BlockBuffer)
take_block m b answers = do
  (b₁, block) ← get_block b m.thread_id
  add_block (record m { entries = entry_of block ∷ m.entries }) b₁ answers block

-- A round of the first loop of `runData`.
unfoldable pub data_round : DiskManager → BlockBuffer → Answers → Option (DiskManager × BlockBuffer)
data_round m b answers = check_block b m.thread_id >>= λ block_id.
    if block_id == max64 then some (m, b) else take_block m b answers

-- A round of the second loop of `runData`, and whether it ends the loop.
unfoldable pub drain_round :
    DiskManager → BlockBuffer → Answers → Option (DiskManager × BlockBuffer × Bool)
drain_round m b answers = direct_get_block_id b m.thread_id >>= λ block_id.
    if block_id == max64
    then some (m, b, true)
    else (take_block m b answers >>= λ (m', b'). some (m', b', false))
