-- ===== src/Probe/DiskManager/Tests.antt =====
-- A disk thread with two agents on the small ring, whose capture threads are far ahead.
use di_traffic_database.Common.{ℕ, ◌+◌, ◌%◌, ◌≤◌, ◌<◌, true, some, [], ◌≡◌, refl, arith, ◌⊎◌, max64}
use di_traffic_database.Probe.DataBlocks.{BlockBuffer}
use di_traffic_database.Probe.DataBlocks.Arrays.{array}
use di_traffic_database.Probe.DataBlocks.Steps.{IsSized, HasThreads}
use di_traffic_database.Probe.DataBlocks.Windows.{lag}
use di_traffic_database.Probe.DiskAgent.{DiskAgent, Answers}
use di_traffic_database.Probe.DiskManager.{DiskManager, data_round}
use di_traffic_database.Probe.DiskManager.Rounds.{AddedBlock, HasLeft, data_round-Added}

abbrev ring : BlockBuffer
ring = record {
  total_block_num = 4;
  block_size = 8;
  buffer_size = 32;
  disk_block_num = 32;
  rss_num = 2;
  delayed_block_num = 1;
  memory = λ i. 0;
  block_disk_id = array 4 (λ i. i);
  start_times = array 4 (λ i. max64);
  end_times = array 4 (λ i. 0);
  packet_counts = array 8 (λ i. 3);
  disk_write_ids = array 2 (λ i. 3 + i);
  block_check_ids = array 1 (λ i. 1);
}

ring-IsSized : IsSized ring
ring-IsSized = record {
  some_blocks = omega arith;
  some_bytes = omega arith;
  some_disk = omega arith;
  some_slice = omega arith;
  whole = refl;
  disk_ids = refl;
  starts = refl;
  ends = refl;
  counts = refl;
}

ring-HasThreads : HasThreads ring
ring-HasThreads = record {
  short = omega arith;
  disk_small = omega arith;
  delayed_small = omega arith;
  holding = λ i h. omega arith;
  all_writers = omega arith;
  writing = λ i h. omega arith;
  checking = λ i h. omega arith;
}

abbrev agent : DiskAgent
agent = record { disk_size = 256; block_size = 8; block_num = 32; basic_offset = 0; requests = [] }

abbrev manager : DiskManager
manager = record { agent_count = 2; agents = λ i. agent; thread_id = 0; entries = [] }

abbrev taken : Answers
taken = record { has_entry = true; submitted = true }

data_round-Added_example :
    (m' : DiskManager) × (b' : BlockBuffer) × (data_round manager ring taken ≡ some (m', b'))
    × IsSized b'
    × HasThreads b'
    × (b'.memory ≡ (λ i. 0))
    × (((m' ≡ manager) × (b' ≡ ring) × ((j : ℕ) × (j < 2) × (lag ring (1 % 4) j ≤ 8)))
        ⊎ (((j : ℕ) → j < 2 → HasLeft ring 1 j) × AddedBlock manager ring taken 1 m' b'))
data_round-Added_example =
    data_round-Added manager ring taken 1 ring-IsSized ring-HasThreads (omega arith) (omega arith)
      (omega arith) refl refl
