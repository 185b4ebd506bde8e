-- ===== src/Probe/DataBlocks/Recycled.antt =====
-- The place on the disk that a block gets when it is given back.
use native.Mathlib.Nat.{mod-add-mod}
use di_traffic_database.Common.{
  ℕ, ◌+◌, ◌%◌, ◌<◌, false, ◌==◌, some, ◌≡◌, ◌∙◌, arith, Bool-cases, add64, ap, inl, inr,
}
use di_traffic_database.Probe.DataBlocks.Arrays.{read-at, write-stored, stored}
use di_traffic_database.Probe.DataBlocks.{BlockBuffer}
use di_traffic_database.Probe.DataBlocks.Checks.{recycle_block}
use di_traffic_database.Probe.DataBlocks.Steps.{IsSized, HasThreads, mod-lt}

module _ (b : BlockBuffer) (place : ℕ) where
  abbrev pub block : ℕ
  block = place % b.total_block_num

  abbrev pub turned : BlockBuffer
  turned = record b {
    block_disk_id = stored b.block_disk_id block ((place + b.total_block_num) % b.disk_block_num);
  }

module _ (b : BlockBuffer) (place : ℕ) (s : IsSized b) (t : HasThreads b) where
  pub turned-HasThreads : HasThreads (turned b place)
  turned-HasThreads = record {
    short = t.short;
    disk_small = t.disk_small;
    delayed_small = t.delayed_small;
    holding = λ i h. elim (Bool-cases (i == (block b place))) [
      | inl here ↦ rw here (mod-lt (place + b.total_block_num) b.disk_block_num s.some_disk)
      | inr other ↦ rw other (t.holding i h)
    ];
    all_writers = t.all_writers;
    writing = t.writing;
    checking = t.checking;
  }

  pub turned-IsSized : IsSized (turned b place)
  turned-IsSized = record {
    some_blocks = s.some_blocks;
    some_bytes = s.some_bytes;
    some_disk = s.some_disk;
    some_slice = s.some_slice;
    whole = s.whole;
    disk_ids = s.disk_ids;
    starts = s.starts;
    ends = s.ends;
    counts = s.counts;
  }

  pub recycle_block_run :
      b.block_disk_id.at (block b place) ≡ place % b.disk_block_num
      → recycle_block b (block b place) ≡ some (turned b place)
  unfolding recycle_block
  recycle_block_run held =
      let inside : (block b place) < b.block_disk_id.size =
        omega (arith, mod-lt place b.total_block_num s.some_blocks, s.disk_ids) in
      let some_disk : (b.disk_block_num == 0) ≡ false = ground (arith, s.some_disk) in
      let same : add64 (b.block_disk_id.at (block b place)) b.total_block_num % b.disk_block_num
          ≡ (place + b.total_block_num) % b.disk_block_num =
        ap (λ n. n % b.disk_block_num)
          {x = add64 (b.block_disk_id.at (block b place)) b.total_block_num}
          {y = place % b.disk_block_num + b.total_block_num}
          (omega (arith, held, t.short, t.disk_small, mod-lt place b.disk_block_num s.some_disk))
        ∙ mod-add-mod place b.disk_block_num b.total_block_num in
      rw (
        some_disk,
        read-at b.block_disk_id (block b place) inside,
        same,
        write-stored b.block_disk_id (block b place)
            ((place + b.total_block_num) % b.disk_block_num) inside,
      )
