-- ===== src/Probe/DataBlocks/Steps.antt =====
-- The steps of a write that only keep the books: they run, and leave the memory and the sizes as they are.
use di_traffic_database.Common.{
  ℕ, ◌+◌, ◌*◌, ◌/◌, ◌%◌, ◌^◌, ◌≤◌, ◌<◌, Bool, true, false, Option, some, ◌≡◌, refl, ◌∙◌, arith, inl,
  inr, ◌==◌, Bool-cases, add64, min, ◌&&◌,
}
use di_traffic_database.Probe.DataBlocks.Arrays.{Array, stored, read-at, write-stored}
use di_traffic_database.Probe.DataBlocks.{
  BlockBuffer, note_writer, note_end, note_start, count_packet, note_slice, count_new,
}

-- The arrays have the sizes that the constructor gives them, and the numbers are positive.
pub record IsSized (b : BlockBuffer) : Type 0 where
  pub some_blocks : 0 < b.total_block_num
  pub some_bytes : 0 < b.block_size
  pub some_disk : 0 < b.disk_block_num
  pub some_slice : 0 < b.block_size / b.rss_num
  pub whole : b.buffer_size ≡ b.total_block_num * b.block_size
  pub disk_ids : b.block_disk_id.size ≡ b.total_block_num
  pub starts : b.start_times.size ≡ b.total_block_num
  pub ends : b.end_times.size ≡ b.total_block_num
  pub counts : b.packet_counts.size ≡ b.total_block_num * b.rss_num

-- The positions of the capture threads are on the disk.
abbrev pub AreOnDisk : Array → ℕ → Type 0
AreOnDisk writers disk = (i : ℕ) → i < writers.size → writers.at i < disk

-- The threads are registered, all positions are on the disk, and the ring is less than half of the disk.
pub record HasThreads (b : BlockBuffer) : Type 0 where
  pub short : b.total_block_num * 2 < b.disk_block_num
  pub disk_small : b.disk_block_num < 2 ^ 62
  pub delayed_small : b.delayed_block_num < 2 ^ 62
  pub holding : (i : ℕ) → i < b.total_block_num → b.block_disk_id.at i < b.disk_block_num
  pub all_writers : b.rss_num ≤ b.disk_write_ids.size
  pub writing : AreOnDisk b.disk_write_ids b.disk_block_num
  pub checking : (i : ℕ) → i < b.block_check_ids.size → b.block_check_ids.at i < b.total_block_num

-- Only the books differ.
pub record Keeps (b b' : BlockBuffer) : Type 0 where
  pub memory : b'.memory ≡ b.memory
  pub total : b'.total_block_num ≡ b.total_block_num
  pub block : b'.block_size ≡ b.block_size
  pub buffer : b'.buffer_size ≡ b.buffer_size
  pub disk : b'.disk_block_num ≡ b.disk_block_num
  pub rss : b'.rss_num ≡ b.rss_num
  pub held : b'.block_disk_id ≡ b.block_disk_id
  pub start_size : b'.start_times.size ≡ b.start_times.size
  pub end_size : b'.end_times.size ≡ b.end_times.size
  pub count_size : b'.packet_counts.size ≡ b.packet_counts.size
  pub writer_size : b'.disk_write_ids.size ≡ b.disk_write_ids.size
  pub delayed : b'.delayed_block_num ≡ b.delayed_block_num
  pub checks : b'.block_check_ids ≡ b.block_check_ids
  pub writing :
      AreOnDisk b.disk_write_ids b.disk_block_num → AreOnDisk b'.disk_write_ids b'.disk_block_num

-- New books of the same sizes.
Keeps-books :
    (b : BlockBuffer) (starts ends counts writers : Array)
    → starts.size ≡ b.start_times.size
    → ends.size ≡ b.end_times.size
    → counts.size ≡ b.packet_counts.size
    → writers.size ≡ b.disk_write_ids.size
    → (AreOnDisk b.disk_write_ids b.disk_block_num → AreOnDisk writers b.disk_block_num)
    → Keeps b (record b {
      start_times = starts;
      end_times = ends;
      packet_counts = counts;
      disk_write_ids = writers;
    })
Keeps-books b starts ends counts writers s e c w on_disk = record {
  memory = refl;
  total = refl;
  block = refl;
  buffer = refl;
  disk = refl;
  rss = refl;
  held = refl;
  start_size = s;
  end_size = e;
  count_size = c;
  writer_size = w;
  delayed = refl;
  checks = refl;
  writing = on_disk;
}

pub Keeps-refl : (b : BlockBuffer) → Keeps b b
Keeps-refl b =
    Keeps-books b b.start_times b.end_times b.packet_counts b.disk_write_ids refl refl refl refl
      (λ h. h)

pub Keeps-trans : {b b₁ b₂ : BlockBuffer} → Keeps b b₁ → Keeps b₁ b₂ → Keeps b b₂
Keeps-trans k l = record {
  memory = l.memory ∙ k.memory;
  total = l.total ∙ k.total;
  block = l.block ∙ k.block;
  buffer = l.buffer ∙ k.buffer;
  disk = l.disk ∙ k.disk;
  rss = l.rss ∙ k.rss;
  held = l.held ∙ k.held;
  start_size = l.start_size ∙ k.start_size;
  end_size = l.end_size ∙ k.end_size;
  count_size = l.count_size ∙ k.count_size;
  writer_size = l.writer_size ∙ k.writer_size;
  delayed = l.delayed ∙ k.delayed;
  checks = l.checks ∙ k.checks;
  writing = λ on_disk. l.writing (k.writing on_disk);
}

-- A step that runs and keeps all but the books.
abbrev pub Books : BlockBuffer → Option BlockBuffer → Type 0
Books b step = (b' : BlockBuffer) × (step ≡ some b') × Keeps b b'

stored_below :
    (b : BlockBuffer) (thread_id disk_id : ℕ)
    → disk_id < b.disk_block_num
    → AreOnDisk b.disk_write_ids b.disk_block_num
    → AreOnDisk (stored b.disk_write_ids thread_id disk_id) b.disk_block_num
stored_below b thread_id disk_id h on_disk i below = elim (Bool-cases (i == thread_id)) [
  | inl here ↦ rw here h
  | inr other ↦ rw other (on_disk i below)
]

pub note_writer-Books :
    (b : BlockBuffer) (new_data : Bool) (thread_id disk_id : ℕ)
    → thread_id < b.disk_write_ids.size
    → disk_id < b.disk_block_num
    → Books b (note_writer b new_data thread_id disk_id)
unfolding note_writer
note_writer-Books b false thread_id disk_id h on_disk = (b, refl, Keeps-refl b)
note_writer-Books b true thread_id disk_id h on_disk = (
  record b { disk_write_ids = stored b.disk_write_ids thread_id disk_id },
  rw (write-stored b.disk_write_ids thread_id disk_id h),
  Keeps-books b b.start_times b.end_times b.packet_counts
      (stored b.disk_write_ids thread_id disk_id) refl refl refl refl
      (λ h i below. stored_below b thread_id disk_id on_disk h i below),
)

pub note_end-Books :
    (b : BlockBuffer) (new_data : Bool) (block_id ts : ℕ)
    → block_id < b.end_times.size
    → Books b (note_end b new_data block_id ts)
unfolding note_end
note_end-Books b false block_id ts h = (b, refl, Keeps-refl b)
note_end-Books b true block_id ts h = (
  record b { end_times = stored b.end_times block_id ts },
  rw (write-stored b.end_times block_id ts h),
  Keeps-books b b.start_times (stored b.end_times block_id ts) b.packet_counts b.disk_write_ids refl
      refl refl refl (λ h. h),
)

pub note_start-Books :
    (b : BlockBuffer) (new_data : Bool) (block_id ts : ℕ)
    → block_id < b.start_times.size
    → Books b (note_start b new_data block_id ts)
unfolding note_start
note_start-Books b false block_id ts h = (b, refl, Keeps-refl b)
note_start-Books b true block_id ts h =
    let t = min (b.start_times.at block_id) ts in
    (
      record b { start_times = stored b.start_times block_id t },
      rw (read-at b.start_times block_id h, write-stored b.start_times block_id t h),
      Keeps-books b (stored b.start_times block_id t) b.end_times b.packet_counts b.disk_write_ids
          refl refl refl refl (λ h. h),
    )

pub mod-lt : (a n : ℕ) → 0 < n → a % n < n
mod-lt a n h = grind arith

pub count_new-Books :
    (b : BlockBuffer) (disk_pos thread_id : ℕ) (new_data new_index : Bool)
    → IsSized b
    → thread_id < b.rss_num
    → Books b (count_new b disk_pos thread_id new_data new_index)
unfolding count_new count_packet
count_new-Books b disk_pos thread_id new_data new_index s h =
    elim (Bool-cases (new_data && new_index)) [
      | inr skip ↦ (b, rw skip, Keeps-refl b)
      | inl count ↦
          let i = disk_pos / b.block_size % b.total_block_num + b.total_block_num * thread_id in
          let inside : i < b.packet_counts.size =
            slot_inside (disk_pos / b.block_size) b.total_block_num thread_id b.rss_num
              b.packet_counts.size s.some_blocks h s.counts in
          let n = add64 (b.packet_counts.at i) 1 in
          (
            record b { packet_counts = stored b.packet_counts i n },
            rw (count, read-at b.packet_counts i inside, write-stored b.packet_counts i n inside),
            Keeps-books b b.start_times b.end_times (stored b.packet_counts i n) b.disk_write_ids
                refl refl refl refl (λ h. h),
          )
    ]
  where
    slot_inside :
        (a total thread rss size : ℕ)
        → 0 < total
        → thread < rss
        → size ≡ total * rss
        → a % total + total * thread < size
    slot_inside a total thread rss size p q e = grind (arith, mod-lt a total)

pub note_slice-Books :
    (b : BlockBuffer) (end block_id : ℕ) (new_data : Bool) (ts : ℕ)
    → IsSized b
    → block_id < b.total_block_num
    → Books b (note_slice b end block_id new_data ts)
unfolding note_slice
note_slice-Books b end block_id new_data ts s h =
    let nonzero : (b.block_size / b.rss_num == 0) ≡ false = ground arith in
    elim (Bool-cases (end % (b.block_size / b.rss_num) == 0)) [
      | inr inside ↦ (b, rw (nonzero, inside), Keeps-refl b)
      | inl at_end ↦
          let (b₁, first, k₁) = note_end-Books b new_data block_id ts (omega (arith, s.ends)) in
          let next = mod-lt (block_id + 1) b.total_block_num s.some_blocks in
          let (b₂, second, k₂) =
            note_start-Books b₁ new_data ((block_id + 1) % b.total_block_num) ts
              (omega (arith, s.starts, k₁.start_size, next)) in
          (b₂, rw (nonzero, at_end, first, second), Keeps-trans k₁ k₂)
    ]
