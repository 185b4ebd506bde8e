-- ===== src/Probe/DataBlocks/Turns.antt =====
-- A turn of the ring: a block is taken and given back, and then takes the bytes of the next turn.
use native.Mathlib.Nat.{add-mod_right, mod-add-mod, mod-eq_of_lt}
use di_traffic_database.Common.{
  ℕ, ◌+◌, ◌*◌, ◌/◌, ◌%◌, ◌^◌, ◌≤◌, ◌<◌, Bool, true, false, ◌==◌, ltb, some, ◌≡◌, ◌≢◌, refl, ◌∙◌,
  arith, Bool-cases, u64, add64, ap, sym, inl, inr, length,
}
use di_traffic_database.DataNode.Text.{Str}
use di_traffic_database.Probe.DataBlocks.{BlockBuffer, write_block}
use di_traffic_database.Probe.DataBlocks.Checks.{DataBlock, get_block, recycle_block}
use di_traffic_database.Probe.DataBlocks.Counts.{
  total_from, counter, taken, described, get_block_run,
}
use di_traffic_database.Probe.DataBlocks.Recycled.{
  turned, turned-IsSized, turned-HasThreads, recycle_block_run,
}
use di_traffic_database.Probe.DataBlocks.Memory.{Written, write_block-Written}
use di_traffic_database.Probe.DataBlocks.Steps.{IsSized, HasThreads, mod-lt}
use di_traffic_database.Probe.DataBlocks.Located.{InRing}
use di_traffic_database.Probe.DataBlocks.Windows.{mod_once}

moves :
    (disk step place : ℕ) → place < disk → 0 < step → step < disk → (place + step) % disk ≢ place
moves disk step place p q r same = elim (Bool-cases (ltb (place + step) disk)) [
  | inl below ↦ absurd (
      omega
        (arith, q, sym (mod-eq_of_lt {n = place + step} {m = disk} (ground (arith, below))) ∙ same))
  | inr beyond ↦
      let le : disk ≤ place + step = ground (arith, beyond) in
      absurd (omega (arith, p, q, r, sym (mod_once (place + step) disk le (omega arith)) ∙ same))
]

-- The block that is given back with `place` on the disk has the place a turn of the ring later.
module _ (b : BlockBuffer) (place : ℕ) (bytes : Str) (disk_pos thread_id : ℕ)
    (new_data new_index : Bool) (ts : ℕ) (s : IsSized b) (t : HasThreads b)
    (held : b.block_disk_id.at (place % b.total_block_num) ≡ place % b.disk_block_num)
    (ahead : disk_pos / b.block_size ≡ place + b.total_block_num)
    (stays : disk_pos % b.block_size + length bytes < b.block_size)
    (small : b.buffer_size < 2 ^ 63) where
  block_small : b.block_size < 2 ^ 63
  block_small = below _ _ _ s.whole s.some_blocks small
    where
      below : (n p q : ℕ) → n ≡ p * q → 0 < p → n < 2 ^ 63 → q < 2 ^ 63
      below n p q e h k = grind arith

  fits : length bytes ≤ b.buffer_size
  fits = below _ _ _ _ s.whole s.some_blocks (omega (arith, stays))
    where
      below : (n p q l : ℕ) → n ≡ p * q → 0 < p → l ≤ q → l ≤ n
      below n p q l e h k = grind arith

  not_full : add64 (disk_pos % b.block_size) (length bytes) < b.block_size
  not_full = omega (arith, stays, block_small)

  first_block : disk_pos / b.block_size % b.total_block_num ≡ place % b.total_block_num
  first_block = ap (λ n. n % b.total_block_num) ahead ∙ add-mod_right place b.total_block_num

  turned-InRing : InRing (turned b place) disk_pos (length bytes)
  turned-InRing = (
    (let same : (disk_pos / b.block_size % b.total_block_num == place % b.total_block_num) ≡ true =
          ground (arith, first_block) in
        rw same (ap (λ n. n % b.disk_block_num) (sym ahead))),
    λ full. absurd (omega (arith, full, not_full)),
  )

  waits : ¬ InRing b disk_pos (length bytes)
  waits r =
      moves b.disk_block_num b.total_block_num (place % b.disk_block_num)
        (mod-lt place b.disk_block_num s.some_disk) s.some_blocks (omega (arith, t.short))
        (mod-add-mod place b.disk_block_num b.total_block_num
          ∙ ap (λ n. n % b.disk_block_num) (sym ahead)
          ∙ sym r.0
          ∙ ap b.block_disk_id.at first_block
          ∙ held)

  waits_first :
      thread_id < b.rss_num
      → (b' : BlockBuffer) × (write_block b bytes disk_pos thread_id new_data new_index ts
          ≡ some (b', false))
        × (b'.memory ≡ b.memory)
  waits_first counted =
      let (b', done, run, s', t', ends) =
        write_block-Written b bytes disk_pos thread_id new_data new_index ts s t counted fits
          small in
      elim ends [
        | inl (good, ring, wrote) ↦ absurd (waits ring)
        | inr (bad, out, kept) ↦ (b', run ∙ ap (λ d. some (b', d)) bad, kept)
      ]

  writes_then :
      thread_id < b.rss_num
      → (b' : BlockBuffer) × (write_block
            (turned b place)
            bytes
            disk_pos
            thread_id
            new_data
            new_index
            ts
          ≡ some (b', true))
        × Written b.buffer_size b.memory (disk_pos % b.buffer_size) bytes b'.memory
  writes_then counted =
      let (b', done, run, s', t', ends) =
        write_block-Written (turned b place) bytes disk_pos thread_id new_data new_index ts
          (turned-IsSized b place s t) (turned-HasThreads b place s t) counted fits small in
      elim ends [
        | inl (good, ring, wrote) ↦ (b', run ∙ ap (λ d. some (b', d)) good, wrote)
        | inr (bad, out, kept) ↦ absurd (out turned-InRing)
      ]

-- A capture thread that is a turn of the ring ahead of a block has its write refused, and the memory stays as
-- it is, until the block is given back; then the write succeeds, and its bytes stand in the ring, all else as
-- before. The buffer is well-formed, the block is in the ring for `place`, the write begins in the block a turn later and does not fill
-- it, the thread is one of the ring's, and the ring is smaller than 2^63 bytes.
pub recycle_block-write_block :
    (b : BlockBuffer) (place : ℕ) (bytes : Str) (disk_pos thread_id : ℕ) (new_data new_index : Bool)
    (ts : ℕ)
    → IsSized b
    → HasThreads b
    → b.block_disk_id.at (place % b.total_block_num) ≡ place % b.disk_block_num
    → disk_pos / b.block_size ≡ place + b.total_block_num
    → disk_pos % b.block_size + length bytes < b.block_size
    → b.buffer_size < 2 ^ 63
    → thread_id < b.rss_num
    → ((b₁ : BlockBuffer) × (write_block b bytes disk_pos thread_id new_data new_index ts
          ≡ some (b₁, false))
        × (b₁.memory ≡ b.memory))
      × ((b₁ : BlockBuffer) × (b₂ : BlockBuffer) × (recycle_block b (place % b.total_block_num)
            ≡ some b₁)
          × HasThreads b₁
          × (write_block b₁ bytes disk_pos thread_id new_data new_index ts ≡ some (b₂, true))
          × Written b.buffer_size b.memory (disk_pos % b.buffer_size) bytes b₂.memory)
recycle_block-write_block b place bytes disk_pos thread_id new_data new_index ts s t held ahead
      stays small counted =
    let first =
      waits_first b place bytes disk_pos thread_id new_data new_index ts s t held ahead stays small
        counted in
    let (b₂, run, wrote) =
      writes_then b place bytes disk_pos thread_id new_data new_index ts s t held ahead stays small
        counted in
    (
      first,
      (
        turned b place,
        b₂,
        recycle_block_run b place s t held,
        turned-HasThreads b place s t,
        run,
        wrote,
      ),
    )

-- A disk thread takes the block that is its turn: the block has the sum of the counters that the capture
-- threads keep of it, these are 0 afterwards, those of the other blocks and the bytes stay as they are, the
-- next turn of the thread is as many blocks further as there are disk threads, and the buffer stays
-- well-formed. The buffer is well-formed, the thread is registered, and there are at most 2^62 threads.
pub get_block-counted :
    (b : BlockBuffer) (thread_id : ℕ)
    → IsSized b
    → HasThreads b
    → thread_id < b.block_check_ids.size
    → b.block_check_ids.size ≤ 2 ^ 62
    → (b' : BlockBuffer) × (block : DataBlock) × (get_block b thread_id ≡ some (b', block))
      × IsSized b'
      × HasThreads b'
      × (block.block_id ≡ b.block_check_ids.at thread_id)
      × (block.write_pos ≡ b.block_disk_id.at block.block_id)
      × (block.packet_count ≡ u64 (total_from (counter b block.block_id) 0 b.rss_num))
      × ((j : ℕ) → j < b.rss_num → counter b' block.block_id j ≡ 0)
      × ((other j : ℕ)
          → other < b.total_block_num
          → other ≢ block.block_id
          → counter b' other j ≡ counter b other j)
      × (b'.block_check_ids.at thread_id
          ≡ (block.block_id + b.block_check_ids.size) % b.total_block_num)
      × (b'.memory ≡ b.memory)
get_block-counted b thread_id s t checks few =
    let (counts, run, s', t', zeroed, kept) = get_block_run b thread_id s t checks few in
    let here : (thread_id == thread_id) ≡ true = ground arith in
    (
      taken b thread_id counts,
      described b thread_id,
      run,
      s',
      t',
      refl,
      refl,
      refl,
      zeroed,
      kept,
      rw here,
      refl,
    )
