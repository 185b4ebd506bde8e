-- ===== src/Probe/DataBlocks/Located.antt =====
-- The blocks of a write: which of them must be in the ring, and that the steps that find them run.
use di_traffic_database.Common.{
  ℕ, ◌+◌, ◌/◌, ◌%◌, ◌≤◌, ◌<◌, Bool, Option, none, some, ◌≡◌, ◌∙◌, arith, inl, inr, leb, ◌==◌,
  Bool-cases, add64, subst, sym, ap,
}
use di_traffic_database.Probe.DataBlocks.Arrays.{read-at}
use di_traffic_database.Probe.DataBlocks.{BlockBuffer, Place, enter_next, locate}
use di_traffic_database.Probe.DataBlocks.Steps.{
  IsSized, Keeps, Keeps-refl, Keeps-trans, note_writer-Books, note_end-Books, note_start-Books,
  mod-lt,
}

-- The block that the write begins in is in the ring, and so is the next one if the write fills the first.
abbrev pub InRing : BlockBuffer → ℕ → ℕ → Type 0
InRing b disk_pos len =
    (b.block_disk_id.at (disk_pos / b.block_size % b.total_block_num)
      ≡ disk_pos / b.block_size % b.disk_block_num)
    × (b.block_size ≤ add64 (disk_pos % b.block_size) len
        → b.block_disk_id.at ((disk_pos / b.block_size % b.total_block_num + 1) % b.total_block_num)
          ≡ (disk_pos / b.block_size % b.disk_block_num + 1) % b.disk_block_num)

-- A place is found just if the blocks of the write are in the ring.
abbrev pub PlaceOk : BlockBuffer → ℕ → ℕ → Place → Type 0
PlaceOk b disk_pos len none = ¬ InRing b disk_pos len
PlaceOk b disk_pos len (some (block_id, disk_id)) =
    (block_id < b.total_block_num) × (disk_id < b.disk_block_num) × InRing b disk_pos len

-- A step that runs, keeps all but the books, and finds a place that is in the ring.
abbrev Located : BlockBuffer → ℕ → ℕ → Option (BlockBuffer × Place) → Type 0
Located b disk_pos len step =
    (b' : BlockBuffer) × (place : Place) × (step ≡ some (b', place))
    × Keeps b b'
    × PlaceOk b disk_pos len place

enter_next-Located :
    (b : BlockBuffer) (disk_pos len thread_id : ℕ) (new_data : Bool) (ts : ℕ)
    → IsSized b
    → thread_id < b.disk_write_ids.size
    → b.block_disk_id.at (disk_pos / b.block_size % b.total_block_num)
      ≡ disk_pos / b.block_size % b.disk_block_num
    → b.block_size ≤ add64 (disk_pos % b.block_size) len
    → Located b disk_pos len (
        enter_next b
          (disk_pos / b.block_size % b.total_block_num)
          (disk_pos / b.block_size % b.disk_block_num)
          thread_id
          new_data
          ts)
unfolding enter_next
enter_next-Located b disk_pos len thread_id new_data ts s h e leaves =
    let block_id = disk_pos / b.block_size % b.total_block_num in
    let disk_id = disk_pos / b.block_size % b.disk_block_num in
    let i = mod-lt (disk_pos / b.block_size) b.total_block_num s.some_blocks in
    let next = (block_id + 1) % b.total_block_num in
    let next_disk = (disk_id + 1) % b.disk_block_num in
    let inside = mod-lt (block_id + 1) b.total_block_num s.some_blocks in
    let (b₁, first, k₁) = note_end-Books b new_data block_id ts (omega (arith, s.ends)) in
    let held =
      read-at b₁.block_disk_id next
        (subst (λ a. next < a.size) (sym k₁.held) (omega (arith, s.disk_ids, inside))) in
    elim (Bool-cases (b₁.block_disk_id.at next == next_disk)) [
      | inl same ↦
          let (b₂, second, k₂) =
            note_start-Books b₁ new_data next ts (omega (arith, s.starts, k₁.start_size, inside)) in
          (
            b₂,
            some (next, next_disk),
            rw (first, held, same, second),
            Keeps-trans k₁ k₂,
            (
              inside,
              mod-lt (disk_id + 1) b.disk_block_num s.some_disk,
              (e, λ full. sym (ap (λ a. a.at next) k₁.held) ∙ ground (arith, same)),
            ),
          )
      | inr other ↦
          let (b₂, second, k₂) =
            note_writer-Books b₁ new_data thread_id next_disk (omega (arith, k₁.writer_size))
              (omega (arith, k₁.disk, mod-lt (disk_id + 1) b.disk_block_num s.some_disk)) in
          (
            b₂,
            none,
            rw (first, held, other, second),
            Keeps-trans k₁ k₂,
            λ r. absurd (ground (arith, other, ap (λ a. a.at next) k₁.held, r.1 leaves)),
          )
    ]

pub locate-Located :
    (b : BlockBuffer) (len disk_pos thread_id : ℕ) (new_data : Bool) (ts : ℕ)
    → IsSized b
    → thread_id < b.disk_write_ids.size
    → Located b disk_pos len (locate b len disk_pos thread_id new_data ts)
unfolding locate
locate-Located b len disk_pos thread_id new_data ts s h =
    let block_id = disk_pos / b.block_size % b.total_block_num in
    let disk_id = disk_pos / b.block_size % b.disk_block_num in
    let inside = mod-lt (disk_pos / b.block_size) b.total_block_num s.some_blocks in
    let held = read-at b.block_disk_id block_id (omega (arith, s.disk_ids, inside)) in
    elim (Bool-cases (b.block_disk_id.at block_id == disk_id)) [
      | inr other ↦
          let (b₁, first, k₁) =
            note_writer-Books b new_data thread_id disk_id h
              (mod-lt (disk_pos / b.block_size) b.disk_block_num s.some_disk) in
          (b₁, none, rw (held, other, first), k₁, λ r. absurd (ground (arith, other, r.0)))
      | inl same ↦
          let here : b.block_disk_id.at block_id ≡ disk_id = ground arith in
          elim (Bool-cases (leb b.block_size (add64 (disk_pos % b.block_size) len))) [
            | inr stays ↦ (
              b,
              some (block_id, disk_id),
              rw (held, same, stays),
              Keeps-refl b,
              (
                inside,
                mod-lt (disk_pos / b.block_size) b.disk_block_num s.some_disk,
                (here, λ full. absurd (ground (arith, stays, full))),
              ),
            )
            | inl leaves ↦
                let (b', place, step, k, fine) =
                  enter_next-Located b disk_pos len thread_id new_data ts s h here
                    (ground (arith, leaves)) in
                (b', place, rw (held, same, leaves) step, k, fine)
          ]
    ]
