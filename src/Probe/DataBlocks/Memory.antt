-- ===== src/Probe/DataBlocks/Memory.antt =====
-- What a write leaves in the memory of the ring.
use native.Mathlib.Nat.{mod-eq_of_lt}
use di_traffic_database.Common.{
  ℕ, zero, suc, ◌+◌, ◌-◌, ◌*◌, ◌/◌, ◌%◌, ◌^◌, ◌≤◌, ◌<◌, Bool, true, false, ◌||◌, none, some, [],
  ◌∷◌, ◌≡◌, refl, ap, ap₂, ◌∙◌, sym, subst, arith, ◌⊎◌, inl, inr, if◌then◌else◌, ltb, ◌==◌,
  Bool-cases, add64, length, take, drop, get_or, get_or_beyond, get_or-take, get_or-drop,
  length-take, length-drop,
}
use di_traffic_database.DataNode.Text.{Str}
use di_traffic_database.Probe.DataBlocks.{
  BlockBuffer, Place, copied, memcpy, copy_around, locate, write_block,
}
use di_traffic_database.Probe.DataBlocks.Steps.{
  IsSized, HasThreads, mod-lt, Keeps, Keeps-trans, note_slice-Books, note_writer-Books,
  count_new-Books,
}
use di_traffic_database.Probe.DataBlocks.Located.{InRing, PlaceOk, locate-Located}

copied_below : (m : ℕ → ℕ) (pos : ℕ) (bytes : Str) (j : ℕ) → j < pos → copied m pos bytes j ≡ m j
copied_below m pos [] j h = refl
copied_below m pos (x ∷ bytes) j h =
    copied_below (λ i. if i == pos then x else m i) (pos + 1) bytes j (omega arith) ∙ ground arith

copied_from :
    (m : ℕ → ℕ) (pos : ℕ) (bytes : Str) (i : ℕ)
    → copied m pos bytes (pos + i) ≡ get_or bytes i (m (pos + i))
copied_from m pos [] i = refl
copied_from m pos (x ∷ bytes) zero =
    copied_below (λ i. if i == pos then x else m i) (pos + 1) bytes (pos + 0) (omega arith)
    ∙ ground arith
copied_from m pos (x ∷ bytes) (suc i) =
    ap (copied (λ j. if j == pos then x else m j) (pos + 1) bytes) {y = pos + 1 + i} (omega arith)
    ∙ copied_from (λ j. if j == pos then x else m j) (pos + 1) bytes i
    ∙ ap (get_or bytes i) (ground arith)

distance_before : (size pos j : ℕ) → pos < size → j < pos → (j + size - pos) % size ≡ size - pos + j
distance_before size pos j h k =
    mod-eq_of_lt {n = j + size - pos} {m = size} (omega arith) ∙ omega arith

distance_after : (size pos i : ℕ) → pos + i < size → (pos + i + size - pos) % size ≡ i
distance_after size pos i h = ap (λ n. n % size) {y = i + size} (omega arith) ∙ grind arith

-- The bytes stand in the ring from `pos` on, and all else is as before.
abbrev pub Written : ℕ → (ℕ → ℕ) → ℕ → Str → (ℕ → ℕ) → Type 0
Written size m pos bytes m' =
    (j : ℕ) → j < size → m' j ≡ get_or bytes ((j + size - pos) % size) (m j)

module _ (size : ℕ) (m : ℕ → ℕ) (pos : ℕ) (bytes : Str) (inside : pos < size)
    (fits : length bytes ≤ size) where
  straight-Written : pos + length bytes ≤ size → Written size m pos bytes (copied m pos bytes)
  straight-Written h j below = elim (Bool-cases (ltb j pos)) [
    | inl before ↦
        copied_below m pos bytes j (ground arith)
        ∙ sym (
            ap (λ d. get_or bytes d (m j)) (distance_before size pos j inside (ground arith))
            ∙ get_or_beyond bytes (size - pos + j) (m j) (omega (arith, h)))
    | inr after ↦
        let i = j - pos in
        let here : pos + i ≡ j = ground arith in
        subst (λ k. copied m pos bytes k ≡ get_or bytes ((k + size - pos) % size) (m k)) here
          (copied_from m pos bytes i
            ∙ sym (
                ap (λ d. get_or bytes d (m (pos + i)))
                  (distance_after size pos i (omega (arith, here)))))
  ]

  abbrev first : ℕ → ℕ
  first = copied m pos (take (size - pos) bytes)

  from_start :
      (j : ℕ)
      → copied first 0 (drop (size - pos) bytes) j ≡ get_or (drop (size - pos) bytes) j (first j)
  from_start j =
      let same : 0 + j ≡ j = omega arith in
      subst
        (λ k.
          copied first 0 (drop (size - pos) bytes) k ≡ get_or (drop (size - pos) bytes) j (first k))
        same (copied_from first 0 (drop (size - pos) bytes) j)

  around-Written :
      size < pos + length bytes
      → Written size m pos bytes
          (copied (copied m pos (take (size - pos) bytes)) 0 (drop (size - pos) bytes))
  around-Written h j below = elim (Bool-cases (ltb j pos)) [
    | inl before ↦
        from_start j
        ∙ get_or-drop (size - pos) bytes j (first j)
        ∙ ap (get_or bytes (size - pos + j))
            (copied_below m pos (take (size - pos) bytes) j (ground arith))
        ∙ sym (ap (λ d. get_or bytes d (m j)) (distance_before size pos j inside (ground arith)))
    | inr after ↦
        let i = j - pos in
        let here : pos + i ≡ j = ground arith in
        let rest = length-drop (size - pos) bytes (omega (arith, h)) in
        from_start j
        ∙ get_or_beyond (drop (size - pos) bytes) j (first j) (omega (arith, rest, here))
        ∙ subst (λ k. first k ≡ get_or bytes ((k + size - pos) % size) (m k)) here
            (copied_from m pos (take (size - pos) bytes) i
              ∙ get_or-take (size - pos) bytes i (m (pos + i)) (omega (arith, here))
              ∙ sym (
                  ap (λ d. get_or bytes d (m (pos + i)))
                    (distance_after size pos i (omega (arith, here)))))
  ]

copy_around-Written :
    (b : BlockBuffer) (pos : ℕ) (bytes : Str)
    → pos < b.buffer_size
    → length bytes ≤ b.buffer_size
    → b.buffer_size < 2 ^ 63
    → (m : ℕ → ℕ) × (copy_around b pos bytes ≡ some (record b { memory = m }))
      × Written b.buffer_size b.memory pos bytes m
unfolding copy_around memcpy
copy_around-Written b pos bytes inside fits small =
    let size = b.buffer_size in
    let sum : add64 pos (length bytes) ≡ pos + length bytes = omega (arith, inside, fits, small) in
    elim (Bool-cases (ltb size (pos + length bytes))) [
      | inr straight ↦ (
        copied b.memory pos bytes,
        rw (sum, straight),
        straight-Written size b.memory pos bytes inside fits (ground arith),
      )
      | inl around ↦
          let past : size < pos + length bytes = ground arith in
          let front = length-take (size - pos) bytes (omega (arith, past)) in
          let rest = length-drop (size - pos) bytes (omega (arith, past)) in
          let first_fits : ltb size (pos + length (take (size - pos) bytes)) ≡ false =
            ground arith in
          let rest_fits : ltb size (0 + length (drop (size - pos) bytes)) ≡ false = ground arith in
          (
            _,
            rw (sum, around, first_fits, rest_fits),
            around-Written size b.memory pos bytes inside fits past,
          )
    ]

IsSized-Keeps : {b b' : BlockBuffer} → IsSized b → Keeps b b' → IsSized b'
IsSized-Keeps {b} {b'} s k = record {
  some_blocks = omega (arith, s.some_blocks, k.total);
  some_bytes = omega (arith, s.some_bytes, k.block);
  some_disk = omega (arith, s.some_disk, k.disk);
  some_slice =
      subst (λ n. 0 < n / b'.rss_num) (sym k.block)
        (subst (λ r. 0 < b.block_size / r) (sym k.rss) s.some_slice);
  whole = k.buffer ∙ s.whole ∙ ap₂ (λ (a c : ℕ). a * c) (sym k.total) (sym k.block);
  disk_ids = ap (λ a. a.size) k.held ∙ s.disk_ids ∙ sym k.total;
  starts = k.start_size ∙ s.starts ∙ sym k.total;
  ends = k.end_size ∙ s.ends ∙ sym k.total;
  counts = k.count_size ∙ s.counts ∙ ap₂ (λ (a c : ℕ). a * c) (sym k.total) (sym k.rss);
}

IsSized-memory : {b : BlockBuffer} (m : ℕ → ℕ) → IsSized b → IsSized (record b { memory = m })
IsSized-memory m s = record {
  some_blocks = s.some_blocks;
  some_bytes = s.some_bytes;
  some_disk = s.some_disk;
  some_slice = s.some_slice;
  whole = s.whole;
  disk_ids = s.disk_ids;
  starts = s.starts;
  ends = s.ends;
  counts = s.counts;
}

HasThreads-Keeps : {b b' : BlockBuffer} → HasThreads b → Keeps b b' → HasThreads b'
HasThreads-Keeps {b} {b'} t k = record {
  short = omega (arith, t.short, k.total, k.disk);
  disk_small = omega (arith, t.disk_small, k.disk);
  delayed_small = omega (arith, t.delayed_small, k.delayed);
  holding = λ i h.
      subst (λ a. a.at i < b'.disk_block_num) (sym k.held)
        (omega (arith, k.disk, t.holding i (omega (arith, h, k.total))));
  all_writers = omega (arith, t.all_writers, k.rss, k.writer_size);
  writing = k.writing t.writing;
  checking =
      subst (λ a. (i : ℕ) → i < a.size → a.at i < b'.total_block_num) (sym k.checks)
        (λ i h. omega (arith, k.total, t.checking i h));
}

HasThreads-memory :
    {b : BlockBuffer} (m : ℕ → ℕ) → HasThreads b → HasThreads (record b { memory = m })
HasThreads-memory m t = record {
  short = t.short;
  disk_small = t.disk_small;
  delayed_small = t.delayed_small;
  holding = t.holding;
  all_writers = t.all_writers;
  writing = t.writing;
  checking = t.checking;
}

module _ (b : BlockBuffer) (bytes : Str) (disk_pos thread_id : ℕ) (new_data new_index : Bool)
    (ts : ℕ) (s : IsSized b) (t : HasThreads b) (counted : thread_id < b.rss_num)
    (fits : length bytes ≤ b.buffer_size) (small : b.buffer_size < 2 ^ 63) where
  -- The ring has the bytes where the place on the disk says, if the block was in the buffer, and is as
  -- before if the write is refused.
  abbrev Outcome : Type 0
  Outcome =
      (b' : BlockBuffer) × (done : Bool) × (write_block b bytes disk_pos thread_id new_data
          new_index ts
        ≡ some (b', done))
      × IsSized b'
      × HasThreads b'
      × (((done ≡ true)
            × InRing b disk_pos (length bytes)
            × Written b.buffer_size b.memory (disk_pos % b.buffer_size) bytes b'.memory)
          ⊎ ((done ≡ false) × (¬ InRing b disk_pos (length bytes)) × (b'.memory ≡ b.memory)))

  positive : 0 < b.buffer_size
  positive = product_positive _ _ _ s.whole s.some_blocks s.some_bytes
    where
      product_positive : (n p q : ℕ) → n ≡ p * q → 0 < p → 0 < q → 0 < n
      product_positive n p q e h k = grind arith

  divisors :
      (b.block_size == 0
        || (b.total_block_num == 0 || (b.disk_block_num == 0 || b.buffer_size == 0)))
      ≡ false
  divisors = ground (arith, positive, s.some_blocks, s.some_bytes, s.some_disk)

  write_place :
      (b₁ : BlockBuffer) (place : Place)
      → locate b (length bytes) disk_pos thread_id new_data ts ≡ some (b₁, place)
      → Keeps b b₁
      → PlaceOk b disk_pos (length bytes) place
      → Outcome
  unfolding write_block
  write_place b₁ none located k₁ fine = (
    b₁,
    false,
    rw (divisors, located),
    IsSized-Keeps s k₁,
    HasThreads-Keeps t k₁,
    inr (refl, fine, k₁.memory),
  )
  write_place b₁ (some (block_id, disk_id)) located k₁ (inside, on_disk, held) =
      let s₁ = IsSized-Keeps s k₁ in
      let (b₂, sliced, k₂) =
        note_slice-Books b₁ (add64 (disk_pos % b.block_size) (length bytes)) block_id new_data ts s₁
          (omega (arith, k₁.total, inside)) in
      let k₁₂ = Keeps-trans k₁ k₂ in
      let (m, copies, wrote) =
        copy_around-Written b₂ (disk_pos % b.buffer_size) bytes
          (omega (arith, k₁₂.buffer, mod-lt disk_pos b.buffer_size positive))
          (omega (arith, k₁₂.buffer, fits)) (omega (arith, k₁₂.buffer, small)) in
      let b₃ = record b₂ { memory = m } in
      let s₃ = IsSized-memory m (IsSized-Keeps s k₁₂) in
      let (b₄, noted, k₄) =
        note_writer-Books b₃ new_data thread_id disk_id
          (omega (arith, k₁₂.writer_size, counted, t.all_writers))
          (omega (arith, k₁₂.disk, on_disk)) in
      let (b₅, counts, k₅) =
        count_new-Books b₄ disk_pos thread_id new_data new_index (IsSized-Keeps s₃ k₄)
          (omega (arith, k₄.rss, k₁₂.rss, counted)) in
      let final : b₅.memory ≡ m = k₅.memory ∙ k₄.memory in
      (
        b₅,
        true,
        rw (divisors, located, sliced, copies, noted, counts),
        IsSized-Keeps s₃ (Keeps-trans k₄ k₅),
        HasThreads-Keeps (HasThreads-memory m (HasThreads-Keeps t k₁₂)) (Keeps-trans k₄ k₅),
        inl (
          refl,
          held,
          λ j below.
              ap (λ f. f j) final
              ∙ wrote j (omega (arith, below, k₁₂.buffer))
              ∙ ap₂ (λ n x. get_or bytes ((j + n - disk_pos % b.buffer_size) % n) x) k₁₂.buffer
                  (ap (λ f. f j) k₁₂.memory),
        ),
      )

-- If the buffer is well-formed, and is smaller than 2^63 bytes, then a write of one of its threads, of no more
-- bytes than the ring has, accesses no array outside of its bounds and leaves it well-formed. It reports
-- success just if the block that it begins in is in the ring for its place, and, should it fill that block, the
-- next one too; later blocks of a longer write are not looked at. Then the bytes stand in the ring from the
-- place on, around its end, and all other bytes are as before. Else the memory stays as it is.
pub write_block-Written :
    (b : BlockBuffer) (bytes : Str) (disk_pos thread_id : ℕ) (new_data new_index : Bool) (ts : ℕ)
    → IsSized b
    → HasThreads b
    → thread_id < b.rss_num
    → length bytes ≤ b.buffer_size
    → b.buffer_size < 2 ^ 63
    → (b' : BlockBuffer) × (done : Bool) × (write_block b bytes disk_pos thread_id new_data
          new_index ts
        ≡ some (b', done))
      × IsSized b'
      × HasThreads b'
      × (((done ≡ true)
            × InRing b disk_pos (length bytes)
            × Written b.buffer_size b.memory (disk_pos % b.buffer_size) bytes b'.memory)
          ⊎ ((done ≡ false) × (¬ InRing b disk_pos (length bytes)) × (b'.memory ≡ b.memory)))
write_block-Written b bytes disk_pos thread_id new_data new_index ts s t counted fits small =
    let (b₁, place, located, k₁, fine) =
      locate-Located b (length bytes) disk_pos thread_id new_data ts s
        (omega (arith, counted, t.all_writers)) in
    write_place b bytes disk_pos thread_id new_data new_index ts s t counted fits small b₁ place
      located k₁ fine
