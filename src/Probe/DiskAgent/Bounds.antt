-- ===== src/Probe/DiskAgent/Bounds.antt =====
-- Which bytes of the disk the requests are for.
use native.Mathlib.Nat.{add-mul, div-add-mod', mul-le-mul_left, mul-le-mul_right}
use di_traffic_database.Common.{
  ℕ, ◌+◌, ◌-◌, ◌*◌, ◌/◌, ◌%◌, ◌^◌, ◌≤◌, ◌<◌, Bool, true, false, ◌&&◌, ◌||◌, ltb, leb, ◌==◌, some,
  [], ◌≡◌, ◌∙◌, arith, Bool-cases, u64, add64, sub64, ap, sym, ◌⊎◌, inl, inr,
}
use di_traffic_database.DataNode.Exceptions.{ok}
use di_traffic_database.Probe.DiskAgent.{
  DiskAgent, create, Request, Answers, reading, writing, request, prepared, async_write, read,
  read_range,
}

-- The blocks are the whole part of the disk, which ends below 2^64.
pub record IsFormatted (a : DiskAgent) : Type 0 where
  pub whole : a.block_num * a.block_size ≡ a.disk_size
  pub some_bytes : 0 < a.block_size
  pub addressed : a.basic_offset + a.disk_size + a.block_size < 2 ^ 64

-- The request is from the block `first` of the part of the disk on, and for `n` blocks in 32 bits.
abbrev pub IsFor : DiskAgent → ℕ → ℕ → Request → Type 0
IsFor a first n r =
    (r.offset ≡ a.basic_offset + first * a.block_size) × (r.len ≡ n * a.block_size % 2 ^ 32)

-- The bytes of the request are in the part of the disk.
abbrev pub IsInside : DiskAgent → Request → Type 0
IsInside a r = (a.basic_offset ≤ r.offset) × (r.offset + r.len ≤ a.basic_offset + a.disk_size)

blocks_below :
    (first n num size disk : ℕ)
    → num * size ≡ disk
    → first + n ≤ num
    → first * size + n * size ≤ disk
blocks_below first n num size disk e h =
    omega (arith, add-mul first n size, mul-le-mul_right size h, e)

-- What a request for `n` blocks from `first` on does to the agent.
abbrev pub Requested : DiskAgent → ℕ → ℕ → Bool → DiskAgent × Bool → (Request → Type 0) → Type 0
Requested a first n done step Where =
    (step ≡ (a, false))
    ⊎ ((r : Request) × (step ≡ (prepared a r, done)) × IsFor a first n r × Where r)

module _ (a : DiskAgent) (f : IsFormatted a) where
  below :
      (first n : ℕ)
      → first + n ≤ a.block_num
      → first * a.block_size + n * a.block_size ≤ a.disk_size
  below first n h = blocks_below first n a.block_num a.block_size a.disk_size f.whole h

  inside : (first n : ℕ) (r : Request) → first + n ≤ a.block_num → IsFor a first n r → IsInside a r
  inside first n r h (o, l) = (omega arith, omega (arith, below first n h))

  start :
      (first : ℕ)
      → first ≤ a.block_num
      → add64 (u64 (first * a.block_size)) a.basic_offset ≡ a.basic_offset + first * a.block_size
  start first h = omega (arith, below first 0 (omega arith), f.addressed)

  async_write-Requested :
      (answers : Answers) (buffer block_id write_pos : ℕ)
      → Requested a write_pos 1 answers.submitted
          (async_write a answers buffer block_id write_pos)
          (λ r.
            ((write_pos < a.block_num) × IsInside a r)
            ⊎ ((write_pos ≡ a.block_num) × (r.offset ≡ a.basic_offset + a.disk_size)))
  unfolding async_write
  async_write-Requested answers buffer block_id write_pos =
      elim (Bool-cases (ltb a.block_num write_pos)) [
        | inl beyond ↦ inl (rw beyond)
        | inr within ↦ elim (Bool-cases answers.has_entry) [
          | inr full ↦ inl (rw (within, full))
          | inl entry ↦
              let h : write_pos ≤ a.block_num = ground (arith, within) in
              let o = start write_pos h in
              let l : a.block_size % 2 ^ 32 ≡ 1 * a.block_size % 2 ^ 32 = omega arith in
              inr (
                request a writing buffer a.block_size write_pos block_id,
                rw (within, entry),
                (o, l),
                elim (Bool-cases (ltb write_pos a.block_num)) [
                  | inl low ↦
                      let lt : write_pos < a.block_num = ground (arith, low) in
                      inl (
                        lt,
                        inside write_pos 1
                            (request a writing buffer a.block_size write_pos block_id)
                            (omega (arith, lt)) (o, l),
                      )
                  | inr last ↦
                      let e : write_pos ≡ a.block_num = ground (arith, last, h) in
                      inr (
                        e,
                        o
                            ∙ ap (λ n. a.basic_offset + n * a.block_size) e
                            ∙ ap (λ n. a.basic_offset + n) f.whole,
                      )
                ],
              )
        ]
      ]

  read-Requested :
      (answers : Answers) (completed : Bool) (buffer id : ℕ)
      → Requested a id 1
          (answers.submitted && completed)
          (read a answers completed buffer id)
          (IsInside a)
  unfolding read
  read-Requested answers completed buffer id = elim (Bool-cases (leb a.block_num id)) [
    | inl beyond ↦ inl (rw beyond)
    | inr within ↦ elim (Bool-cases answers.has_entry) [
      | inr full ↦ inl (rw (within, full))
      | inl entry ↦
          let h : id < a.block_num = ground (arith, within) in
          let r = request a reading buffer a.block_size id id in
          let for : IsFor a id 1 r = (start id (omega (arith, h)), omega arith) in
          inr (r, rw (within, entry), for, inside id 1 r (omega (arith, h)) for)
    ]
  ]

  num_small : a.block_num ≤ a.disk_size
  num_small = omega (arith, mul-le-mul_left a.block_num f.some_bytes, f.whole)

  range_len :
      (begin_id end_id : ℕ)
      → begin_id ≤ end_id
      → end_id ≤ a.block_num
      → u64 (add64 (sub64 end_id begin_id) 1 * a.block_size)
        ≡ (end_id - begin_id + 1) * a.block_size
  range_len begin_id end_id h k =
      let n = end_id - begin_id + 1 in
      let count : add64 (sub64 end_id begin_id) 1 ≡ n =
        omega (arith, h, k, num_small, f.addressed, f.some_bytes) in
      let few : n ≤ a.block_num + 1 = omega (arith, h, k) in
      ap (λ m. u64 (m * a.block_size)) count
      ∙ omega (
        arith,
        mul-le-mul_right a.block_size few,
        add-mul a.block_num 1 a.block_size,
        f.whole,
        f.addressed,
      )

  past_end :
      (begin_id end_id : ℕ)
      → begin_id ≤ end_id
      → end_id ≡ a.block_num
      → begin_id * a.block_size + (end_id - begin_id + 1) * a.block_size
        ≡ a.disk_size + a.block_size
  past_end begin_id end_id h e =
      sym (add-mul begin_id (end_id - begin_id + 1) a.block_size)
      ∙ ap (λ n. n * a.block_size) {x = begin_id + (end_id - begin_id + 1)} {y = a.block_num + 1}
          (omega (arith, h, e))
      ∙ omega (arith, add-mul a.block_num 1 a.block_size, f.whole)

  read_range-Requested :
      (answers : Answers) (completed : Bool) (buffer begin_id end_id : ℕ)
      → Requested a begin_id
          (end_id - begin_id + 1)
          (answers.submitted && completed)
          (read_range a answers completed buffer begin_id end_id)
          (λ r.
            ((end_id < a.block_num) × IsInside a r)
            ⊎ ((end_id ≡ a.block_num)
                × (r.offset + (end_id - begin_id + 1) * a.block_size
                    ≡ a.basic_offset + a.disk_size + a.block_size)))
  unfolding read_range
  read_range-Requested answers completed buffer begin_id end_id =
      elim (Bool-cases
        (leb a.block_num begin_id || (ltb a.block_num end_id || ltb end_id begin_id))) [
          | inl beyond ↦ inl (rw beyond)
          | inr within ↦ elim (Bool-cases answers.has_entry) [
            | inr full ↦ inl (rw (within, full))
            | inl entry ↦
                let h : begin_id < a.block_num = ground (arith, within) in
                let h' : end_id ≤ a.block_num = ground (arith, within) in
                let h'' : begin_id ≤ end_id = ground (arith, within) in
                let r =
                  request a reading buffer (u64 (add64 (sub64 end_id begin_id) 1 * a.block_size))
                    begin_id begin_id in
                let for : IsFor a begin_id (end_id - begin_id + 1) r = (
                  start begin_id (omega (arith, h)),
                  ap (λ n. n % 2 ^ 32) (range_len begin_id end_id h'' h'),
                ) in
                inr (
                  r,
                  rw (within, entry),
                  for,
                  elim (Bool-cases (ltb end_id a.block_num)) [
                    | inl low ↦
                        let lt : end_id < a.block_num = ground (arith, low) in
                        inl (
                          lt,
                          inside begin_id (end_id - begin_id + 1) r (omega (arith, lt, h'')) for,
                        )
                    | inr last ↦
                        let e : end_id ≡ a.block_num = ground (arith, last, h') in
                        inr (e, omega (arith, for, past_end begin_id end_id h'' e))
                  ],
                )
          ]
        ]

module _ (disk_size block_size basic_offset : ℕ) (some_bytes : 0 < block_size)
    (even : disk_size % block_size ≡ 0)
    (addressed : basic_offset + disk_size + block_size < 2 ^ 64) where
  abbrev formatted : DiskAgent
  formatted = record {
    disk_size = disk_size;
    block_size = block_size;
    block_num = disk_size / block_size;
    basic_offset = basic_offset;
    requests = [];
  }

  create-formatted : create disk_size block_size basic_offset ≡ some (ok formatted)
  unfolding create
  create-formatted =
      let some_size : (block_size == 0) ≡ false = ground (arith, some_bytes) in
      let multiple : (disk_size % block_size == 0) ≡ true = ground (arith, even) in
      rw (some_size, multiple)

  formatted-IsFormatted : IsFormatted formatted
  formatted-IsFormatted = record {
    whole = omega (arith, div-add-mod' disk_size block_size, even);
    some_bytes = some_bytes;
    addressed = addressed;
  }

-- On a part of the disk that is some blocks, and that ends a block before 2^64, the constructor returns an
-- agent, and a method of it either changes nothing and fails, or requests bytes from the block that it is
-- called with on, as many as its blocks have, cut to 32 bits. A read of one block always requests bytes of
-- the part. A write does if its place is below the number of blocks, and a read of a range if its end is; at
-- that number the write begins after the part, and the blocks of the read end a block after the part.
pub requests-IsInside :
    (disk_size block_size basic_offset : ℕ) (answers : Answers) (completed : Bool)
    → 0 < block_size
    → disk_size % block_size ≡ 0
    → basic_offset + disk_size + block_size < 2 ^ 64
    → (a : DiskAgent) × (create disk_size block_size basic_offset ≡ some (ok a))
      × ((buffer block_id write_pos : ℕ)
          → Requested a write_pos 1 answers.submitted
              (async_write a answers buffer block_id write_pos)
              (λ r.
                ((write_pos < a.block_num) × IsInside a r)
                ⊎ ((write_pos ≡ a.block_num) × (r.offset ≡ basic_offset + disk_size))))
      × ((buffer id : ℕ)
          → Requested a id 1
              (answers.submitted && completed)
              (read a answers completed buffer id)
              (IsInside a))
      × ((buffer begin_id end_id : ℕ)
          → Requested a begin_id
              (end_id - begin_id + 1)
              (answers.submitted && completed)
              (read_range a answers completed buffer begin_id end_id)
              (λ r.
                ((end_id < a.block_num) × IsInside a r)
                ⊎ ((end_id ≡ a.block_num)
                    × (r.offset + (end_id - begin_id + 1) * block_size
                        ≡ basic_offset + disk_size + block_size))))
requests-IsInside disk_size block_size basic_offset answers completed some_bytes even addressed =
    let a = formatted disk_size block_size basic_offset some_bytes even addressed in
    let f = formatted-IsFormatted disk_size block_size basic_offset some_bytes even addressed in
    (
      a,
      create-formatted disk_size block_size basic_offset some_bytes even addressed,
      async_write-Requested a f answers,
      read-Requested a f answers completed,
      read_range-Requested a f answers completed,
    )
