-- ===== src/Probe/DataBlocks/Counts.antt =====
-- The block that a disk thread takes, with the sum of its counters.
use native.Mathlib.Nat.{mod-eq_of_lt, add-mul-mod_self_left}
use di_traffic_database.Common.{
  ℕ, zero, suc, ◌+◌, ◌*◌, ◌%◌, ◌^◌, ◌≤◌, ◌<◌, false, ◌==◌, some, ◌≡◌, ◌≢◌, refl, ◌∙◌, arith,
  Bool-cases, subst, u64, add64, ap, sym, inl, inr,
}
use di_traffic_database.Probe.DataBlocks.Arrays.{Array, read-at, write-stored, stored}
use di_traffic_database.Probe.DataBlocks.{BlockBuffer}
use di_traffic_database.Probe.DataBlocks.Checks.{DataBlock, sum_counts, reset_counts, get_block}
use di_traffic_database.Probe.DataBlocks.Steps.{IsSized, HasThreads, mod-lt}

-- The sum of the `n` numbers from `i` on.
abbrev pub total_from : (ℕ → ℕ) → ℕ → ℕ → ℕ
total_from f i zero = 0
total_from f i (suc n) = f i + total_from f (i + 1) n

climbs : (t i j : ℕ) → 0 < t → i + 1 ≤ j → t * i ≢ t * j
climbs t i j positive later same = absurd (grind arith)

elsewhere : (a : Array) (k i : ℕ) → k ≢ i → (stored a i 0).at k ≡ a.at k
elsewhere a k i apart = let other : (k == i) ≡ false = ground (arith, apart) in rw other

-- The counter of a block that belongs to the thread.
abbrev pub counter : BlockBuffer → ℕ → ℕ → ℕ
counter b block j = b.packet_counts.at (block + b.total_block_num * j)

other_block :
    (total block other i j : ℕ)
    → block < total
    → other < total
    → other ≢ block
    → block + total * i ≢ other + total * j
other_block total block other i j h k apart same = apart (
    sym (mod-eq_of_lt {n = other} {m = total} k)
    ∙ sym (add-mul-mod_self_left other total j)
    ∙ ap (λ n. n % total) (sym same)
    ∙ add-mul-mod_self_left block total i
    ∙ mod-eq_of_lt {n = block} {m = total} h)

module _ (b : BlockBuffer) (s : IsSized b) (block : ℕ) (inside : block < b.total_block_num) where
  counter-below : (i : ℕ) → i < b.rss_num → block + b.total_block_num * i < b.packet_counts.size
  counter-below i h =
      subst (λ n. block + b.total_block_num * i < n) (sym s.counts)
        (nested b.total_block_num b.rss_num inside h)
    where
      nested : (t r : ℕ) → block < t → i < r → block + t * i < t * r
      nested t r h k = grind arith

  sum_counts-total :
      (i n sum : ℕ)
      → i + n ≤ b.rss_num
      → sum < 2 ^ 64
      → sum_counts b block i n sum ≡ some (u64 (sum + total_from (counter b block) i n))
  unfolding sum_counts
  sum_counts-total i zero sum h small = ap some {x = sum} {y = u64 (sum + 0)} (omega arith)
  sum_counts-total i (suc n) sum h small =
      let c = counter b block i in
      let rest = total_from (counter b block) (i + 1) n in
      rw (read-at b.packet_counts (block + b.total_block_num * i) (counter-below i (omega arith))) (
        sum_counts-total (i + 1) n (add64 sum c) (omega arith) (omega arith)
        ∙ ap some {x = u64 (add64 sum c + rest)} {y = u64 (sum + (c + rest))} (omega arith))

  -- The counters of the threads are 0, those of the other blocks are as before.
  abbrev Reset : Array → ℕ → ℕ → Array → Type 0
  Reset counts i n counts' =
      (counts'.size ≡ counts.size)
      × ((j : ℕ) → i ≤ j → j < i + n → counts'.at (block + b.total_block_num * j) ≡ 0)
      × ((k : ℕ)
          → ((j : ℕ) → i ≤ j → j < i + n → k ≢ block + b.total_block_num * j)
          → counts'.at k ≡ counts.at k)

  reset_counts-Reset :
      (counts : Array) (i n : ℕ)
      → i + n ≤ b.rss_num
      → counts.size ≡ b.packet_counts.size
      → (counts' : Array) × (reset_counts counts b.total_block_num block i n ≡ some counts')
        × Reset counts i n counts'
  unfolding reset_counts
  reset_counts-Reset counts i zero h same =
      (counts, refl, (refl, (λ j low high. absurd (omega arith)), λ k apart. refl))
  reset_counts-Reset counts i (suc n) h same =
      let here = block + b.total_block_num * i in
      let below : here < counts.size = omega (arith, same, counter-below i (omega arith)) in
      let (counts', run, (sized, zeroed, kept)) =
        reset_counts-Reset (stored counts here 0) (i + 1) n (omega arith) same in
      (
        counts',
        rw (write-stored counts here 0 below, run),
        (
          sized,
          (λ j low high. elim (Bool-cases (j == i)) [
            | inl first ↦
                let e : i ≡ j = ground (arith, first) in
                subst (λ k. counts'.at (block + b.total_block_num * k) ≡ 0) e
                  (kept here (λ j' low' high' same'.
                      climbs b.total_block_num i j' s.some_blocks low' (omega arith))
                    ∙ ground arith)
            | inr later ↦ zeroed j (ground arith) (omega arith)
          ]),
          λ k apart.
              kept k (λ j low high. apart j (omega arith) (omega arith))
              ∙ elsewhere counts k here (apart i (omega arith) (omega arith)),
        ),
      )

module _ (b : BlockBuffer) (thread_id : ℕ) where
  abbrev pub own : ℕ
  own = b.block_check_ids.at thread_id

  abbrev pub next : ℕ
  next = (own + b.block_check_ids.size) % b.total_block_num

  abbrev pub taken : Array → BlockBuffer
  taken counts = record b {
    packet_counts = counts;
    block_check_ids = stored b.block_check_ids thread_id next;
  }

  abbrev pub described : DataBlock
  described = record {
    block_id = own;
    write_pos = b.block_disk_id.at own;
    start_time = b.start_times.at own;
    end_time = b.end_times.at own;
    packet_count = u64 (total_from (counter b own) 0 b.rss_num);
    buffer = own * b.block_size;
  }

module _ (b : BlockBuffer) (thread_id : ℕ) (s : IsSized b) (t : HasThreads b)
    (checks : thread_id < b.block_check_ids.size) where
  next-below :
      (i : ℕ)
      → i < b.block_check_ids.size
      → (stored b.block_check_ids thread_id (next b thread_id)).at i < b.total_block_num
  next-below i h = elim (Bool-cases (i == thread_id)) [
    | inl here ↦
        rw here
          (mod-lt ((own b thread_id) + b.block_check_ids.size) b.total_block_num s.some_blocks)
    | inr other ↦ rw other (t.checking i h)
  ]

  taken-IsSized :
      (counts : Array) → counts.size ≡ b.packet_counts.size → IsSized (taken b thread_id counts)
  taken-IsSized counts same = record {
    some_blocks = s.some_blocks;
    some_bytes = s.some_bytes;
    some_disk = s.some_disk;
    some_slice = s.some_slice;
    whole = s.whole;
    disk_ids = s.disk_ids;
    starts = s.starts;
    ends = s.ends;
    counts = same ∙ s.counts;
  }

  taken-HasThreads : (counts : Array) → HasThreads (taken b thread_id counts)
  taken-HasThreads counts = record {
    short = t.short;
    disk_small = t.disk_small;
    delayed_small = t.delayed_small;
    holding = t.holding;
    all_writers = t.all_writers;
    writing = t.writing;
    checking = next-below;
  }

  pub get_block_run :
      (b.block_check_ids.size ≤ 2 ^ 62)
      → (counts : Array) × (get_block b thread_id
          ≡ some (taken b thread_id counts, described b thread_id))
        × IsSized (taken b thread_id counts)
        × HasThreads (taken b thread_id counts)
        × ((j : ℕ) → j < b.rss_num → counter (taken b thread_id counts) (own b thread_id) j ≡ 0)
        × ((other j : ℕ)
            → other < b.total_block_num
            → other ≢ (own b thread_id)
            → counter (taken b thread_id counts) other j ≡ counter b other j)
  unfolding get_block
  get_block_run few =
      let inside = t.checking thread_id checks in
      let (counts, run, (sized, zeroed, kept)) =
        reset_counts-Reset b s (own b thread_id) inside b.packet_counts 0 b.rss_num (omega arith)
          refl in
      let all = total_from (counter b (own b thread_id)) 0 b.rss_num in
      let counted : sum_counts b (own b thread_id) 0 b.rss_num 0 ≡ some (u64 all) =
        sum_counts-total b s (own b thread_id) inside 0 b.rss_num 0 (omega arith) (omega arith)
        ∙ ap (λ n. some (u64 n)) {x = 0 + all} {y = all} (omega arith) in
      let some_blocks : (b.total_block_num == 0) ≡ false = ground (arith, s.some_blocks) in
      let same : add64 (own b thread_id) b.block_check_ids.size % b.total_block_num
          ≡ (next b thread_id) =
        ap (λ n. n % b.total_block_num) {x = add64 (own b thread_id) b.block_check_ids.size}
          {y = (own b thread_id) + b.block_check_ids.size}
          (omega (arith, inside, few, t.short, t.disk_small)) in
      (
        counts,
        rw (
          some_blocks,
          read-at b.block_check_ids thread_id checks,
          read-at b.start_times (own b thread_id) (omega (arith, inside, s.starts)),
          read-at b.end_times (own b thread_id) (omega (arith, inside, s.ends)),
          read-at b.block_disk_id (own b thread_id) (omega (arith, inside, s.disk_ids)),
          counted,
          run,
          same,
          write-stored b.block_check_ids thread_id (next b thread_id) checks,
        ),
        taken-IsSized counts sized,
        taken-HasThreads counts,
        (λ j below. zeroed j (omega arith) (omega arith)),
        λ other j below apart. kept (other + b.total_block_num * j) (λ i low high same.
            other_block b.total_block_num (own b thread_id) other i j inside below apart
              (sym same)),
      )
