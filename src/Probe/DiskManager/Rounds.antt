-- ===== src/Probe/DiskManager/Rounds.antt =====
-- What a round of a disk thread does with the block that is its turn.
use native.Mathlib.Nat.{mod-eq_of_lt}
use di_traffic_database.Common.{
  ◌-◌, ◌≢◌, ap₂, ltb, ℕ, ◌+◌, ◌*◌, ◌%◌, ◌^◌, ◌≤◌, ◌<◌, Bool, true, false, ◌==◌, some, ◌∷◌, max64,
  ◌≡◌, refl, ◌∙◌, arith, Bool-cases, ap, subst, ◌⊎◌, inl, inr,
}
use di_traffic_database.Probe.DataBlocks.{BlockBuffer}
use di_traffic_database.Probe.DataBlocks.Arrays.{stored}
use di_traffic_database.Probe.DataBlocks.Checks.{DataBlock}
use di_traffic_database.Probe.DataBlocks.Counts.{taken, described, get_block_run}
use di_traffic_database.Probe.DataBlocks.Recycled.{
  turned, turned-IsSized, turned-HasThreads, recycle_block_run,
}
use di_traffic_database.Probe.DataBlocks.Steps.{IsSized, HasThreads, mod-lt}
use di_traffic_database.Probe.DataBlocks.Taking.{check_block-lag}
use di_traffic_database.Probe.DataBlocks.Windows.{lag, behind, mod_once}
use di_traffic_database.Probe.DiskAgent.{DiskAgent, Answers, async_write}
use di_traffic_database.Probe.DiskManager.{
  DiskManager, with_agent, add_block, entry_of, take_block, data_round,
}

-- The agent for a block.
abbrev pub agent_of : DiskManager → ℕ → ℕ
agent_of m block_id = block_id % m.agent_count % 2 ^ 32

-- The call of the agent that writes the block of the ring to the place on the disk.
abbrev pub written : DiskManager → BlockBuffer → Answers → ℕ → DiskAgent × Bool
written m b answers place =
    async_write (m.agents (agent_of m (place % b.total_block_num))) answers
      (place % b.total_block_num * b.block_size) (place % b.total_block_num)
      (place % b.disk_block_num)

-- The block keeps its place while it is written, and gets the next one if it is not.
abbrev pub AddedBlock : DiskManager → BlockBuffer → Answers → ℕ → DiskManager → BlockBuffer → Type 0
AddedBlock m b answers place m' b' =
    (m'.agents (agent_of m (place % b.total_block_num)) ≡ (written m b answers place).0)
    × ((((written m b answers place).1 ≡ true) × (b'.block_disk_id ≡ b.block_disk_id))
        ⊎ (((written m b answers place).1 ≡ false)
            × (b'.block_disk_id
                ≡ stored b.block_disk_id (place % b.total_block_num)
                    ((place + b.total_block_num) % b.disk_block_num))))

module _ (m : DiskManager) (b : BlockBuffer) (answers : Answers) (place : ℕ) (s : IsSized b)
    (t : HasThreads b) (some_agent : 0 < m.agent_count)
    (held : b.block_disk_id.at (place % b.total_block_num) ≡ place % b.disk_block_num) where
  add_block-Added :
      (block : DataBlock)
      → block.block_id ≡ place % b.total_block_num
      → block.write_pos ≡ place % b.disk_block_num
      → block.buffer ≡ place % b.total_block_num * b.block_size
      → (m' : DiskManager) × (b' : BlockBuffer) × (add_block m b answers block ≡ some (m', b'))
        × IsSized b'
        × HasThreads b'
        × (b'.memory ≡ b.memory)
        × (b'.block_check_ids ≡ b.block_check_ids)
        × AddedBlock m b answers place m' b'
  unfolding add_block
  add_block-Added block e p q =
      let i = agent_of m (place % b.total_block_num) in
      let (a, done) = written m b answers place in
      let counted : (m.agent_count == 0) ≡ false = ground (arith, some_agent) in
      let here : (i == i) ≡ true = ground arith in
      elim (Bool-cases done) [
        | inl good ↦ (
          with_agent m i a,
          b,
          rw (counted, e, p, q, good),
          s,
          t,
          refl,
          refl,
          (rw here, inl (good, refl)),
        )
        | inr bad ↦ (
          with_agent m i a,
          turned b place,
          rw (counted, e, p, q, bad, recycle_block_run b place s t held),
          turned-IsSized b place s t,
          turned-HasThreads b place s t,
          refl,
          refl,
          (rw here, inr (bad, refl)),
        )
      ]

behind_held :
    (disk held delay : ℕ)
    → held < disk
    → delay < disk
    → behind disk ((held + delay) % disk) held ≡ delay
behind_held disk held delay h d = elim (Bool-cases (ltb (held + delay) disk)) [
  | inl low ↦
      let small : held + delay < disk = ground (arith, low) in
      ap (λ r. behind disk r held) (mod-eq_of_lt {n = held + delay} {m = disk} small)
      ∙ mod_once (held + delay + disk - held) disk (omega arith) (omega (arith, d))
      ∙ omega arith
  | inr high ↦
      let large : disk ≤ held + delay = ground (arith, high) in
      ap (λ r. behind disk r held) (mod_once (held + delay) disk large (omega (arith, h, d)))
      ∙ ap (λ n. n % disk) {x = held + delay - disk + disk - held} {y = delay}
          (omega (arith, large))
      ∙ mod-eq_of_lt {n = delay} {m = disk} d
]

-- The capture thread is more than twice the ring behind the barrier; so it does not write at the place,
-- unless the barrier is more than twice the ring after the place.
abbrev pub HasLeft : BlockBuffer → ℕ → ℕ → Type 0
HasLeft b place j =
    (b.total_block_num * 2 < lag b (place % b.total_block_num) j)
    × ((b.disk_write_ids.at j ≢ place % b.disk_block_num)
        ⊎ (b.total_block_num * 2 < b.delayed_block_num))

far-HasLeft :
    (b : BlockBuffer) (place j : ℕ)
    → IsSized b
    → HasThreads b
    → b.block_disk_id.at (place % b.total_block_num) ≡ place % b.disk_block_num
    → b.total_block_num * 2 < lag b (place % b.total_block_num) j
    → HasLeft b place j
far-HasLeft b place j s t held far = (
  far,
  elim (Bool-cases (ltb (b.total_block_num * 2) b.delayed_block_num)) [
    | inl late ↦ inr (ground (arith, late))
    | inr early ↦
        let soon : b.delayed_block_num ≤ b.total_block_num * 2 = ground (arith, early) in
        inl (λ here. absurd (
          omega (
            arith,
            soon,
            far,
            ap₂ (λ x y. behind b.disk_block_num ((x + b.delayed_block_num) % b.disk_block_num) y)
                  held here
                ∙ behind_held b.disk_block_num (place % b.disk_block_num) b.delayed_block_num
                    (mod-lt place b.disk_block_num s.some_disk) (omega (arith, soon, t.short)),
          )))
  ],
)

-- A round of a disk thread runs without a fault, leaves the bytes of the ring and a well-formed buffer. If a
-- capture thread is too near, then it changes nothing. Else every capture thread is more than twice the ring
-- behind the barrier, and does not write at the block's place if the barrier is at most twice the ring after
-- that place. Then the agent for the block that is the thread's turn is called to write its bytes to
-- its place: the block keeps this place if the agent succeeds, and has the place a turn of the ring later if
-- it fails. The buffer is well-formed, the thread is registered, there are some agents and at most 2^62
-- threads, and the ring has the block of the thread for `place`.
pub data_round-Added :
    (m : DiskManager) (b : BlockBuffer) (answers : Answers) (place : ℕ)
    → IsSized b
    → HasThreads b
    → 0 < m.agent_count
    → m.thread_id < b.block_check_ids.size
    → b.block_check_ids.size ≤ 2 ^ 62
    → b.block_check_ids.at m.thread_id ≡ place % b.total_block_num
    → b.block_disk_id.at (place % b.total_block_num) ≡ place % b.disk_block_num
    → (m' : DiskManager) × (b' : BlockBuffer) × (data_round m b answers ≡ some (m', b'))
      × IsSized b'
      × HasThreads b'
      × (b'.memory ≡ b.memory)
      × (((m' ≡ m)
            × (b' ≡ b)
            × ((j : ℕ) × (j < b.rss_num)
                × (lag b (place % b.total_block_num) j ≤ b.total_block_num * 2)))
          ⊎ (((j : ℕ) → j < b.rss_num → HasLeft b place j) × AddedBlock m b answers place m' b'))
unfolding data_round take_block
data_round-Added m b answers place s t some_agent checks few mine held =
    elim (check_block-lag b m.thread_id s t checks) [
      | inr (run, (j, below, near)) ↦ (
        m,
        b,
        rw run,
        s,
        t,
        refl,
        inl (refl, refl, (j, below, subst (λ k. lag b k j ≤ b.total_block_num * 2) mine near)),
      )
      | inl (run, far) ↦
          let inside = t.checking m.thread_id checks in
          let proper : (b.block_check_ids.at m.thread_id == max64) ≡ false =
            ground (arith, inside, t.short, t.disk_small) in
          let (counts, got, s', t', zeroed, kept) = get_block_run b m.thread_id s t checks few in
          let block = described b m.thread_id in
          let (m', b', added, s'', t'', same, ids, outcome) =
            add_block-Added (record m { entries = entry_of block ∷ m.entries })
              (taken b m.thread_id counts) answers place s' t' some_agent held block mine
              (ap b.block_disk_id.at mine ∙ held) (ap (λ n. n * b.block_size) mine) in
          (
            m',
            b',
            rw (run, proper, got, added),
            s'',
            t'',
            same,
            inr (
              (λ j below.
                  far-HasLeft b place j s t held
                    (subst (λ k. b.total_block_num * 2 < lag b k j) mine (far j below))),
              outcome,
            ),
          )
    ]
