-- ===== src/Probe/DataBlocks/Taking.antt =====
-- What the disk threads take and give back: the checks over all capture threads, the packets of a block, and
-- the place of a block on the disk.
use di_traffic_database.Common.{
  ℕ, zero, suc, ◌+◌, ◌*◌, ◌≤◌, ◌<◌, ◌||◌, ltb, ◌==◌, some, ◌≡◌, refl, arith, Bool-cases, subst,
  max64, ◌⊎◌, inl, inr,
}
use di_traffic_database.Probe.DataBlocks.Arrays.{read-at}
use di_traffic_database.Probe.DataBlocks.{BlockBuffer}
use di_traffic_database.Probe.DataBlocks.Checks.{
  check_each, check_block, direct_check_each, direct_get_block_id,
}
use di_traffic_database.Probe.DataBlocks.Steps.{IsSized, HasThreads}
use di_traffic_database.Probe.DataBlocks.Windows.{
  lag, direct_lag, check_rss-lag, direct_check_rss-lag,
}

module _ (b : BlockBuffer) (s : IsSized b) (t : HasThreads b) where
  module _ (block : ℕ) (inside : block < b.total_block_num) where
    check_each-lags :
        (i n : ℕ)
        → i + n ≤ b.disk_write_ids.size
        → ((check_each b block i n ≡ some block)
            × ((j : ℕ) → i ≤ j → j < i + n → b.total_block_num * 2 < lag b block j))
          ⊎ ((check_each b block i n ≡ some max64)
              × ((j : ℕ) × (i ≤ j) × (j < i + n) × (lag b block j ≤ b.total_block_num * 2)))
    unfolding check_each
    check_each-lags i zero h = inl (refl, λ j low high. absurd (omega arith))
    check_each-lags i (suc n) h =
        let this = check_rss-lag b s t block i inside (omega arith) in
        elim (Bool-cases (ltb (b.total_block_num * 2) (lag b block i))) [
          | inr near ↦ inr (rw (this, near), (i, omega arith, omega arith, ground (arith, near)))
          | inl far ↦ elim (check_each-lags (i + 1) n (omega arith)) [
            | inl (run, all) ↦ inl (
              rw (this, far, run),
              λ j low high. elim (Bool-cases (j == i)) [
                | inl here ↦
                    let e : i ≡ j = ground (arith, here) in
                    subst (λ k. b.total_block_num * 2 < lag b block k) e (ground (arith, far))
                | inr later ↦ all j (ground arith) (omega arith)
              ],
            )
            | inr (run, (j, low, high, near)) ↦
                inr (rw (this, far, run), (j, omega arith, omega arith, near))
          ]
        ]

    direct_check_each-lags :
        (i n : ℕ)
        → i + n ≤ b.disk_write_ids.size
        → ((direct_check_each b block i n ≡ some block)
            × ((j : ℕ) × (i ≤ j)
                × (j < i + n)
                × ((direct_lag b block j ≡ 0) ⊎ (b.total_block_num * 2 < direct_lag b block j))))
          ⊎ ((direct_check_each b block i n ≡ some max64)
              × ((j : ℕ)
                  → i ≤ j
                  → j < i + n
                  → (0 < direct_lag b block j) × (direct_lag b block j ≤ b.total_block_num * 2)))
    unfolding direct_check_each
    direct_check_each-lags i zero h = inr (refl, λ j low high. absurd (omega arith))
    direct_check_each-lags i (suc n) h =
        let d = direct_lag b block i in
        let this = direct_check_rss-lag b s t block i inside (omega arith) in
        elim (Bool-cases (d == 0 || ltb (b.total_block_num * 2) d)) [
          | inl out ↦ inl (rw (this, out), (i, omega arith, omega arith, ground (arith, out)))
          | inr within ↦ elim (direct_check_each-lags (i + 1) n (omega arith)) [
            | inl (run, (j, low, high, out)) ↦
                inl (rw (this, within, run), (j, omega arith, omega arith, out))
            | inr (run, all) ↦ inr (
              rw (this, within, run),
              λ j low high. elim (Bool-cases (j == i)) [
                | inl here ↦
                    let e : i ≡ j = ground (arith, here) in
                    subst
                      (λ k.
                        (0 < direct_lag b block k) × (direct_lag b block k ≤ b.total_block_num * 2))
                      e (ground (arith, within))
                | inr later ↦ all j (ground arith) (omega arith)
              ],
            )
          ]
        ]

  module _ (thread_id : ℕ) (checks : thread_id < b.block_check_ids.size) where
    abbrev own : ℕ
    own = b.block_check_ids.at thread_id

    check_block-lags_lem :
        ((check_block b thread_id ≡ some own)
          × ((j : ℕ) → j < b.rss_num → b.total_block_num * 2 < lag b own j))
        ⊎ ((check_block b thread_id ≡ some max64)
            × ((j : ℕ) × (j < b.rss_num) × (lag b own j ≤ b.total_block_num * 2)))
    unfolding check_block
    check_block-lags_lem =
        let here = read-at b.block_check_ids thread_id checks in
        elim (check_each-lags own (t.checking thread_id checks) 0 b.rss_num
          (omega (arith, t.all_writers))) [
            | inl (run, all) ↦ inl (rw (here, run), λ j high. all j (omega arith) (omega arith))
            | inr (run, (j, low, high, near)) ↦ inr (rw (here, run), (j, omega arith, near))
          ]

    direct_get_block_id-lags_lem :
        ((direct_get_block_id b thread_id ≡ some own)
          × ((j : ℕ) × (j < b.rss_num)
              × ((direct_lag b own j ≡ 0) ⊎ (b.total_block_num * 2 < direct_lag b own j))))
        ⊎ ((direct_get_block_id b thread_id ≡ some max64)
            × ((j : ℕ)
                → j < b.rss_num
                → (0 < direct_lag b own j) × (direct_lag b own j ≤ b.total_block_num * 2)))
    unfolding direct_get_block_id
    direct_get_block_id-lags_lem =
        let here = read-at b.block_check_ids thread_id checks in
        elim (direct_check_each-lags own (t.checking thread_id checks) 0 b.rss_num
          (omega (arith, t.all_writers))) [
            | inl (run, (j, low, high, out)) ↦ inl (rw (here, run), (j, omega arith, out))
            | inr (run, all) ↦ inr (rw (here, run), λ j high. all j (omega arith) (omega arith))
          ]

-- A disk thread gets its block just if every capture thread is more than twice the ring behind the barrier on
-- the disk, which is circular; if one of them is nearer, then it gets the largest number. The buffer is
-- well-formed and the disk thread is registered.
pub check_block-lag :
    (b : BlockBuffer) (thread_id : ℕ)
    → IsSized b
    → HasThreads b
    → thread_id < b.block_check_ids.size
    → ((check_block b thread_id ≡ some (b.block_check_ids.at thread_id))
        × ((j : ℕ)
            → j < b.rss_num
            → b.total_block_num * 2 < lag b (b.block_check_ids.at thread_id) j))
      ⊎ ((check_block b thread_id ≡ some max64)
          × ((j : ℕ) × (j < b.rss_num)
              × (lag b (b.block_check_ids.at thread_id) j ≤ b.total_block_num * 2)))
check_block-lag b thread_id s t checks = check_block-lags_lem b s t thread_id checks

-- Without a delay, a disk thread gets its block just if some capture thread is at its place on the disk, or
-- more than twice the ring behind it; if all are less behind, then it gets the largest number. The buffer is
-- well-formed and the disk thread is registered.
pub direct_get_block_id-lag :
    (b : BlockBuffer) (thread_id : ℕ)
    → IsSized b
    → HasThreads b
    → thread_id < b.block_check_ids.size
    → ((direct_get_block_id b thread_id ≡ some (b.block_check_ids.at thread_id))
        × ((j : ℕ) × (j < b.rss_num)
            × ((direct_lag b (b.block_check_ids.at thread_id) j ≡ 0)
                ⊎ (b.total_block_num * 2 < direct_lag b (b.block_check_ids.at thread_id) j))))
      ⊎ ((direct_get_block_id b thread_id ≡ some max64)
          × ((j : ℕ)
              → j < b.rss_num
              → (0 < direct_lag b (b.block_check_ids.at thread_id) j)
                × (direct_lag b (b.block_check_ids.at thread_id) j ≤ b.total_block_num * 2)))
direct_get_block_id-lag b thread_id s t checks = direct_get_block_id-lags_lem b s t thread_id checks
