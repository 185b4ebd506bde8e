-- ===== src/Probe/DataBlocks/Windows.antt =====
-- The checks of the disk threads, by how far a capture thread is behind the barrier on the circular disk.
use native.Mathlib.Nat.{mod-eq_of_lt, mod-eq-sub-mod}
use di_traffic_database.Common.{
  ℕ, ◌+◌, ◌-◌, ◌*◌, ◌%◌, ◌≤◌, ◌<◌, false, ◌||◌, ltb, leb, ◌==◌, some, ◌≡◌, ◌∙◌, arith, Bool-cases,
  u64, add64, sub64, ap, ◌⊎◌, inl, inr,
}
use di_traffic_database.Probe.DataBlocks.Arrays.{read, read-at}
use di_traffic_database.Probe.DataBlocks.{BlockBuffer}
use di_traffic_database.Probe.DataBlocks.Checks.{
  outside, outside_or_last, left_barrier, check_rss, direct_check_rss,
}
use di_traffic_database.Probe.DataBlocks.Steps.{IsSized, HasThreads, mod-lt}

-- How many places `right` is ahead of `place` on a disk of `disk` blocks.
abbrev pub behind : ℕ → ℕ → ℕ → ℕ
behind disk right place = (right + disk - place) % disk

pub mod_once : (n d : ℕ) → d ≤ n → n < d + d → n % d ≡ n - d
mod_once n d h k = mod-eq-sub-mod h ∙ mod-eq_of_lt {n = n - d} {m = d} (omega arith)

behind_cases :
    (disk right place : ℕ)
    → right < disk
    → place < disk
    → ((place ≤ right) × (behind disk right place ≡ right - place))
      ⊎ ((right < place) × (behind disk right place ≡ right + disk - place))
behind_cases disk right place r p = elim (Bool-cases (leb place right)) [
  | inl h ↦
      let le : place ≤ right = ground arith in
      inl (le, mod_once (right + disk - place) disk (omega arith) (omega arith) ∙ omega arith)
  | inr h ↦
      let lt : right < place = ground arith in
      inr (lt, mod-eq_of_lt {n = right + disk - place} {m = disk} (omega arith))
]

module _ (disk barrier right write_id : ℕ) (some_barrier : 0 < barrier) (short : barrier < disk)
    (r : right < disk) (w : write_id < disk) where
  outside-behind :
      outside (behind disk right barrier) right write_id ≡ ltb barrier (behind disk right write_id)
  unfolding outside
  outside-behind = elim (behind_cases disk right barrier r short) [
    | inl (h, e) ↦ elim (behind_cases disk right write_id r w) [
      | inl (h', e') ↦ ground arith
      | inr (h', e') ↦ ground arith
    ]
    | inr (h, e) ↦ elim (behind_cases disk right write_id r w) [
      | inl (h', e') ↦ ground arith
      | inr (h', e') ↦ ground arith
    ]
  ]

  outside_or_last-behind :
      outside_or_last (behind disk right barrier) right write_id
      ≡ behind disk right write_id == 0 || ltb barrier (behind disk right write_id)
  unfolding outside_or_last
  outside_or_last-behind = elim (behind_cases disk right barrier r short) [
    | inl (h, e) ↦ elim (behind_cases disk right write_id r w) [
      | inl (h', e') ↦ ground arith
      | inr (h', e') ↦ ground arith
    ]
    | inr (h, e) ↦ elim (behind_cases disk right write_id r w) [
      | inl (h', e') ↦ ground arith
      | inr (h', e') ↦ ground arith
    ]
  ]

-- How many blocks of the disk the thread is behind the barrier of the block.
abbrev pub lag : BlockBuffer → ℕ → ℕ → ℕ
lag b block rss_id =
    behind b.disk_block_num ((b.block_disk_id.at block + b.delayed_block_num) % b.disk_block_num)
      (b.disk_write_ids.at rss_id)

-- The same of the block itself.
abbrev pub direct_lag : BlockBuffer → ℕ → ℕ → ℕ
direct_lag b block rss_id =
    behind b.disk_block_num (b.block_disk_id.at block) (b.disk_write_ids.at rss_id)

module _ (b : BlockBuffer) (s : IsSized b) (t : HasThreads b) where
  left_barrier-behind :
      (right : ℕ)
      → right < b.disk_block_num
      → left_barrier b right ≡ behind b.disk_block_num right (b.total_block_num * 2)
  unfolding left_barrier
  left_barrier-behind right r =
      ap (λ n. n % b.disk_block_num)
        {x = sub64 (add64 right b.disk_block_num) (u64 (b.total_block_num * 2))}
        {y = right + b.disk_block_num - b.total_block_num * 2}
        (omega (arith, t.short, t.disk_small))

  some_disk : (b.disk_block_num == 0) ≡ false
  some_disk = ground (arith, s.some_disk)

  module _ (block rss_id : ℕ) (inside : block < b.total_block_num)
      (registered : rss_id < b.disk_write_ids.size) where
    both_read :
        (read b.disk_write_ids rss_id ≡ some (b.disk_write_ids.at rss_id))
        × (read b.block_disk_id block ≡ some (b.block_disk_id.at block))
    both_read = (
      read-at b.disk_write_ids rss_id registered,
      read-at b.block_disk_id block (omega (arith, s.disk_ids, inside)),
    )

    pub check_rss-lag :
        check_rss b block rss_id ≡ some (ltb (b.total_block_num * 2) (lag b block rss_id))
    unfolding check_rss
    check_rss-lag =
        let held = b.block_disk_id.at block in
        let right = (held + b.delayed_block_num) % b.disk_block_num in
        let r : right < b.disk_block_num =
          mod-lt (held + b.delayed_block_num) b.disk_block_num s.some_disk in
        let (writer, reader) = both_read in
        let same : add64 held b.delayed_block_num % b.disk_block_num ≡ right =
          ap (λ n. n % b.disk_block_num) {x = add64 held b.delayed_block_num}
            {y = held + b.delayed_block_num}
            (omega (arith, t.holding block inside, t.disk_small, t.delayed_small)) in
        rw (
          some_disk,
          writer,
          reader,
          same,
          left_barrier-behind right r,
          outside-behind b.disk_block_num (b.total_block_num * 2) right (b.disk_write_ids.at rss_id)
              (omega (arith, s.some_blocks)) t.short r (t.writing rss_id registered),
        )

    pub direct_check_rss-lag :
        direct_check_rss b block rss_id
        ≡ some (
            direct_lag b block rss_id == 0
            || ltb (b.total_block_num * 2) (direct_lag b block rss_id))
    unfolding direct_check_rss
    direct_check_rss-lag =
        let right = b.block_disk_id.at block in
        let (writer, reader) = both_read in
        rw (
          some_disk,
          writer,
          reader,
          mod-eq_of_lt {n = right} {m = b.disk_block_num} (t.holding block inside),
          left_barrier-behind right (t.holding block inside),
          outside_or_last-behind b.disk_block_num (b.total_block_num * 2) right
              (b.disk_write_ids.at rss_id) (omega (arith, s.some_blocks)) t.short
              (t.holding block inside) (t.writing rss_id registered),
        )
