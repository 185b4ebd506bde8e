-- ===== src/PipeRing/Slots.antt =====
-- `real_pos` of pipeRing.hpp is a bijection on the positions of a ring of capacity 8 * 2 ^ k.
use native.Mathlib.Nat.{one-le-pow, pow-le-pow_right, div-lt_iff_lt-mul, div-add-mod, mod-lt}
use di_traffic_database.Common.{ℕ, sub64, ◌+◌, ◌-◌, ◌*◌, ◌/◌, ◌%◌, ◌^◌, ◌≤◌, ◌<◌, ◌≡◌, ap, arith}
use di_traffic_database.Common.Bits.{bit_and-mask, pow-add}
use di_traffic_database.PipeRing.{slot, masked}

-- The capacities that a ring can use: powers of two from 8 up to 2 ^ 63.
pub record IsCapacity (capacity k : ℕ) : Type 0 where
  pub small : k ≤ 60
  pub eight_times : capacity ≡ 8 * 2 ^ k

slot_bound : (m pos : ℕ) → pos < 8 * m → 0 < m → pos % m * 8 + pos / m < 8 * m
slot_bound m pos h p =
    omega (arith, (div-lt_iff_lt-mul {x = pos} {y = 8} p).1 (omega arith), mod-lt pos p)

stride_injective :
    (m i j : ℕ) → 0 < m → i < 8 * m → j < 8 * m → i % m * 8 + i / m ≡ j % m * 8 + j / m → i ≡ j
stride_injective m i j p hi hj e =
    let above_i : i / m < 8 = (div-lt_iff_lt-mul {x = i} {y = 8} p).1 (omega arith) in
    let above_j : j / m < 8 = (div-lt_iff_lt-mul {x = j} {y = 8} p).1 (omega arith) in
    let same_row : i / m ≡ j / m = omega arith in
    let same_column : i % m ≡ j % m = omega arith in
    omega (arith, div-add-mod i m, div-add-mod j m, ap (λ (t : ℕ). m * t) same_row)

pow-bound : (k : ℕ) → k ≤ 60 → 2 ^ k ≤ 2 ^ 60
pow-bound k h = pow-le-pow_right (omega arith) h

pub capacity_bounds :
    {capacity k : ℕ} → IsCapacity capacity k → (8 ≤ capacity) × (capacity ≤ 2 ^ 63)
capacity_bounds {k = k} c = omega (arith, one-le-pow k 2, pow-bound k)

pub eight_times_pow : (k : ℕ) → 2 ^ (3 + k) ≡ 8 * 2 ^ k
eight_times_pow k = pow-add 2 3 k

pub masked_lem :
    {capacity k : ℕ} (pos : ℕ) → IsCapacity capacity k → masked capacity pos ≡ pos % capacity
masked_lem {capacity} {k} pos c =
    let mask : sub64 capacity 1 ≡ 2 ^ (3 + k) - 1 =
      omega (arith, capacity_bounds c, eight_times_pow k, c.eight_times) in
    rw (mask, bit_and-mask (3 + k) pos, eight_times_pow k, c.eight_times)

slot_lem :
    {capacity k : ℕ} (pos : ℕ)
    → IsCapacity capacity k
    → pos < capacity
    → slot capacity pos ≡ pos % 2 ^ k * 8 + pos / 2 ^ k
unfolding slot
slot_lem {capacity} {k} pos c h =
    let eighth : capacity / 8 ≡ 2 ^ k = omega (arith, c.eight_times) in
    let mask : sub64 (2 ^ k) 1 ≡ 2 ^ k - 1 = omega (arith, one-le-pow k 2, pow-bound k c.small) in
    rw (eighth, mask, bit_and-mask k pos)
      (omega (
        arith,
        one-le-pow k 2,
        pow-bound k c.small,
        slot_bound (2 ^ k) pos (omega (arith, c.eight_times)) (one-le-pow k 2 (omega arith)),
      ))

-- `real_pos` stays inside the array.
pub slot-lt :
    {capacity k : ℕ} (pos : ℕ)
    → IsCapacity capacity k
    → pos < capacity
    → slot capacity pos < capacity
slot-lt {capacity} {k} pos c h = omega (
  arith,
  slot_lem pos c h,
  c.eight_times,
  slot_bound (2 ^ k) pos (omega (arith, c.eight_times)) (one-le-pow k 2 (omega arith)),
)

-- The position is read back from the slot, so no two positions share one.
pub slot-injective :
    {capacity k : ℕ} (i j : ℕ)
    → IsCapacity capacity k
    → i < capacity
    → j < capacity
    → slot capacity i ≡ slot capacity j
    → i ≡ j
slot-injective {capacity} {k} i j c hi hj e =
    stride_injective (2 ^ k) i j (one-le-pow k 2 (omega arith)) (omega (arith, c.eight_times))
      (omega (arith, c.eight_times)) (omega (arith, slot_lem i c hi, slot_lem j c hj))
