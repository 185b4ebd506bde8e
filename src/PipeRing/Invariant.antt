-- ===== src/PipeRing/Invariant.antt =====
-- The representation invariant of a ring, kept by both calls.
use native.Mathlib.Nat.{mod-lt}
use di_traffic_database.Common.{ℕ, ◌^◌, ◌<◌, Option, ◌≡◌, arith, sub64, length, length-set}
use di_traffic_database.PipeRing.{PipeRing, done, put, get, slot, masked}
use di_traffic_database.PipeRing.Slots.{IsCapacity, capacity_bounds, masked_lem, slot-lt}

-- How many pointers are in the ring, whatever turn the two counters are in.
abbrev pub count {ℓ} : {A : Type ℓ} → PipeRing A → ℕ
count r = sub64 r.write_pos r.read_pos

pub record IsValid {ℓ} {A : Type ℓ} (k : ℕ) (r : PipeRing A) : Type ℓ where
  pub usable : IsCapacity r.capacity k
  pub allocated : length r.pointers ≡ r.capacity
  pub write_word : r.write_pos < 2 ^ 64
  pub read_word : r.read_pos < 2 ^ 64
  pub room : count r < r.capacity

module _ {ℓ} {A : Type ℓ} {k : ℕ} {r : PipeRing A} (v : IsValid k r) where
  -- In a valid ring, the slot of every position is inside the array.
  pub access_in_bounds : (pos : ℕ) → slot r.capacity (masked r.capacity pos) < length r.pointers
  access_in_bounds pos = omega (
    arith,
    v.allocated,
    masked_lem pos v.usable,
    slot-lt (masked r.capacity pos) v.usable (
        omega (
          arith,
          masked_lem pos v.usable,
          capacity_bounds v.usable,
          mod-lt pos {m = r.capacity} (omega (arith, capacity_bounds v.usable)),
        )),
  )

  pub put-IsValid : (p : Option A) {r' : PipeRing A} → put r p ≡ done r' → IsValid k r'
  unfolding put
  put-IsValid p e = ground (
    arith,
    capacity_bounds v.usable,
    length-set r.pointers (slot r.capacity (masked r.capacity r.write_pos)) p,
  )

  pub get-IsValid : {p : Option A} {r' : PipeRing A} → get r ≡ done (p, r') → IsValid k r'
  unfolding get
  get-IsValid e = ground (arith, capacity_bounds v.usable)
