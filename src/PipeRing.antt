-- ===== src/PipeRing.antt =====
-- src/lib/pipeRing.hpp, the lock-free ring between two threads. src-old/lib/singleRingBuffer.hpp
-- is the same code with a 32-bit capacity.
pub mod Slots
pub mod Queue
pub mod Invariant
pub mod Refine
pub mod Create
mod Tests
use di_traffic_database.Common.{
  ℕ, zero, suc, ◌%◌, ◌^◌, ltb, ◌-◌, ◌*◌, ◌/◌, ◌+◌, bit_and, Option, none, some, Bool, List, [], ◌∷◌,
  u64, add64, sub64, ◌==◌, if◌then◌else◌, get_or, set, replicate,
}

-- `pointers` holds `void*` values, `none` for `nullptr`. Both positions count without bound, modulo
-- 2 ^ 64.
pub record PipeRing {ℓ} (A : Type ℓ) : Type ℓ where
  pub capacity : ℕ
  pub write_pos : ℕ
  pub read_pos : ℕ
  pub pointers : List (Option A)

-- What one call does: it returns, it spins until the other thread moves, or it divides by zero.
pub data Outcome {ℓ} (A : Type ℓ) : Type ℓ where
  done : A → Outcome A
  waiting : Outcome A
  division_by_zero : Outcome A

-- `pos & (capacity_ - 1)`
abbrev pub masked : ℕ → ℕ → ℕ
masked capacity pos = bit_and pos (sub64 capacity 1)

-- `real_pos`: neighbouring positions are spread over the array in strides of eight.
unfoldable pub slot : ℕ → ℕ → ℕ
slot capacity pos = add64 (u64 (bit_and pos (sub64 (capacity / 8) 1) * 8)) (pos / (capacity / 8))

-- The calls of the two threads in the order in which they take effect; a spinning `put` leaves the
-- ring alone and is tried again by a later call.
pub data Call {ℓ} (A : Type ℓ) : Type ℓ where
  puts : Option A → Call A
  gets : Call A

-- What the constructor comes to: a ring, one whose `pointers` stays `nullptr`, so that `initSucceed` is
-- false, or a loop that takes more rounds.
pub data Made {ℓ} (A : Type ℓ) : Type ℓ where
  made : PipeRing A → Made A
  refused : Made A
  looping : Made A

module _ {ℓ} {A : Type ℓ} where
  -- The loop of the constructor, for some rounds; its counter `i` has 32 bits.
  unfoldable pub cleared : ℕ → ℕ → ℕ → List (Option A) → Option (List (Option A))
  cleared zero i capacity pointers = none
  cleared (suc rounds) i capacity pointers =
      let rest = cleared rounds ((i + 1) % 2 ^ 32) capacity (set pointers i none) in
      if ltb i capacity then rest else some pointers

  -- The constructor; `memory` is what `new void*[capacity]` gives.
  unfoldable pub create : ℕ → List (Option A) → ℕ → Made A
  create rounds memory capacity =
      if bit_and capacity (sub64 capacity 1) == 0
      then elim (cleared rounds 0 capacity memory) [
        | none ↦ looping
        | some pointers ↦
            made (record { capacity = capacity; write_pos = 0; read_pos = 0; pointers = pointers })
      ]
      else refused

  unfoldable pub put : PipeRing A → Option A → Outcome (PipeRing A)
  put r p =
      if r.write_pos == add64 (sub64 r.capacity 1) r.read_pos
      then waiting
      else if r.capacity / 8 == 0
      then division_by_zero
      else done (record r {
        pointers = set r.pointers (slot r.capacity (masked r.capacity r.write_pos)) p;
        write_pos = add64 r.write_pos 1;
      })

  -- The result is the pointer read, `none` also for an empty ring.
  unfoldable pub get : PipeRing A → Outcome (Option A × PipeRing A)
  get r =
      if r.write_pos == r.read_pos
      then done (none, r)
      else if r.capacity / 8 == 0
      then division_by_zero
      else done (
        get_or r.pointers (slot r.capacity (masked r.capacity r.read_pos)) none,
        record r { read_pos = add64 r.read_pos 1 },
      )

  unfoldable pub run : PipeRing A → List (Call A) → List (Outcome (Option A))
  run r [] = []
  run r (puts p ∷ calls) = elim (put r p) [
    | done r' ↦ done none ∷ run r' calls
    | waiting ↦ waiting ∷ run r calls
    | division_by_zero ↦ division_by_zero ∷ []
  ]
  run r (gets ∷ calls) = elim (get r) [
    | done (p, r') ↦ done p ∷ run r' calls
    | waiting ↦ waiting ∷ []
    | division_by_zero ↦ division_by_zero ∷ []
  ]
