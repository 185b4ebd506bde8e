-- ===== src/PipeRing/Create.antt =====
-- The constructor of pipeRing.hpp, and the capacities that it accepts though they are of no use.
use mathlib.Core.List.{append-nil}
use native.Mathlib.Nat.{mod_self}
use di_traffic_database.Common.{
  ℕ, zero, suc, ◌+◌, set, true, false, ltb, ◌++◌, ◌∷◌, length, ◌%◌, ◌≤◌, ◌<◌, ◌^◌, ◌≡◌, ◌≢◌, Option,
  none, some, List, [], refl, arith, sub64, bit_and, length-replicate, replicate, ap, ◌∙◌, ◌⊎◌, inl,
  inr, Bool-cases,
}
use di_traffic_database.PipeRing.{PipeRing, made, looping, done, Call, cleared, create, put, run}
use di_traffic_database.PipeRing.Slots.{IsCapacity, capacity_bounds, masked_lem}
use di_traffic_database.PipeRing.Queue
use di_traffic_database.PipeRing.Invariant.{IsValid}
use di_traffic_database.PipeRing.Refine.{contents, window, run_refines}

power : {capacity k : ℕ} → IsCapacity capacity k → bit_and capacity (sub64 capacity 1) ≡ 0
power {capacity} c = masked_lem capacity c ∙ mod_self capacity

module _ {ℓ} {A : Type ℓ} where
  abbrev empty_ring : ℕ → PipeRing A
  empty_ring capacity = record {
    capacity = capacity;
    write_pos = 0;
    read_pos = 0;
    pointers = replicate capacity none;
  }

  set_next :
      (i : ℕ) (x : Option A) (rest : List (Option A))
      → set (replicate i none ++ (x ∷ rest)) i none ≡ replicate (suc i) none ++ rest
  set_next zero x rest = refl
  set_next (suc i) x rest = ap (λ l. none ∷ l) (set_next i x rest)

  cleared-all :
      (i capacity rounds : ℕ) (rest : List (Option A))
      → i + length rest ≡ capacity
      → capacity < 2 ^ 32
      → length rest < rounds
      → cleared rounds i capacity (replicate i none ++ rest) ≡ some (replicate capacity none)
  unfolding cleared
  cleared-all i capacity zero rest sized small more = absurd (omega arith)
  cleared-all i capacity (suc rounds) [] sized small more =
      let ends : ltb i capacity ≡ false = ground arith in
      rw ends (
        ap some (
          append-nil (replicate i none)
          ∙ ap (λ n. replicate n none) {x = i} {y = capacity} (omega (arith, sized))))
  cleared-all i capacity (suc rounds) (x ∷ rest) sized small more =
      let goes_on : ltb i capacity ≡ true = ground (arith, sized) in
      let next : (i + 1) % 2 ^ 32 ≡ suc i = omega (arith, sized, small) in
      rw (goes_on, next, set_next i x rest)
        (cleared-all (suc i) capacity rounds rest (omega (arith, sized)) small
          (omega (arith, more)))

  cleared-looping :
      (i capacity rounds : ℕ) (pointers : List (Option A))
      → i < 2 ^ 32
      → 2 ^ 32 ≤ capacity
      → cleared rounds i capacity pointers ≡ none
  unfolding cleared
  cleared-looping i capacity zero pointers below large = refl
  cleared-looping i capacity (suc rounds) pointers below large =
      let goes_on : ltb i capacity ≡ true = ground (arith, below, large) in
      rw goes_on (
        cleared-looping ((i + 1) % 2 ^ 32) capacity rounds (set pointers i none) (omega arith)
          large)

  create-made :
      {capacity k : ℕ} (rounds : ℕ) (memory : List (Option A))
      → IsCapacity capacity k
      → length memory ≡ capacity
      → capacity < 2 ^ 32
      → capacity < rounds
      → create rounds memory capacity ≡ made (empty_ring capacity)
  unfolding create
  create-made {capacity} rounds memory c sized small more = rw (
    power c,
    cleared-all 0 capacity rounds memory (omega (arith, sized)) small (omega (arith, sized, more)),
  )

  create-looping :
      {capacity k : ℕ} (rounds : ℕ) (memory : List (Option A))
      → IsCapacity capacity k
      → 2 ^ 32 ≤ capacity
      → create rounds memory capacity ≡ looping
  unfolding create
  create-looping {capacity} rounds memory c large =
      rw (power c, cleared-looping 0 capacity rounds memory (omega arith) large)

  empty_ring-IsValid : {capacity k : ℕ} → IsCapacity capacity k → IsValid k (empty_ring capacity)
  empty_ring-IsValid {capacity} c = record {
    usable = c;
    allocated = length-replicate capacity none;
    write_word = omega arith;
    read_word = omega arith;
    room = omega (arith, capacity_bounds c);
  }

  -- For a capacity of 8 * 2 ^ k, k at most 60: below 2^32 the constructor ends after at most one round more
  -- than the capacity, whatever the memory holds that it gets, and its ring replies to every sequence of
  -- calls as an empty queue does that holds at most one pointer fewer than the capacity. From 2^32 on, the
  -- loop of the constructor has not ended after any number of rounds above the capacity.
  pub create-refines :
      {capacity k : ℕ} (rounds : ℕ) (memory : List (Option A)) (calls : List (Call A))
      → IsCapacity capacity k
      → length memory ≡ capacity
      → capacity < rounds
      → ((capacity < 2 ^ 32)
          × ((r : PipeRing A) × (create rounds memory capacity ≡ made r)
              × (run r calls ≡ Queue.run capacity [] calls)))
        ⊎ ((2 ^ 32 ≤ capacity) × (create rounds memory capacity ≡ looping))
  unfolding contents window
  create-refines {capacity} rounds memory calls c sized more =
      elim (Bool-cases (ltb capacity (2 ^ 32))) [
        | inl low ↦
            let small : capacity < 2 ^ 32 = ground (arith, low) in
            inl (
              small,
              (
                empty_ring capacity,
                create-made rounds memory c sized small more,
                run_refines calls (empty_ring-IsValid c),
              ),
            )
        | inr high ↦
            let large : 2 ^ 32 ≤ capacity = ground (arith, high) in
            inr (large, create-looping rounds memory c large)
      ]

  -- No `put` on a ring of capacity below 8 ever stores its pointer.
  pub put-small : (r r' : PipeRing A) (p : Option A) → r.capacity < 8 → put r p ≢ done r'
  unfolding put
  put-small r r' p small e = ground arith
