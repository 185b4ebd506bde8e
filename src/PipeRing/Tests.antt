-- ===== src/PipeRing/Tests.antt =====
-- A ring of eight slots, run on concrete calls.
use di_traffic_database.Common.{
  ℕ, Option, List, ◌<◌, ◌≤◌, ◌^◌, ◌⊎◌, replicate, ◌≡◌, none, some, [], ◌∷◌, length, refl, arith,
}
use di_traffic_database.PipeRing.{
  PipeRing, made, looping, done, puts, gets, slot, masked, create, put, get, run,
}
use di_traffic_database.PipeRing.Queue
use di_traffic_database.PipeRing.Slots.{IsCapacity}
use di_traffic_database.PipeRing.Invariant.{IsValid, access_in_bounds}
use di_traffic_database.PipeRing.Refine.{contents, run_refines}
use di_traffic_database.PipeRing.Create.{create-refines}

eight-IsCapacity : IsCapacity 8 0
eight-IsCapacity = record { small = omega arith; eight_times = refl }

sixteen-IsCapacity : IsCapacity 16 1
sixteen-IsCapacity = record { small = omega arith; eight_times = refl }

-- The counters are about to wrap, and three pointers are in the ring.
abbrev wrapping : PipeRing ℕ
wrapping = record {
  capacity = 8;
  write_pos = 1;
  read_pos = 18446744073709551614;
  pointers = some 30 ∷ none ∷ none ∷ none ∷ none ∷ none ∷ some 10 ∷ some 20 ∷ [];
}

wrapping-IsValid : IsValid 0 wrapping
wrapping-IsValid = record {
  usable = eight-IsCapacity;
  allocated = refl;
  write_word = omega arith;
  read_word = omega arith;
  room = omega arith;
}

wrapping_runs :
    run wrapping (puts (some 40) ∷ gets ∷ gets ∷ gets ∷ gets ∷ gets ∷ [])
    ≡ done none ∷ done (some 10) ∷ done (some 20) ∷ done (some 30) ∷ done (some 40) ∷ done none ∷ []
unfolding run put get slot
wrapping_runs = refl

run_refines_example :
    run wrapping (puts (some 40) ∷ gets ∷ gets ∷ [])
    ≡ Queue.run 8 (contents wrapping) (puts (some 40) ∷ gets ∷ gets ∷ [])
run_refines_example = run_refines (puts (some 40) ∷ gets ∷ gets ∷ []) wrapping-IsValid

access_in_bounds_example : slot 8 (masked 8 13) < length wrapping.pointers
access_in_bounds_example = access_in_bounds wrapping-IsValid 13

abbrev position : ℕ
position = 9

abbrev old_memory : List (Option ℕ)
old_memory = replicate 16 (some 5)

create-refines_example :
    ((16 < 2 ^ 32)
      × ((r : PipeRing ℕ) × (create 20 old_memory 16 ≡ made r)
          × (run r (puts (some 1) ∷ gets ∷ []) ≡ Queue.run 16 [] (puts (some 1) ∷ gets ∷ []))))
    ⊎ ((2 ^ 32 ≤ 16) × (create 20 old_memory 16 ≡ looping))
create-refines_example =
    create-refines 20 old_memory (puts (some 1) ∷ gets ∷ []) sixteen-IsCapacity refl (omega arith)

abbrev four : PipeRing ℕ
four = record {
  capacity = 4;
  write_pos = 0;
  read_pos = 0;
  pointers = none ∷ none ∷ none ∷ none ∷ [];
}

abbrev sixteen : ℕ
sixteen = 16
