-- ===== src/PipeRing/Queue.antt =====
-- What a ring promises its two threads: a first-in first-out queue of pointers that holds at most one
-- fewer than the capacity.
use di_traffic_database.Common.{
  ℕ, ◌-◌, Option, none, List, [], ◌∷◌, ◌++◌, ◌==◌, if◌then◌else◌, length,
}
use di_traffic_database.PipeRing.{Outcome, done, waiting, division_by_zero, Call, puts, gets}

module _ {ℓ} {A : Type ℓ} where
  unfoldable pub get : List (Option A) → Option A × List (Option A)
  get [] = (none, [])
  get (p ∷ q) = (p, q)

module _ {ℓ} {A : Type ℓ} (capacity : ℕ) where
  unfoldable pub put : List (Option A) → Option A → Outcome (List (Option A))
  put q p = if length q == capacity - 1 then waiting else done (q ++ (p ∷ []))

  unfoldable pub run : List (Option A) → List (Call A) → List (Outcome (Option A))
  run q [] = []
  run q (puts p ∷ calls) = elim (put q p) [
    | done q' ↦ done none ∷ run q' calls
    | waiting ↦ waiting ∷ run q calls
    | division_by_zero ↦ division_by_zero ∷ []
  ]
  run q (gets ∷ calls) = let (p, q') = get q in done p ∷ run q' calls
