-- ===== src/Probe/DataBlocks/Arrays.antt =====
-- Arrays of numbers with checked accesses, and chains of fallible steps.
use di_traffic_database.Common.{
  ℕ, ◌+◌, ◌<◌, Option, none, some, ◌≡◌, arith, true, ltb, ◌==◌, if◌then◌else◌,
}

infixl 5 ◌>>=◌ ◌>>◌
abbrev pub ◌>>=◌ {ℓ κ} : {A : Type ℓ} {B : Type κ} → Option A → (A → Option B) → Option B
none >>= f = none
some a >>= f = f a

abbrev pub ◌>>◌ {ℓ} : {B : Type ℓ} → Option (Unit {0}) → Option B → Option B
m >> k = m >>= λ _. k

pub record Array : Type 0 where
  pub size : ℕ
  pub at : ℕ → ℕ

abbrev pub array : ℕ → (ℕ → ℕ) → Array
array n f = record { size = n; at = f }

unfoldable pub read : Array → ℕ → Option ℕ
read a i = if ltb i a.size then some (a.at i) else none

abbrev pub stored : Array → ℕ → ℕ → Array
stored a i v = record a { at = λ j. if j == i then v else a.at j }

unfoldable pub write : Array → ℕ → ℕ → Option Array
write a i v = if ltb i a.size then some (stored a i v) else none

-- `push_back`
unfoldable pub append : Array → ℕ → Array
append a v = record { size = a.size + 1; at = λ j. if j == a.size then v else a.at j }

pub read-at : (a : Array) (i : ℕ) → i < a.size → read a i ≡ some (a.at i)
unfolding read
read-at a i h = let inside : ltb i a.size ≡ true = ground arith in rw inside

pub write-stored : (a : Array) (i v : ℕ) → i < a.size → write a i v ≡ some (stored a i v)
unfolding write
write-stored a i v h = let inside : ltb i a.size ≡ true = ground arith in rw inside
