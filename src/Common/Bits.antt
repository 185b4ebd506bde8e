-- ===== src/Common/Bits.antt =====
-- `bit_and` as arithmetic: a mask of low ones is a remainder.
use Prim.Native.Nat.{ℕ, zero, suc, ◌+◌, ◌-◌, ◌*◌, ◌/◌, ◌%◌, ◌^◌, ◌≤◌, ◌<◌, min}
use Prim.Native.Nat.{bit_and, digits, bit_and-bitwise}
use mathlib.Core.Path.{◌≡◌, refl, ap}
use native.Mathlib.Nat.{pow-zero, pow-suc, one-le-pow, mul_assoc}
use native.Mathlib.Omega.{arith}

-- The digit recursion that `bit_and` stands for, with its fuel apart.
abbrev rec_and : ℕ → ℕ → ℕ → ℕ
rec_and fuel x y = digits (λ _. 0) min fuel x y

rec_and_enough : (f g x y : ℕ) → x ≤ f → x ≤ g → rec_and f x y ≡ rec_and g x y
rec_and_enough zero zero x y p q = refl
rec_and_enough zero (suc g) zero y p q = refl
rec_and_enough zero (suc g) (suc x) y p q = absurd (omega arith)
rec_and_enough (suc f) zero zero y p q = refl
rec_and_enough (suc f) zero (suc x) y p q = absurd (omega arith)
rec_and_enough (suc f) (suc g) zero y p q = refl
rec_and_enough (suc f) (suc g) (suc x) y p q =
    omega (arith, rec_and_enough f g (suc x / 2) (y / 2) (omega arith) (omega arith))

pub zero-bit_and : (y : ℕ) → bit_and 0 y ≡ 0
zero-bit_and y = bit_and-bitwise 0 y

-- The lowest digit apart.
pub bit_and_halves : (x y : ℕ) → bit_and x y ≡ bit_and (x / 2) (y / 2) * 2 + min (x % 2) (y % 2)
bit_and_halves zero y = omega (arith, zero-bit_and y, zero-bit_and (y / 2))
bit_and_halves (suc x) y = omega (
  arith,
  rec_and_enough x (suc x / 2) (suc x / 2) (y / 2) (omega arith) (omega arith),
  bit_and-bitwise (suc x / 2) (y / 2),
  bit_and-bitwise (suc x) y,
)

bit_and-zero_bounded : (bound x : ℕ) → x ≤ bound → bit_and x 0 ≡ 0
bit_and-zero_bounded bound zero h = refl
bit_and-zero_bounded zero (suc x) h = absurd (omega arith)
bit_and-zero_bounded (suc bound) (suc x) h =
    omega (arith, bit_and_halves (suc x) 0, bit_and-zero_bounded bound (suc x / 2) (omega arith))

pub bit_and-zero : (x : ℕ) → bit_and x 0 ≡ 0
bit_and-zero x = bit_and-zero_bounded x x (omega arith)

-- Split off the low bits first: `q * 2 ^ k + r` keeps only `r` under the mask.
mask_of_split : (k q r : ℕ) → r < 2 ^ k → bit_and (q * 2 ^ k + r) (2 ^ k - 1) ≡ r
mask_of_split zero q r h = rw bit_and-zero (omega arith)
mask_of_split (suc k) q r h = ground (
  arith,
  pow-suc 2 k,
  ap (λ (t : ℕ). q * t) (pow-suc 2 k),
  one-le-pow k 2,
  mask_of_split k q (r / 2),
  bit_and_halves (q * 2 ^ suc k + r) (2 ^ suc k - 1),
)

-- `x & (2 ^ k - 1)` is the remainder by `2 ^ k`.
pub bit_and-mask : (k x : ℕ) → bit_and x (2 ^ k - 1) ≡ x % 2 ^ k
bit_and-mask k x = ground (arith, one-le-pow k 2, mask_of_split k (x / 2 ^ k) (x % 2 ^ k))

pub pow-add : (n a b : ℕ) → n ^ (a + b) ≡ n ^ a * n ^ b
pow-add n a zero = omega (
  arith,
  ap (λ (t : ℕ). n ^ t) {x = a + zero} {y = a} (omega arith),
  ap (λ (t : ℕ). n ^ a * t) (pow-zero n),
)
pow-add n a (suc b) = omega (
  arith,
  ap (λ (t : ℕ). n ^ t) {x = a + suc b} {y = suc (a + b)} (omega arith),
  pow-suc n (a + b),
  pow-suc n b,
  ap (λ (t : ℕ). t * n) (pow-add n a b),
  ap (λ (t : ℕ). n ^ a * t) (pow-suc n b),
  mul_assoc (n ^ a) (n ^ b) n,
)
