-- ===== src/DataNode/Text.antt =====
-- `std::string` as a sequence of bytes, and `std::stoull`.
use Prim.Native.Char.{code}
use Prim.Native.String.{String}
use di_traffic_database.Common.{
  ℕ, ◌+◌, ◌-◌, ◌*◌, ◌^◌, Bool, true, false, ◌&&◌, ◌||◌, List, [], ◌∷◌, ◌≡◌, refl, arith, ◌==◌, ltb,
  leb, if◌then◌else◌, u64,
}
use di_traffic_database.DataNode.Exceptions.{Try, ok, thrown, invalid_argument, out_of_range}

abbrev pub Str : Type 0
Str = List ℕ

-- The bytes of a literal in ASCII.
abbrev pub codes : String → Str
codes String.[] = []
codes (String.◌∷◌ c s) = code c ∷ codes s

unfoldable pub str_eq : Str → Str → Bool
str_eq [] [] = true
str_eq [] (b ∷ t) = false
str_eq (a ∷ s) [] = false
str_eq (a ∷ s) (b ∷ t) = a == b && str_eq s t

pub str_eq_sound : (s t : Str) → str_eq s t ≡ true → s ≡ t
unfolding str_eq
str_eq_sound [] [] h = refl
str_eq_sound [] (b ∷ t) h = cc
str_eq_sound (a ∷ s) [] h = cc
str_eq_sound (a ∷ s) (b ∷ t) h = ground (arith, str_eq_sound s t)

pub str_eq_refl : (s : Str) → str_eq s s ≡ true
unfolding str_eq
str_eq_refl [] = refl
str_eq_refl (a ∷ s) = ground (arith, str_eq_refl s)

is_space : ℕ → Bool
is_space c = c == b' ' || leb 9 c && leb c 13

is_digit : ℕ → Bool
is_digit c = leb b'0' c && leb c b'9'

skip_spaces : Str → Str
skip_spaces [] = []
skip_spaces (c ∷ s) = if is_space c then skip_spaces s else c ∷ s

-- The leading digits read after `acc`, and how many of them there are.
read_digits : ℕ → ℕ → Str → ℕ × ℕ
read_digits acc seen [] = (acc, seen)
read_digits acc seen (c ∷ s) =
    let rest = read_digits (acc * 10 + (c - b'0')) (seen + 1) s in
    if is_digit c then rest else (acc, seen)

magnitude : Str → Try ℕ
magnitude s =
    let (n, seen) = read_digits 0 0 s in
    if seen == 0
    then thrown invalid_argument
    else if ltb n (2 ^ 64)
    then ok n
    else thrown out_of_range

-- A sign is accepted, and a negative number wraps.
signed : Str → Try ℕ
signed [] = magnitude []
signed (c ∷ s) =
    if c == b'+'
    then magnitude s
    else if c == b'-'
    then elim (magnitude s) [ ok n ↦ ok (u64 (2 ^ 64 - n)) | thrown e ↦ thrown e ]
    else magnitude (c ∷ s)

-- `std::stoull(s)`: base ten, leading space and trailing text ignored.
unfoldable pub stoull : Str → Try ℕ
unfolding is_space is_digit skip_spaces read_digits magnitude signed
stoull s = signed (skip_spaces s)

stoull_runs :
    (stoull (codes "1024") ≡ ok 1024)
    × (stoull (codes " 7rows") ≡ ok 7)
    × (stoull (codes "-1") ≡ ok (2 ^ 64 - 1))
    × (stoull (codes "") ≡ thrown invalid_argument)
    × (stoull (codes "18446744073709551616") ≡ thrown out_of_range)
unfolding stoull
stoull_runs = (refl, refl, refl, refl, refl)
