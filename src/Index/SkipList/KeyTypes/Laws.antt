-- ===== src/Index/SkipList/KeyTypes/Laws.antt =====
-- src-old/lib/skipList.hpp: the order and the size of each class of keys.
use di_traffic_database.Common.{
  take, [], ◌∷◌, ℕ, zero, suc, ◌<◌, ◌≡◌, ◌↔◌, refl, ap, arith, some, length,
}
use di_traffic_database.DataNode.Text.{Str}
use di_traffic_database.DataNode.Sst.{bytes_of}
use di_traffic_database.Index.Keys.Order.{
  IsTotalOrder, numbers-IsTotalOrder, ipv4_key-IsTotalOrder, ipv6-IsTotalOrder,
  ipv6_key-IsTotalOrder,
}
use di_traffic_database.Index.Keys.{QuarTurpleIpv6}
use di_traffic_database.Index.SkipList.Towers.{All}
use di_traffic_database.Index.SkipList.KeyTypes.{
  KeyClass, u8, u16, u32, u64, ipv4_flow, ipv6, ipv6_flow, class_of, key_type,
}

pub key_type-IsTotalOrder :
    (gap : QuarTurpleIpv6 → Str) (c : KeyClass) → IsTotalOrder (key_type gap c).order
key_type-IsTotalOrder gap u8 = numbers-IsTotalOrder
key_type-IsTotalOrder gap u16 = numbers-IsTotalOrder
key_type-IsTotalOrder gap u32 = numbers-IsTotalOrder
key_type-IsTotalOrder gap u64 = numbers-IsTotalOrder
key_type-IsTotalOrder gap ipv4_flow = ipv4_key-IsTotalOrder
key_type-IsTotalOrder gap ipv6 = ipv6-IsTotalOrder
key_type-IsTotalOrder gap ipv6_flow = ipv6_key-IsTotalOrder

abbrev pub IsBytes : Str → Type 0
IsBytes s = All (λ b. b < 256) s

pub length-bytes_of : (n x : ℕ) → length (bytes_of n x) ≡ n
unfolding bytes_of
length-bytes_of zero x = refl
length-bytes_of (suc n) x = ap suc (length-bytes_of n _)

pub take_all : (n : ℕ) (s : Str) → length s ≡ n → take n s ≡ s
take_all zero [] h = refl
take_all zero (x ∷ s) h = absurd (omega arith)
take_all (suc n) [] h = refl
take_all (suc n) (x ∷ s) h = ap (λ l. x ∷ l) (take_all n s (omega arith))

-- A key length that the methods know is the size of its class, and no other length has a class.
pub class_of-size :
    (gap : QuarTurpleIpv6 → Str) (n : ℕ) (c : KeyClass)
    → (class_of n ≡ some c) ↔ ((key_type gap c).size ≡ n)
unfolding class_of
class_of-size gap n u8 = (λ e. ground arith, λ e. ground arith)
class_of-size gap n u16 = (λ e. ground arith, λ e. ground arith)
class_of-size gap n u32 = (λ e. ground arith, λ e. ground arith)
class_of-size gap n u64 = (λ e. ground arith, λ e. ground arith)
class_of-size gap n ipv4_flow = (λ e. ground arith, λ e. ground arith)
class_of-size gap n ipv6 = (λ e. ground arith, λ e. ground arith)
class_of-size gap n ipv6_flow = (λ e. ground arith, λ e. ground arith)
