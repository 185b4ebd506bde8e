-- ===== src/Index/Keys.antt =====
-- The comparisons of src-old/lib/util.hpp: IPv6 addresses and the keys of flows.
pub mod Order
use di_traffic_database.Common.{ℕ, Bool, true, false, not, ◌&&◌, ltb, ◌==◌, if◌then◌else◌}
use di_traffic_database.Index.BloomFilter.{Ipv6Address}

-- The six operators of a class.
pub record Comparisons (A : Type 0) : Type 0 where
  pub lt : A → A → Bool
  pub gt : A → A → Bool
  pub eq : A → A → Bool
  pub ne : A → A → Bool
  pub le : A → A → Bool
  pub ge : A → A → Bool

-- The unsigned integers' own.
abbrev pub numbers : Comparisons ℕ
numbers = record {
  lt = λ a b. ltb a b;
  gt = λ a b. ltb b a;
  eq = λ a b. a == b;
  ne = λ a b. not (a == b);
  le = λ a b. not (ltb b a);
  ge = λ a b. not (ltb a b);
}

unfoldable pub ipv6_lt : Ipv6Address → Ipv6Address → Bool
ipv6_lt a b =
    if ltb a.high b.high then true else if ltb b.high a.high then false else ltb a.low b.low

unfoldable pub ipv6_gt : Ipv6Address → Ipv6Address → Bool
ipv6_gt a b =
    if ltb b.high a.high then true else if ltb a.high b.high then false else ltb b.low a.low

unfoldable pub ipv6_eq : Ipv6Address → Ipv6Address → Bool
ipv6_eq a b = a.high == b.high && a.low == b.low

unfoldable pub ipv6_comparisons : Comparisons Ipv6Address
ipv6_comparisons = record {
  lt = ipv6_lt;
  gt = ipv6_gt;
  eq = ipv6_eq;
  ne = λ a b. not (ipv6_eq a b);
  le = λ a b. not (ipv6_gt a b);
  ge = λ a b. not (ipv6_lt a b);
}

-- `QuarTurpleIPv4`
pub record QuarTurpleIpv4 : Type 0 where
  pub dst_port : ℕ
  pub src_port : ℕ
  pub dst_ip : ℕ
  pub src_ip : ℕ

unfoldable pub ipv4_key_lt : QuarTurpleIpv4 → QuarTurpleIpv4 → Bool
ipv4_key_lt a b =
    if ltb a.src_ip b.src_ip
    then true
    else if ltb b.src_ip a.src_ip
    then false
    else if ltb a.dst_ip b.dst_ip
    then true
    else if ltb b.dst_ip a.dst_ip
    then false
    else if ltb a.src_port b.src_port
    then true
    else if ltb b.src_port a.src_port
    then false
    else ltb a.dst_port b.dst_port

unfoldable pub ipv4_key_gt : QuarTurpleIpv4 → QuarTurpleIpv4 → Bool
ipv4_key_gt a b =
    if ltb b.src_ip a.src_ip
    then true
    else if ltb a.src_ip b.src_ip
    then false
    else if ltb b.dst_ip a.dst_ip
    then true
    else if ltb a.dst_ip b.dst_ip
    then false
    else if ltb b.src_port a.src_port
    then true
    else if ltb a.src_port b.src_port
    then false
    else ltb b.dst_port a.dst_port

unfoldable pub ipv4_key_eq : QuarTurpleIpv4 → QuarTurpleIpv4 → Bool
ipv4_key_eq a b =
    a.src_ip == b.src_ip
    && (a.dst_ip == b.dst_ip && (a.src_port == b.src_port && a.dst_port == b.dst_port))

unfoldable pub ipv4_key_comparisons : Comparisons QuarTurpleIpv4
ipv4_key_comparisons = record {
  lt = ipv4_key_lt;
  gt = ipv4_key_gt;
  eq = ipv4_key_eq;
  ne = λ a b. not (ipv4_key_eq a b);
  le = λ a b. not (ipv4_key_gt a b);
  ge = λ a b. not (ipv4_key_lt a b);
}

-- `QuarTurpleIPv6`
pub record QuarTurpleIpv6 : Type 0 where
  pub dst_port : ℕ
  pub src_port : ℕ
  pub dst_ip : Ipv6Address
  pub src_ip : Ipv6Address

unfoldable pub ipv6_key_lt : QuarTurpleIpv6 → QuarTurpleIpv6 → Bool
ipv6_key_lt a b =
    if ipv6_lt a.src_ip b.src_ip
    then true
    else if ipv6_gt a.src_ip b.src_ip
    then false
    else if ipv6_lt a.dst_ip b.dst_ip
    then true
    else if ipv6_gt a.dst_ip b.dst_ip
    then false
    else if ltb a.src_port b.src_port
    then true
    else if ltb b.src_port a.src_port
    then false
    else ltb a.dst_port b.dst_port

unfoldable pub ipv6_key_gt : QuarTurpleIpv6 → QuarTurpleIpv6 → Bool
ipv6_key_gt a b =
    if ipv6_gt a.src_ip b.src_ip
    then true
    else if ipv6_lt a.src_ip b.src_ip
    then false
    else if ipv6_gt a.dst_ip b.dst_ip
    then true
    else if ipv6_lt a.dst_ip b.dst_ip
    then false
    else if ltb b.src_port a.src_port
    then true
    else if ltb a.src_port b.src_port
    then false
    else ltb b.dst_port a.dst_port

unfoldable pub ipv6_key_eq : QuarTurpleIpv6 → QuarTurpleIpv6 → Bool
ipv6_key_eq a b =
    ipv6_eq a.src_ip b.src_ip
    && (ipv6_eq a.dst_ip b.dst_ip && (a.src_port == b.src_port && a.dst_port == b.dst_port))

unfoldable pub ipv6_key_comparisons : Comparisons QuarTurpleIpv6
ipv6_key_comparisons = record {
  lt = ipv6_key_lt;
  gt = ipv6_key_gt;
  eq = ipv6_key_eq;
  ne = λ a b. not (ipv6_key_eq a b);
  le = λ a b. not (ipv6_key_gt a b);
  ge = λ a b. not (ipv6_key_lt a b);
}
