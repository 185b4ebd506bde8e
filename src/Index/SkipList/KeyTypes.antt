-- ===== src/Index/SkipList/KeyTypes.antt =====
-- The classes of keys of src-old/lib/skipList.hpp, one for each length that its methods test for.
pub mod Laws
use di_traffic_database.Common.{
  take, drop, ℕ, zero, suc, ◌+◌, ◌*◌, ◌==◌, Option, none, some, List, [], ◌∷◌, ◌++◌, if◌then◌else◌,
}
use di_traffic_database.DataNode.Text.{Str}
use di_traffic_database.DataNode.Sst.{bytes_of}
use di_traffic_database.Index.BloomFilter.{Ipv6Address}
use di_traffic_database.Index.Keys.{
  Comparisons, numbers, QuarTurpleIpv4, QuarTurpleIpv6, ipv4_key_comparisons, ipv6_comparisons,
  ipv6_key_comparisons,
}
use di_traffic_database.Index.SkipList.{KeyType}

-- The unsigned number whose bytes these are, the lowest first.
unfoldable pub number_of : Str → ℕ
number_of [] = 0
number_of (b ∷ bs) = b + 256 * number_of bs

abbrev pub number_at : ℕ → ℕ → Str → ℕ
number_at offset n s = number_of (take n (drop offset s))

unfoldable pub ipv6_at : ℕ → Str → Ipv6Address
ipv6_at offset s = record { low = number_at offset 8 s; high = number_at (offset + 8) 8 s }

unfoldable pub ipv6_bytes : Ipv6Address → Str
ipv6_bytes ip = bytes_of 8 ip.low ++ bytes_of 8 ip.high

pub data KeyClass : Type 0 where
  u8 u16 u32 u64 ipv4_flow ipv6 ipv6_flow : KeyClass

-- The test of `keyLen` that newNode and the methods on nodes make.
unfoldable pub class_of : ℕ → Option KeyClass
class_of key_len =
    if key_len == 1
    then some u8
    else if key_len == 2
    then some u16
    else if key_len == 4
    then some u32
    else if key_len == 8
    then some u64
    else if key_len == 12
    then some ipv4_flow
    else if key_len == 16
    then some ipv6
    else if key_len == 40
    then some ipv6_flow
    else none

-- The class's type in `SkipListNode<KeyType, u_int64_t>`.
abbrev pub Key : KeyClass → Type 0
Key u8 = ℕ
Key u16 = ℕ
Key u32 = ℕ
Key u64 = ℕ
Key ipv4_flow = QuarTurpleIpv4
Key ipv6 = Ipv6Address
Key ipv6_flow = QuarTurpleIpv6

abbrev pub word_type : ℕ → KeyType ℕ
word_type n = record { size = n; read = number_of; bytes = bytes_of n; order = numbers }

unfoldable pub read_ipv4_flow : Str → QuarTurpleIpv4
read_ipv4_flow s = record {
  dst_port = number_at 0 2 s;
  src_port = number_at 2 2 s;
  dst_ip = number_at 4 4 s;
  src_ip = number_at 8 4 s;
}

unfoldable pub ipv4_flow_bytes : QuarTurpleIpv4 → Str
ipv4_flow_bytes k =
    bytes_of 2 k.dst_port ++ (bytes_of 2 k.src_port ++ (bytes_of 4 k.dst_ip ++ bytes_of 4 k.src_ip))

-- The addresses stand at a multiple of eight.
unfoldable pub read_ipv6_flow : Str → QuarTurpleIpv6
read_ipv6_flow s = record {
  dst_port = number_at 0 2 s;
  src_port = number_at 2 2 s;
  dst_ip = ipv6_at 8 s;
  src_ip = ipv6_at 24 s;
}

-- `gap` has the four bytes between the ports and the addresses, of which C++ says nothing.
unfoldable pub ipv6_flow_bytes : (QuarTurpleIpv6 → Str) → QuarTurpleIpv6 → Str
ipv6_flow_bytes gap k =
    bytes_of 2 k.dst_port
    ++ (bytes_of 2 k.src_port ++ (gap k ++ (ipv6_bytes k.dst_ip ++ ipv6_bytes k.src_ip)))

abbrev pub key_type : (QuarTurpleIpv6 → Str) → (c : KeyClass) → KeyType (Key c)
key_type gap u8 = word_type 1
key_type gap u16 = word_type 2
key_type gap u32 = word_type 4
key_type gap u64 = word_type 8
key_type gap ipv4_flow = record {
  size = 12;
  read = read_ipv4_flow;
  bytes = ipv4_flow_bytes;
  order = ipv4_key_comparisons;
}
key_type gap ipv6 = record {
  size = 16;
  read = ipv6_at 0;
  bytes = ipv6_bytes;
  order = ipv6_comparisons;
}
key_type gap ipv6_flow = record {
  size = 40;
  read = read_ipv6_flow;
  bytes = ipv6_flow_bytes gap;
  order = ipv6_key_comparisons;
}
