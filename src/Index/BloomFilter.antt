-- ===== src/Index/BloomFilter.antt =====
-- src-old/lib/prefixBloomFilter.hpp: which ports and addresses a column of a bitmap has seen. An address
-- sets exact bits for pairs of its bytes, and Bloom bits for each lower byte after its prefix. The two
-- functions std::hash are parameters.
pub mod Members
pub mod Lookups
pub mod Prefixes
use Prim.Native.Nat.{bit_or}
use di_traffic_database.Common.{
  ℕ, zero, suc, ◌+◌, ◌-◌, ◌*◌, ◌/◌, ◌%◌, ◌^◌, Bool, true, false, not, ◌&&◌, ◌||◌, ◌==◌, ltb, Option,
  none, some, List, [], ◌∷◌, ◌++◌, if◌then◌else◌, u64, add64,
}
use di_traffic_database.DataNode.Text.{Str}
use di_traffic_database.DataNode.Sst.{bytes_of}
use di_traffic_database.Index.BitMap
use di_traffic_database.Index.BitMap.{BitMap}

pub data IndexType : Type 0 where
  src_ip dst_ip src_port dst_port src_ipv6 dst_ipv6 : IndexType

pub record Ipv6Address : Type 0 where
  pub low : ℕ
  pub high : ℕ

-- `operator>>`
unfoldable pub shift_right : Ipv6Address → ℕ → Ipv6Address
shift_right ip shift =
    if shift == 0
    then ip
    else if ltb shift 64
    then record {
      low = bit_or (ip.low / 2 ^ shift) (u64 (ip.high * 2 ^ (64 - shift)));
      high = ip.high / 2 ^ shift;
    }
    else if ltb shift 128
    then record { low = ip.high / 2 ^ (shift - 64); high = 0 }
    else record { low = 0; high = 0 }

pub record BloomFilter : Type 0 where
  pub bitmap : Option BitMap
  pub k : ℕ
  pub writing_col : ℕ
  pub reading_col : ℕ

-- The constructor that takes a bitmap; a bitmap with too few rows is only reported.
unfoldable pub create : BitMap → ℕ → BloomFilter
create bitmap k = record {
  bitmap = some bitmap;
  k = k;
  writing_col = 2 ^ 32 - 1;
  reading_col = 2 ^ 32 - 1;
}

unfoldable pub set_writing_col : BloomFilter → ℕ → BloomFilter
set_writing_col f col = elim f.bitmap [
  | none ↦ f
  | some m ↦ if ltb col m.col_count then record f { writing_col = col } else f
]

unfoldable pub set_reading_col : BloomFilter → ℕ → BloomFilter
set_reading_col f col = elim f.bitmap [
  | none ↦ f
  | some m ↦ if ltb col m.col_count then record f { reading_col = col } else f
]

abbrev pub port_bits : ℕ
port_bits = 65536

abbrev pub ipv4_bits : ℕ
ipv4_bits = 655360

abbrev pub ipv6_bits : ℕ
ipv6_bits = 3735552

-- The sets of a chain, up to the first that fails.
unfoldable pub set_rows : BitMap → ℕ → List ℕ → BitMap × Bool
set_rows m col [] = (m, true)
set_rows m col (row ∷ rows) =
    let (m', done) = BitMap.set m row col in
    elim done [ true ↦ set_rows m' col rows | false ↦ (m', false) ]

unfoldable pub get_rows : BitMap → ℕ → List ℕ → Bool
get_rows m col [] = true
get_rows m col (row ∷ rows) = if BitMap.get m row col then get_rows m col rows else false

-- Is one of the `n` rows from `first` on set?
unfoldable pub any_row : BitMap → ℕ → ℕ → ℕ → Bool
any_row m col first zero = false
any_row m col first (suc n) = any_row m col first n || BitMap.get m (first + n) col

-- Byte `i` of an IPv4 address, and the rows of its two exact bits.
abbrev pub byte_of : ℕ → ℕ → ℕ
byte_of ip i = ip / 2 ^ (8 * i) % 256

abbrev pub upper_row : ℕ → ℕ → ℕ
upper_row ip offset = byte_of ip 3 * 256 + byte_of ip 2 + offset

abbrev pub lower_row : ℕ → ℕ → ℕ
lower_row ip offset = byte_of ip 1 * 256 + byte_of ip 0 + offset + 65536

-- Byte `i` of an IPv6 address.
unfoldable pub byte6_of : Ipv6Address → ℕ → ℕ
byte6_of ip i = (shift_right ip (8 * i)).low % 256

abbrev pub upper6_row : Ipv6Address → ℕ → ℕ
upper6_row ip offset = byte6_of ip 15 * 256 + byte6_of ip 14 + offset

module _ (hash : Str → ℕ) (hash_word : ℕ → ℕ) where
  unfoldable pub hash_function : Str → ℕ → ℕ
  hash_function element i = hash_word (add64 (hash element) (u64 (1540483477 * i)))

  -- The rows that `setBloom` and `getBloom` visit for the first `k` hash functions.
  unfoldable pub bloom_rows : Str → ℕ → ℕ → ℕ → ℕ → List ℕ
  bloom_rows prefix offset byte bloom_len zero = []
  bloom_rows prefix offset byte bloom_len (suc i) =
      bloom_rows prefix offset byte bloom_len i
      ++ (add64 (byte * 256 + hash_function prefix i % bloom_len) offset ∷ [])

  -- The Bloom rows for the byte `i` of an IPv4 address.
  unfoldable pub ipv4_bloom : ℕ → ℕ → ℕ → ℕ → List ℕ
  ipv4_bloom k ip offset i =
      bloom_rows (bytes_of 4 (ip / 2 ^ (8 * (i + 1)))) (offset + 131072 + 262144 * (1 - i))
        (byte_of ip i) 1024 k

  -- The loop over the bytes from 1 down to 2 - `levels`.
  unfoldable pub ipv4_blooms : ℕ → ℕ → ℕ → ℕ → List ℕ
  ipv4_blooms k ip offset zero = []
  ipv4_blooms k ip offset (suc levels) =
      ipv4_blooms k ip offset levels ++ ipv4_bloom k ip offset (1 - levels)

  unfoldable pub ipv4_rows : ℕ → ℕ → ℕ → List ℕ
  ipv4_rows k ip offset = upper_row ip offset ∷ lower_row ip offset ∷ ipv4_blooms k ip offset 2

  -- `checkIPv4` with a prefix of at most four bytes.
  unfoldable pub check_ipv4_prefix : BitMap → ℕ → ℕ → ℕ → ℕ → ℕ → Bool
  check_ipv4_prefix m col k ip offset prefix_len =
      if prefix_len == 0
      then true
      else if prefix_len == 1 && any_row m col (byte_of ip 3 * 256 + offset) 256
      then true
      else if not (BitMap.get m (upper_row ip offset) col)
      then false
      else if prefix_len == 2
      then true
      else if prefix_len == 3 && not (any_row m col (byte_of ip 1 * 256 + offset + 65536) 256)
      then false
      else if prefix_len == 4 && not (BitMap.get m (lower_row ip offset) col)
      then false
      else get_rows m col (ipv4_blooms k ip offset (prefix_len - 2))

  unfoldable pub ipv6_bloom : ℕ → Ipv6Address → ℕ → ℕ → List ℕ
  ipv6_bloom k ip offset i =
      let prefix = shift_right ip (8 * (i + 1)) in
      bloom_rows (bytes_of 8 prefix.low ++ bytes_of 8 prefix.high)
        (offset + 65536 + 262144 * (13 - i)) (byte6_of ip i) 1024 k

  -- The loop over the bytes from 13 down to 14 - `levels`.
  unfoldable pub ipv6_blooms : ℕ → Ipv6Address → ℕ → ℕ → List ℕ
  ipv6_blooms k ip offset zero = []
  ipv6_blooms k ip offset (suc levels) =
      ipv6_blooms k ip offset levels ++ ipv6_bloom k ip offset (13 - levels)

  unfoldable pub ipv6_rows : ℕ → Ipv6Address → ℕ → List ℕ
  ipv6_rows k ip offset = upper6_row ip offset ∷ ipv6_blooms k ip offset 14

  -- `checkIPv6` with a prefix of at most sixteen bytes.
  unfoldable pub check_ipv6_prefix : BitMap → ℕ → ℕ → Ipv6Address → ℕ → ℕ → Bool
  check_ipv6_prefix m col k ip offset prefix_len =
      if prefix_len == 0
      then true
      else if prefix_len == 1 && any_row m col (byte6_of ip 15 * 256 + offset) 256
      then true
      else if not (BitMap.get m (upper6_row ip offset) col)
      then false
      else if prefix_len == 2
      then true
      else get_rows m col (ipv6_blooms k ip offset (prefix_len - 2))

-- Where the rows of a type begin; `none` for a type that the method does not take.
unfoldable pub port_offset : IndexType → Option ℕ
port_offset src_port = some 0
port_offset dst_port = some port_bits
port_offset other = none

unfoldable pub ipv4_offset : IndexType → Option ℕ
ipv4_offset src_ip = some (port_bits * 2)
ipv4_offset dst_ip = some (port_bits * 2 + ipv4_bits)
ipv4_offset other = none

unfoldable pub ipv6_offset : IndexType → Option ℕ
ipv6_offset src_ipv6 = some (port_bits * 2 + ipv4_bits * 2)
ipv6_offset dst_ipv6 = some (port_bits * 2 + ipv4_bits * 2 + ipv6_bits)
ipv6_offset other = none

-- What a method does with the bitmap, if there is one and the type has rows.
abbrev pub with_rows : BloomFilter → Option ℕ → (ℕ → List ℕ) → BloomFilter × Bool
with_rows f offset rows = elim f.bitmap [
  | none ↦ (f, false)
  | some m ↦ elim offset [
    | none ↦ (f, false)
    | some o ↦
        let out = set_rows m f.writing_col (rows o) in (record f { bitmap = some out.0 }, out.1)
  ]
]

abbrev pub test_rows : BloomFilter → Option ℕ → (BitMap → ℕ → Bool) → Bool
test_rows f offset test = elim f.bitmap [
  | none ↦ false
  | some m ↦ elim offset [ none ↦ false | some o ↦ test m o ]
]

unfoldable pub insert_port : BloomFilter → ℕ → IndexType → BloomFilter × Bool
insert_port f port type = with_rows f (port_offset type) (λ o. (o + port) ∷ [])

unfoldable pub get_port : BloomFilter → ℕ → IndexType → Bool
get_port f port type = test_rows f (port_offset type) (λ m o. BitMap.get m (o + port) f.reading_col)

module _ (hash : Str → ℕ) (hash_word : ℕ → ℕ) where
  unfoldable pub insert_ipv4 : BloomFilter → ℕ → IndexType → BloomFilter × Bool
  insert_ipv4 f ip type = with_rows f (ipv4_offset type) (ipv4_rows hash hash_word f.k ip)

  unfoldable pub get_ipv4 : BloomFilter → ℕ → IndexType → Bool
  get_ipv4 f ip type =
      test_rows f (ipv4_offset type)
        (λ m o. get_rows m f.reading_col (ipv4_rows hash hash_word f.k ip o))

  unfoldable pub get_ipv4_prefix : BloomFilter → ℕ → IndexType → ℕ → Bool
  get_ipv4_prefix f ip type prefix_len =
      test_rows f (ipv4_offset type)
        (λ m o. check_ipv4_prefix hash hash_word m f.reading_col f.k ip o prefix_len)

  unfoldable pub insert_ipv6 : BloomFilter → Ipv6Address → IndexType → BloomFilter × Bool
  insert_ipv6 f ip type = with_rows f (ipv6_offset type) (ipv6_rows hash hash_word f.k ip)

  unfoldable pub get_ipv6 : BloomFilter → Ipv6Address → IndexType → Bool
  get_ipv6 f ip type =
      test_rows f (ipv6_offset type)
        (λ m o. get_rows m f.reading_col (ipv6_rows hash hash_word f.k ip o))

  unfoldable pub get_ipv6_prefix : BloomFilter → Ipv6Address → IndexType → ℕ → Bool
  get_ipv6_prefix f ip type prefix_len =
      test_rows f (ipv6_offset type)
        (λ m o. check_ipv6_prefix hash hash_word m f.reading_col f.k ip o prefix_len)
