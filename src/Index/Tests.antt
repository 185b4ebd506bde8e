-- ===== src/Index/Tests.antt =====
-- A bitmap of sixteen columns with the rows that a filter needs, and a filter on it.
use di_traffic_database.Common.{
  ℕ, ◌==◌, ◌&&◌, true, false, if◌then◌else◌, List, [], ◌∷◌, ◌≡◌, refl, arith, length,
}
use di_traffic_database.DataNode.Exceptions.{Try, ok, thrown}
use di_traffic_database.DataNode.Text.{Str}
use di_traffic_database.DataNode.Sst.{bytes_of}
use di_traffic_database.Index.BitMap
use di_traffic_database.Index.BitMap.{BitMap, get_byte_index, get_bit_index, get, set, clear_col}
use di_traffic_database.Index.BitMap.Bits.{IsValid, get-set, get-clear_col, create-IsValid}
use di_traffic_database.Index.BloomFilter.{
  src_ip, dst_ipv6, src_port, Ipv6Address, get_ipv4_prefix, get_ipv6_prefix, insert_port,
  insert_ipv4, insert_ipv6, port_offset, ipv4_offset, ipv6_offset, ipv4_rows, ipv6_rows, ipv4_bloom,
  ipv4_blooms, ipv6_bloom, ipv6_blooms, bloom_rows, hash_function, set_rows, byte6_of, shift_right,
}
use di_traffic_database.Index.BloomFilter.Lookups.{
  opened, Entry, port, ipv4, ipv6, insert, insert_all, lookup, insert-lookup,
}
use di_traffic_database.Index.BloomFilter.Prefixes.{insert-get_ipv4_prefix, insert-get_ipv6_prefix}

abbrev pub map_or : BitMap → Try BitMap → BitMap
map_or m (ok m') = m'
map_or m (thrown e) = m

abbrev pub no_map : BitMap
no_map = record {
  bits = λ i b. false;
  row_count = 0;
  col_count = 0;
  backup_col_count = 0;
  size = 0;
}

abbrev pub table : BitMap
table = map_or no_map (BitMap.create 8912896 15 1)

create_runs : BitMap.create 8912896 15 1 ≡ ok table
unfolding BitMap.create
create_runs = refl

pub table-IsValid : IsValid 2 table
table-IsValid = create-IsValid 8912896 15 1 (omega arith) (omega arith) (omega arith) create_runs

get-set_example :
    ((set table 9 5).1 ≡ true)
    × (get (set table 9 5).0 9 13 ≡ (if 9 == 9 && 13 == 5 then true else get table 9 13))
unfolding BitMap.create
get-set_example =
    get-set table-IsValid 9 5 9 13 (omega arith) (omega arith) (omega arith) (omega arith)

get-clear_col_example : get (clear_col table 5) 9 13 ≡ (if 13 == 5 then false else get table 9 13)
unfolding BitMap.create
get-clear_col_example = get-clear_col table-IsValid 5 9 13 (omega arith) (omega arith) (omega arith)

abbrev pub hash : Str → ℕ
hash s = length s

abbrev pub hash_word : ℕ → ℕ
hash_word n = n

abbrev host : Ipv6Address
host = record { low = 258; high = 2306139568115548160 }

abbrev later : List Entry
later = port 443 src_port ∷ ipv4 16843009 src_ip ∷ []

port_runs : (insert hash hash_word (opened table 3 5) (port 80 src_port)).1 ≡ true
unfolding BitMap.create insert_port port_offset set_rows set get_byte_index get_bit_index
port_runs = refl

ipv4_runs : (insert hash hash_word (opened table 3 5) (ipv4 3232235777 src_ip)).1 ≡ true
unfolding BitMap.create insert_ipv4 ipv4_offset ipv4_rows ipv4_blooms ipv4_bloom bloom_rows
    hash_function set_rows set get_byte_index get_bit_index bytes_of
ipv4_runs = refl

ipv6_runs : (insert hash hash_word (opened table 3 5) (ipv6 host dst_ipv6)).1 ≡ true
unfolding BitMap.create insert_ipv6 ipv6_offset ipv6_rows ipv6_blooms ipv6_bloom bloom_rows
    hash_function set_rows set get_byte_index get_bit_index byte6_of shift_right bytes_of
ipv6_runs = refl

insert-lookup_example :
    lookup hash hash_word
      (insert_all hash hash_word
        (insert hash hash_word (opened table 3 5) (port 80 src_port)).0
        later)
      (port 80 src_port)
    ≡ true
insert-lookup_example =
    insert-lookup hash hash_word 3 5 (port 80 src_port) later table-IsValid port_runs

insert-get_ipv4_prefix_example :
    get_ipv4_prefix hash hash_word
      (insert_all hash hash_word
        (insert hash hash_word (opened table 3 5) (ipv4 3232235777 src_ip)).0
        later)
      3232235777
      src_ip
      3
    ≡ true
insert-get_ipv4_prefix_example =
    insert-get_ipv4_prefix hash hash_word 3 5 3232235777 src_ip 3 later (omega arith) table-IsValid
      ipv4_runs

insert-get_ipv6_prefix_example :
    get_ipv6_prefix hash hash_word
      (insert_all hash hash_word
        (insert hash hash_word (opened table 3 5) (ipv6 host dst_ipv6)).0
        later)
      host
      dst_ipv6
      6
    ≡ true
insert-get_ipv6_prefix_example =
    insert-get_ipv6_prefix hash hash_word 3 5 host dst_ipv6 6 later (omega arith) table-IsValid
      ipv6_runs
