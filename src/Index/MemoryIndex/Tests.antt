-- ===== src/Index/MemoryIndex/Tests.antt =====
-- A new index, and a flow of IPv4 from 192.168.0.2, port 8000, to 192.168.0.1, port 443.
use di_traffic_database.Common.{
  ℕ, ◌%◌, ◌/◌, ◌^◌, Bool, true, false, Option, none, some, List, [], ◌∷◌, ◌++◌, ◌≡◌, ◌⊎◌, refl,
}
use di_traffic_database.DataNode.Text.{Str}
use di_traffic_database.Index.BitMap
use di_traffic_database.Index.BitMap.{BitMap, get_byte_index, get_bit_index}
use di_traffic_database.Index.BloomFilter
use di_traffic_database.Index.SkipList
use di_traffic_database.Index.SkipList.KeyTypes.{number_of}
use di_traffic_database.DataNode.Sst.{bytes_of}
use di_traffic_database.Index.SkipList.{
  insert_at, climb, random_level, new_node, get_next, put_next, link, link_levels, compare_node_key,
  is_less, advance, descend,
}
use di_traffic_database.Index.BloomFilter.{
  set_writing_col, set_reading_col, insert_port, insert_ipv4, port_offset, ipv4_offset, ipv4_rows,
  ipv4_blooms, ipv4_bloom, bloom_rows, hash_function, set_rows,
}
use di_traffic_database.Index.BloomFilter.{
  IndexType, src_ip, dst_ip, src_port, dst_port, src_ipv6, dst_ipv6,
}
use di_traffic_database.Index.Tests.{table, table-IsValid, hash, hash_word}
use di_traffic_database.Index.MemoryIndex.{
  MemoryIndex, create, Part, parts_of, insert_part, insert_parts, insert_index, search_index,
}
use di_traffic_database.Index.MemoryIndex.Contents.{
  Contents, added_all, IsIndex, create-IsIndex, RefusedBy, insert_parts-IsIndex,
}
use di_traffic_database.Index.MemoryIndex.Search.{matching, parts_of-Fits, search_index-matching}

abbrev pub flow : Str
flow = 187 ∷ 1 ∷ 64 ∷ 31 ∷ 1 ∷ 0 ∷ 168 ∷ 192 ∷ 2 ∷ 0 ∷ 168 ∷ 192 ∷ []

abbrev no_entries : Contents
no_entries type = []

abbrev pub rand : IndexType → ℕ → ℕ
rand type i = 6 / 2 ^ i % 2

abbrev pub new_index : MemoryIndex
new_index = create table 3

new_index-IsIndex : IsIndex hash hash_word 2 3 new_index table no_entries
new_index-IsIndex = create-IsIndex hash hash_word 3 table-IsValid

abbrev index_or : Option (MemoryIndex × Bool) → MemoryIndex
index_or none = new_index
index_or (some (index, done)) = index

abbrev pub stored : MemoryIndex
stored = index_or (insert_index hash hash_word rand new_index flow 77)

-- The filter takes all four fields.
pub flow_runs : insert_index hash hash_word rand new_index flow 77 ≡ some (stored, true)
unfolding insert_index insert_parts insert_part parts_of create BitMap.create BitMap.set
    get_byte_index get_bit_index BloomFilter.create set_writing_col set_reading_col insert_port
    insert_ipv4 port_offset ipv4_offset ipv4_rows ipv4_blooms ipv4_bloom bloom_rows hash_function
    set_rows bytes_of number_of SkipList.insert SkipList.create insert_at climb random_level
    new_node get_next put_next link link_levels compare_node_key is_less advance descend
flow_runs = refl

insert_parts-IsIndex_example :
    (index' : MemoryIndex) × (done : Bool) × (m' : BitMap) × (inserted : List Part)
    × (refused : List Part) × (insert_parts hash hash_word rand new_index (parts_of flow) 77
        ≡ some (index', done))
    × (parts_of flow ≡ inserted ++ refused)
    × IsIndex hash hash_word 2 3 index' m' (added_all no_entries inserted 77)
    × (((done ≡ true) × (refused ≡ []))
        ⊎ ((done ≡ false)
            × ((p : Part) × (rest : List Part) × (index₁ : MemoryIndex) × (refused ≡ p ∷ rest)
                × (insert_parts hash hash_word rand new_index inserted 77 ≡ some (index₁, true))
                × RefusedBy hash hash_word 2 3 index₁ p)))
insert_parts-IsIndex_example =
    insert_parts-IsIndex hash hash_word 2 3 rand new_index (parts_of flow) 77 no_entries
      new_index-IsIndex (parts_of-Fits flow)

search_index-matching_example :
    search_index hash hash_word new_index src_port (80 ∷ 0 ∷ [])
    ≡ some (matching no_entries src_port (80 ∷ 0 ∷ []))
search_index-matching_example =
    search_index-matching hash hash_word 2 3 new_index src_port (80 ∷ 0 ∷ []) no_entries
      new_index-IsIndex refl
