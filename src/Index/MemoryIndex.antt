-- ===== src/Index/MemoryIndex.antt =====
-- src-old/lib/memoryIndex.hpp: six skip lists, one for each kind of key of a flow, behind a Bloom filter.
pub mod Contents
pub mod Search
pub mod Tests
use di_traffic_database.Common.{
  take, drop, ℕ, ◌*◌, ◌-◌, ◌^◌, Bool, true, false, ◌==◌, Option, none, some, List, [], ◌∷◌,
  if◌then◌else◌, ltb, length, max64,
}
use di_traffic_database.DataNode.Text.{Str}
use di_traffic_database.Index.BitMap.{BitMap}
use di_traffic_database.Index.BloomFilter
use di_traffic_database.Index.BloomFilter.{
  IndexType, BloomFilter, src_ip, dst_ip, src_port, dst_port, src_ipv6, dst_ipv6,
}
use di_traffic_database.Index.BloomFilter.Lookups.{Entry, port, ipv4, ipv6, insert, lookup}
use di_traffic_database.Index.SkipList
use di_traffic_database.Index.SkipList.{KeyType, SkipList}
use di_traffic_database.Index.SkipList.KeyTypes.{KeyClass, u16, u32, Key, key_type}

-- The key class of each list.
abbrev pub class_of_type : IndexType → KeyClass
class_of_type src_ip = u32
class_of_type dst_ip = u32
class_of_type src_port = u16
class_of_type dst_port = u16
class_of_type src_ipv6 = KeyClass.ipv6
class_of_type dst_ipv6 = KeyClass.ipv6

abbrev pub KeyOf : IndexType → Type 0
KeyOf type = Key (class_of_type type)

-- None of these classes has bytes between its fields.
abbrev pub keys_of : (type : IndexType) → KeyType (KeyOf type)
keys_of type = key_type (λ k. []) (class_of_type type)

abbrev pub Lists : Type 0
Lists = (type : IndexType) → SkipList (KeyOf type)

pub record MemoryIndex : Type 0 where
  pub bloom : BloomFilter
  pub lists : Lists

abbrev pub put_list :
    {A : IndexType → Type 0}
    → ((type : IndexType) → A type)
    → (type : IndexType) → A type
    → (type' : IndexType) → A type'
put_list lists src_ip l src_ip = l
put_list lists src_ip l other = lists other
put_list lists dst_ip l dst_ip = l
put_list lists dst_ip l other = lists other
put_list lists src_port l src_port = l
put_list lists src_port l other = lists other
put_list lists dst_port l dst_port = l
put_list lists dst_port l other = lists other
put_list lists src_ipv6 l src_ipv6 = l
put_list lists src_ipv6 l other = lists other
put_list lists dst_ipv6 l dst_ipv6 = l
put_list lists dst_ipv6 l other = lists other

-- What the filter is asked about a key.
abbrev pub entry : (type : IndexType) → KeyOf type → Entry
entry src_ip key = ipv4 key src_ip
entry dst_ip key = ipv4 key dst_ip
entry src_port key = port key src_port
entry dst_port key = port key dst_port
entry src_ipv6 key = ipv6 key src_ipv6
entry dst_ipv6 key = ipv6 key dst_ipv6

-- A list with eight levels for each byte of its keys.
unfoldable pub create : BitMap → ℕ → MemoryIndex
create bitmap k = record {
  bloom =
      BloomFilter.set_reading_col (BloomFilter.set_writing_col (BloomFilter.create bitmap k) 0) 0;
  lists = λ type. SkipList.create (keys_of type) ((keys_of type).size * 8) 8;
}

-- A field of a flow's key: which list it goes to, and its bytes.
pub record Part : Type 0 where
  pub type : IndexType
  pub bytes : Str

abbrev pub part : IndexType → Str → Part
part type bytes = record { type = type; bytes = bytes }

-- The fields of a key that is as long as `QuarTurpleIPv4` or `QuarTurpleIPv6`, in the order in which they
-- are inserted.
unfoldable pub parts_of : Str → List Part
parts_of key =
    if length key == 12
    then part src_ip (take 4 (drop 8 key))
      ∷ part dst_ip (take 4 (drop 4 key))
      ∷ part src_port (take 2 (drop 2 key))
      ∷ part dst_port (take 2 key)
      ∷ []
    else if length key == 40
    then part src_ipv6 (take 16 (drop 24 key))
      ∷ part dst_ipv6 (take 16 (drop 8 key))
      ∷ part src_port (take 2 (drop 2 key))
      ∷ part dst_port (take 2 key)
      ∷ []
    else []

module _ (hash : Str → ℕ) (hash_word : ℕ → ℕ) where
  -- One field: first into the filter; if that fails, the method returns.
  unfoldable pub insert_part : (ℕ → ℕ) → MemoryIndex → Part → ℕ → Option (MemoryIndex × Bool)
  insert_part rand index p position =
      let (bloom, seen) =
        insert hash hash_word index.bloom (entry p.type ((keys_of p.type).read p.bytes)) in
      elim seen [
        | false ↦ some (record index { bloom = bloom }, false)
        | true ↦
            elim (SkipList.insert (keys_of p.type) rand (index.lists p.type) p.bytes position
              max64) [
                | none ↦ none
                | some (list, done) ↦
                    some (record { bloom = bloom; lists = put_list index.lists p.type list }, true)
              ]
      ]

  -- The chain of the fields, and whether all were inserted; `rand type` is what the list of that type
  -- draws.
  unfoldable pub insert_parts :
      (IndexType → ℕ → ℕ) → MemoryIndex → List Part → ℕ → Option (MemoryIndex × Bool)
  insert_parts rand index [] position = some (index, true)
  insert_parts rand index (p ∷ parts) position = elim (insert_part (rand p.type) index p position) [
    | none ↦ none
    | some (index', false) ↦ some (index', false)
    | some (index', true) ↦ insert_parts rand index' parts position
  ]

  unfoldable pub insert_index :
      (IndexType → ℕ → ℕ) → MemoryIndex → Str → ℕ → Option (MemoryIndex × Bool)
  insert_index rand index key position = insert_parts rand index (parts_of key) position

  -- A key that is shorter than the number that is read from it is a fault.
  unfoldable pub search_index : MemoryIndex → IndexType → Str → Option (List ℕ)
  search_index index type key =
      if ltb (length key) (keys_of type).size
      then none
      else if lookup hash hash_word index.bloom
          (entry type ((keys_of type).read (take (keys_of type).size key)))
      then SkipList.find_by_key (keys_of type) (index.lists type) key
      else some []
