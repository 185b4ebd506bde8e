-- ===== src/Index/MemoryIndex/Search.antt =====
-- A search in the index is a search in its contents: the filter hides nothing.
use di_traffic_database.Common.{
  length-take, length-drop, take, drop, ℕ, ◌+◌, ◌%◌, ◌^◌, ◌≤◌, Bool, false, Option, none, some,
  List, [], ◌∷◌, ◌≡◌, refl, ap, ◌∙◌, sym, inl, inr, arith, ltb, ◌==◌, Bool-cases, length,
}
use di_traffic_database.DataNode.Text.{Str}
use di_traffic_database.Index.BitMap.{BitMap}
use di_traffic_database.Index.BloomFilter.{IndexType}
use di_traffic_database.Index.BloomFilter.Lookups.{opened, lookup, Seen-lookup}
use di_traffic_database.Index.SkipList.Towers.{All, All-mono}
use di_traffic_database.Index.SkipList.Collected.{positions}
use di_traffic_database.Index.SkipList.Find.{find_by_key-positions}
use di_traffic_database.Index.SkipList.KeyTypes.Laws.{key_type-IsTotalOrder, take_all}
use di_traffic_database.Index.MemoryIndex.{
  keys_of, class_of_type, MemoryIndex, entry, Part, parts_of, search_index,
}
use di_traffic_database.Index.MemoryIndex.Contents.{Contents, Fits, KnownKey, IsIndex}

positions_none :
    {K : Type 0} (p : K → Bool) (es : List (K × ℕ))
    → All (λ e. p e.0 ≡ false) es
    → positions p es ≡ []
positions_none p [] h = refl
positions_none p (e ∷ es) h = rw h.0 (positions_none p es h.1)

-- The keys that an entry of the contents has.
abbrev pub matching : Contents → (type : IndexType) → Str → List ℕ
matching cs type key =
    positions (λ x. (keys_of type).order.eq x ((keys_of type).read key)) (cs type)

field_size :
    (key : Str) (offset n : ℕ) → offset + n ≤ length key → length (take n (drop offset key)) ≡ n
field_size key offset n h =
    length-take n (drop offset key) (omega (arith, length-drop offset key (omega arith)))

pub parts_of-Fits : (key : Str) → All Fits (parts_of key)
unfolding parts_of
parts_of-Fits key = elim (Bool-cases (length key == 12)) [
  | inl e ↦
      let size : length key ≡ 12 = ground arith in
      rw e (
        field_size key 8 4 (omega (arith, size)),
        (
          field_size key 4 4 (omega (arith, size)),
          (
            field_size key 2 2 (omega (arith, size)),
            (field_size key 0 2 (omega (arith, size)), tt),
          ),
        ),
      )
  | inr e ↦ elim (Bool-cases (length key == 40)) [
    | inl f ↦
        let size : length key ≡ 40 = ground arith in
        rw (e, f)
          (
            field_size key 24 16 (omega (arith, size)),
            (
              field_size key 8 16 (omega (arith, size)),
              (
                field_size key 2 2 (omega (arith, size)),
                (field_size key 0 2 (omega (arith, size)), tt),
              ),
            ),
          )
    | inr f ↦ rw (e, f) tt
  ]
]

module _ (hash : Str → ℕ) (hash_word : ℕ → ℕ) (width k : ℕ) where
  -- A search for a key of the right length gives the positions of exactly the entries with that key: the
  -- filter never hides an entry.
  pub search_index-matching :
      (index : MemoryIndex) (type : IndexType) (key : Str) {m : BitMap} (cs : Contents)
      → IsIndex hash hash_word width k index m cs
      → length key ≡ (keys_of type).size
      → search_index hash hash_word index type key ≡ some (matching cs type key)
  unfolding search_index
  search_index-matching index type key {m} cs i fits =
      let t = keys_of type in
      let o = key_type-IsTotalOrder (λ k. []) (class_of_type type) in
      let long_enough : ltb (length key) t.size ≡ false = ground arith in
      let whole : take t.size key ≡ key = take_all t.size key fits in
      let same = ap (λ f. lookup hash hash_word f (entry type (t.read key))) i.bloom in
      elim (Bool-cases (lookup hash hash_word index.bloom (entry type (t.read key)))) [
        | inl seen ↦
            rw (search_index, long_enough, whole, seen)
              (find_by_key-positions t (index.lists type) key (cs type) o (i.lists type) fits)
        | inr unseen ↦
            rw (search_index, long_enough, whole, unseen)
              (ap some (
                sym (
                  positions_none (λ x. t.order.eq x (t.read key)) (cs type)
                    (All-mono (λ e. KnownKey hash hash_word width k m type e.0)
                      (λ e. t.order.eq e.0 (t.read key) ≡ false) (cs type)
                      (λ e (offset, placed, known).
                        elim (Bool-cases (t.order.eq e.0 (t.read key))) [
                          | inr other ↦ other
                          | inl equal ↦
                              let found =
                                Seen-lookup hash hash_word m k 0 (entry type e.0) offset placed
                                  known in
                              let same_key =
                                ap (λ x. lookup hash hash_word (opened m k 0) (entry type x))
                                  ((o.equality e.0 (t.read key)).0 equal) in
                              equal ∙ sym found ∙ same_key ∙ sym same ∙ unseen
                        ])
                      (i.known type)))))
      ]

  abbrev FoundIn : MemoryIndex → ℕ → Contents → Part → Type 0
  FoundIn index position cs p =
      search_index hash hash_word index p.type p.bytes
      ≡ some ((position % 2 ^ 32) ∷ matching cs p.type p.bytes)

  index_or : MemoryIndex → Option (MemoryIndex × Bool) → MemoryIndex
  index_or index none = index
  index_or index (some (index', done)) = index'

  done_or : Option (MemoryIndex × Bool) → Bool
  done_or none = false
  done_or (some (index', done)) = done
