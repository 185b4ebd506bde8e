-- ===== src/Index/MemoryIndex/Contents.antt =====
-- The entries that an index stands for, and what inserting a flow adds to them.
use di_traffic_database.Common.{
  ℕ, ◌*◌, ◌<◌, Bool, true, false, some, List, [], ◌∷◌, ◌++◌, ◌≡◌, refl, ap, ◌∙◌, ◌⊎◌, inl, inr,
  arith, ltb, Bool-cases, length, max64,
}
use di_traffic_database.DataNode.Text.{Str}
use di_traffic_database.Index.BitMap.{BitMap}
use di_traffic_database.Index.BitMap.Bits
use di_traffic_database.Index.BloomFilter
use di_traffic_database.Index.BloomFilter.{
  set_writing_col, set_reading_col, IndexType, src_ip, dst_ip, src_port, dst_port, src_ipv6,
  dst_ipv6,
}
use di_traffic_database.Index.BloomFilter.Members.{Seen, Grown, Seen-Grown}
use di_traffic_database.Index.BloomFilter.Lookups.{
  opened, insert, offset_of, rows_of, insert-Grown, insert-Seen,
}
use di_traffic_database.Index.SkipList.Towers.{All, All-mono}
use di_traffic_database.Index.SkipList.Valid.{Represents, create-Represents, insert_entry}
use di_traffic_database.Index.SkipList.Insert.{insert_refines}
use di_traffic_database.Index.SkipList.KeyTypes.Laws.{key_type-IsTotalOrder}
use di_traffic_database.Index.MemoryIndex.{
  KeyOf, keys_of, class_of_type, MemoryIndex, put_list, entry, Part, insert_part, insert_parts,
  create,
}

-- The entries of each list.
abbrev pub Contents : Type 0
Contents = (type : IndexType) → List (KeyOf type × ℕ)

-- The fields have the length of a key of their list.
abbrev pub Fits : Part → Type 0
Fits p = length p.bytes ≡ (keys_of p.type).size

abbrev pub added : Contents → Part → ℕ → Contents
added cs p position =
    put_list cs p.type
      (insert_entry (keys_of p.type) ((keys_of p.type).read p.bytes) position (cs p.type))

abbrev pub added_all : Contents → List Part → ℕ → Contents
added_all cs [] position = cs
added_all cs (p ∷ parts) position = added_all (added cs p position) parts position

-- What holds of every list, and of the one that is put, holds after it is put.
put_list-every :
    {A B : IndexType → Type 0} (P : (type : IndexType) → A type → B type → Type 0)
    (as' : (type : IndexType) → A type) (bs : (type : IndexType) → B type) (type : IndexType)
    {a : A type} {b : B type}
    → ((type' : IndexType) → P type' (as' type') (bs type'))
    → P type a b
    → (type' : IndexType) → P type' (put_list as' type a type') (put_list bs type b type')
put_list-every P as' bs src_ip h k src_ip = k
put_list-every P as' bs src_ip h k other = h other
put_list-every P as' bs dst_ip h k dst_ip = k
put_list-every P as' bs dst_ip h k other = h other
put_list-every P as' bs src_port h k src_port = k
put_list-every P as' bs src_port h k other = h other
put_list-every P as' bs dst_port h k dst_port = k
put_list-every P as' bs dst_port h k other = h other
put_list-every P as' bs src_ipv6 h k src_ipv6 = k
put_list-every P as' bs src_ipv6 h k other = h other
put_list-every P as' bs dst_ipv6 h k dst_ipv6 = k
put_list-every P as' bs dst_ipv6 h k other = h other

module _ (hash : Str → ℕ) (hash_word : ℕ → ℕ) (width k : ℕ) where
  -- The filter has seen the key.
  abbrev pub KnownKey : BitMap → (type : IndexType) → KeyOf type → Type 0
  KnownKey m type key =
      (o : ℕ) × (offset_of hash hash_word (entry type key) ≡ some o)
      × Seen m 0 (rows_of hash hash_word k (entry type key) o)

  abbrev pub Known : BitMap → (type : IndexType) → List (KeyOf type × ℕ) → Type 0
  Known m type es = All (λ e. KnownKey m type e.0) es

  -- The lists are valid and stand for the contents, and the filter on the bitmap `m` has seen every key.
  pub record IsIndex (index : MemoryIndex) (m : BitMap) (cs : Contents) : Type 0 where
    pub bloom : index.bloom ≡ opened m k 0
    pub bitmap : Bits.IsValid width m
    pub lists : (type : IndexType) → Represents (keys_of type) (index.lists type) (cs type)
    pub known : (type : IndexType) → Known m type (cs type)

  Known-Grown :
      {m m' : BitMap} (type : IndexType) (es : List (KeyOf type × ℕ))
      → Grown width m m'
      → Known m type es
      → Known m' type es
  Known-Grown {m} {m'} type es g h =
      All-mono (λ e. KnownKey m type e.0) (λ e. KnownKey m' type e.0) es
        (λ e (o, placed, seen).
          (o, placed, Seen-Grown 0 (rows_of hash hash_word k (entry type e.0) o) g seen))
        h

  Known-insert_entry :
      (m : BitMap) (type : IndexType) (key : KeyOf type) (position : ℕ) (es : List (KeyOf type × ℕ))
      → KnownKey m type key
      → Known m type es
      → Known m type (insert_entry (keys_of type) key position es)
  Known-insert_entry m type key position [] known h = (known, tt)
  Known-insert_entry m type key position (e ∷ es) known h =
      elim (Bool-cases ((keys_of type).order.lt e.0 key)) [
        | inl before ↦ rw before (h.0, Known-insert_entry m type key position es known h.1)
        | inr here ↦ rw here (known, h)
      ]

  -- The filter of the index refuses the field.
  abbrev pub RefusedBy : MemoryIndex → Part → Type 0
  RefusedBy index p =
      (insert hash hash_word index.bloom (entry p.type ((keys_of p.type).read p.bytes))).1 ≡ false

  insert_part_lem :
      (rand : ℕ → ℕ) (index : MemoryIndex) (p : Part) (position : ℕ) {m : BitMap} (cs : Contents)
      → IsIndex index m cs
      → Fits p
      → ((index' : MemoryIndex) × (m' : BitMap) × (insert_part hash hash_word rand index p position
            ≡ some (index', true))
          × IsIndex index' m' (added cs p position))
        ⊎ ((index' : MemoryIndex) × (m' : BitMap) × (insert_part hash hash_word rand index p
                position
              ≡ some (index', false))
            × IsIndex index' m' cs
            × RefusedBy index p)
  unfolding insert_part
  insert_part_lem rand index p position {m} cs i fits =
      let key = (keys_of p.type).read p.bytes in
      let e = entry p.type key in
      let same = ap (λ f. insert hash hash_word f e) i.bloom in
      elim (Bool-cases (insert hash hash_word (opened m k 0) e).1) [
        | inr refused ↦
            let (m', unchanged, grown) = insert-Grown hash hash_word k 0 e i.bitmap in
            inr (
              record index { bloom = (insert hash hash_word index.bloom e).0 },
              m',
              rw (insert_part, ap (λ x. x.1) same ∙ refused),
              record {
                bloom = ap (λ x. x.0) same ∙ unchanged;
                bitmap = grown.valid;
                lists = i.lists;
                known = λ type. Known-Grown type (cs type) grown (i.known type);
              },
              ap (λ x. x.1) same ∙ refused,
            )
        | inl accepted ↦
            let (m', o, changed, grown, placed, seen) =
              insert-Seen hash hash_word k 0 e i.bitmap accepted in
            let (xs, v, es) = i.lists p.type in
            let (list, inserts, represents) =
              insert_refines (keys_of p.type) rand (index.lists p.type) p.bytes position max64
                (cs p.type) (key_type-IsTotalOrder (λ k. []) (class_of_type p.type))
                (i.lists p.type) fits (omega (arith, v.counted)) in
            inl (
              record {
                bloom = (insert hash hash_word index.bloom e).0;
                lists = put_list index.lists p.type list;
              },
              m',
              rw (insert_part, ap (λ x. x.1) same ∙ accepted, inserts),
              record {
                bloom = ap (λ x. x.0) same ∙ changed;
                bitmap = grown.valid;
                lists =
                    put_list-every (λ type l es. Represents (keys_of type) l es) index.lists cs
                      p.type i.lists represents;
                known =
                    put_list-every (λ type l es. Known m' type es) index.lists cs p.type {a = list}
                      (λ type. Known-Grown type (cs type) grown (i.known type))
                      (Known-insert_entry m' p.type key position (cs p.type) (o, placed, seen)
                        (Known-Grown p.type (cs p.type) grown (i.known p.type)));
              },
            )
      ]

  -- Inserting fields never fails without a result: some first fields are inserted, each into its list and
  -- the filter, and the rest are not. Either there is no rest, and the result is true; or the result is
  -- false, and the filter, as the insertion of the first fields leaves it, refuses the next field. The
  -- index is valid, and the fields have the lengths of their lists' keys.
  pub insert_parts-IsIndex :
      (rand : IndexType → ℕ → ℕ) (index : MemoryIndex) (parts : List Part) (position : ℕ)
      {m : BitMap} (cs : Contents)
      → IsIndex index m cs
      → All Fits parts
      → (index' : MemoryIndex) × (done : Bool) × (m' : BitMap) × (inserted : List Part)
        × (refused : List Part) × (insert_parts hash hash_word rand index parts position
            ≡ some (index', done))
        × (parts ≡ inserted ++ refused)
        × IsIndex index' m' (added_all cs inserted position)
        × (((done ≡ true) × (refused ≡ []))
            ⊎ ((done ≡ false)
                × ((p : Part) × (rest : List Part) × (index₁ : MemoryIndex) × (refused ≡ p ∷ rest)
                    × (insert_parts hash hash_word rand index inserted position
                        ≡ some (index₁, true))
                    × RefusedBy index₁ p)))
  unfolding insert_parts
  insert_parts-IsIndex rand index [] position {m} cs i fit =
      (index, true, m, [], [], refl, refl, i, inl (refl, refl))
  insert_parts-IsIndex rand index (p ∷ parts) position cs i fit =
      elim (insert_part_lem (rand p.type) index p position cs i fit.0) [
        | inr (index', m', refuses, i', by_filter) ↦ (
          index',
          false,
          m',
          [],
          p ∷ parts,
          rw (insert_parts, refuses),
          refl,
          i',
          inr (refl, (p, parts, index, refl, refl, by_filter)),
        )
        | inl (index₁, m₁, inserts, i₁) ↦
            let (index', done, m', inserted, refused, rest, split, i', all) =
              insert_parts-IsIndex rand index₁ parts position (added cs p position) i₁ fit.1 in
            (
              index',
              done,
              m',
              p ∷ inserted,
              refused,
              rw (insert_parts, inserts) rest,
              ap (λ l. p ∷ l) split,
              i',
              elim all [
                | inl whole ↦ inl whole
                | inr (not_done, (q, after, index₂, same, first, by_filter)) ↦ inr (
                  not_done,
                  (q, after, index₂, same, rw (insert_parts, inserts) first, by_filter),
                )
              ],
            )
      ]

some_levels : (type : IndexType) → 0 < (keys_of type).size * 8
some_levels src_ip = omega arith
some_levels dst_ip = omega arith
some_levels src_port = omega arith
some_levels dst_port = omega arith
some_levels src_ipv6 = omega arith
some_levels dst_ipv6 = omega arith

module _ (hash : Str → ℕ) (hash_word : ℕ → ℕ) where
  -- A new index on a valid table is empty.
  pub create-IsIndex :
      {width : ℕ} {m : BitMap} (k : ℕ)
      → Bits.IsValid width m
      → IsIndex hash hash_word width k (create m k) m (λ type. [])
  unfolding create set_writing_col set_reading_col BloomFilter.create
  create-IsIndex {m} k v =
      let column : ltb 0 m.col_count ≡ true = ground arith in
      record {
        bloom = ground (arith, column);
        bitmap = v;
        lists =
            λ type. create-Represents (keys_of type) ((keys_of type).size * 8) 8 (some_levels type);
        known = λ type. tt;
      }
