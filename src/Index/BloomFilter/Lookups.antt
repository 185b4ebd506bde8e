-- ===== src/Index/BloomFilter/Lookups.antt =====
-- No false negatives, for ports and addresses and for prefixes of addresses.
use di_traffic_database.Common.{
  ℕ, ◌+◌, Bool, true, false, Option, none, some, List, [], ◌∷◌, ◌≡◌, ◌≢◌, refl, ap, ◌∙◌,
}
use di_traffic_database.DataNode.Text.{Str}
use di_traffic_database.Index.BitMap.{BitMap}
use di_traffic_database.Index.BitMap.Bits.{IsValid}
use di_traffic_database.Index.BloomFilter.{
  IndexType, Ipv6Address, BloomFilter, with_rows, port_offset, ipv4_offset, ipv6_offset, ipv4_rows,
  ipv6_rows, insert_port, insert_ipv4, insert_ipv6, get_port, get_ipv4, get_ipv6,
}
use di_traffic_database.Index.BloomFilter.Members.{
  Seen, Grown, Grown-trans, Seen-Grown, set_rows-Grown, set_rows-Seen, Seen-get_rows,
}

-- A filter that reads the column that it writes.
abbrev pub opened : BitMap → ℕ → ℕ → BloomFilter
opened m k col = record { bitmap = some m; k = k; writing_col = col; reading_col = col }

pub data Entry : Type 0 where
  port : ℕ → IndexType → Entry
  ipv4 : ℕ → IndexType → Entry
  ipv6 : Ipv6Address → IndexType → Entry

-- The filter after a call that sets the rows of an entry.
with_rows-Grown :
    {width : ℕ} {m : BitMap} (k col : ℕ) (offset : Option ℕ) (rows : ℕ → List ℕ)
    → IsValid width m
    → (m' : BitMap) × ((with_rows (opened m k col) offset rows).0 ≡ opened m' k col)
      × Grown width m m'
with_rows-Grown {m = m} k col none rows v = (m, refl, record { valid = v; kept = λ row col' h. h })
with_rows-Grown {m = m} k col (some o) rows v = (_, refl, set_rows-Grown col (rows o) v)

with_rows-Seen :
    {width : ℕ} {m : BitMap} (k col : ℕ) (offset : Option ℕ) (rows : ℕ → List ℕ)
    → IsValid width m
    → (with_rows (opened m k col) offset rows).1 ≡ true
    → (m' : BitMap) × (o : ℕ) × ((with_rows (opened m k col) offset rows).0 ≡ opened m' k col)
      × Grown width m m'
      × (offset ≡ some o)
      × Seen m' col (rows o)
with_rows-Seen k col none rows v e = absurd (false-ne-true e)
  where
    false-ne-true : false ≢ true
    false-ne-true h = cc
with_rows-Seen {m = m} k col (some o) rows v e =
    (_, o, refl, set_rows-Grown col (rows o) v, refl, set_rows-Seen col (rows o) v e)

module _ (hash : Str → ℕ) (hash_word : ℕ → ℕ) where
  abbrev pub insert : BloomFilter → Entry → BloomFilter × Bool
  insert f (port n type) = insert_port f n type
  insert f (ipv4 ip type) = insert_ipv4 hash hash_word f ip type
  insert f (ipv6 ip type) = insert_ipv6 hash hash_word f ip type

  abbrev pub lookup : BloomFilter → Entry → Bool
  lookup f (port n type) = get_port f n type
  lookup f (ipv4 ip type) = get_ipv4 hash hash_word f ip type
  lookup f (ipv6 ip type) = get_ipv6 hash hash_word f ip type

  abbrev pub insert_all : BloomFilter → List Entry → BloomFilter
  insert_all f [] = f
  insert_all f (e ∷ entries) = insert_all (insert f e).0 entries

  pub insert-Grown :
      {width : ℕ} {m : BitMap} (k col : ℕ) (e : Entry)
      → IsValid width m
      → (m' : BitMap) × ((insert (opened m k col) e).0 ≡ opened m' k col) × Grown width m m'
  unfolding insert_port insert_ipv4 insert_ipv6
  insert-Grown k col (port n type) v = with_rows-Grown k col (port_offset type) _ v
  insert-Grown k col (ipv4 ip type) v = with_rows-Grown k col (ipv4_offset type) _ v
  insert-Grown k col (ipv6 ip type) v = with_rows-Grown k col (ipv6_offset type) _ v

  pub insert_all-Grown :
      {width : ℕ} (k col : ℕ) (entries : List Entry) {m : BitMap}
      → IsValid width m
      → (m' : BitMap) × (insert_all (opened m k col) entries ≡ opened m' k col) × Grown width m m'
  insert_all-Grown k col [] {m = m} v = (m, refl, record { valid = v; kept = λ row col' h. h })
  insert_all-Grown k col (e ∷ entries) v =
      let (m₁, first, grown) = insert-Grown k col e v in
      let (m', rest, others) = insert_all-Grown k col entries grown.valid in
      (m', ap (λ f. insert_all f entries) first ∙ rest, Grown-trans grown others)

  -- The rows and the offset of an entry.
  abbrev pub offset_of : Entry → Option ℕ
  offset_of (port n type) = port_offset type
  offset_of (ipv4 ip type) = ipv4_offset type
  offset_of (ipv6 ip type) = ipv6_offset type

  abbrev pub rows_of : ℕ → Entry → ℕ → List ℕ
  rows_of k (port n type) o = (o + n) ∷ []
  rows_of k (ipv4 ip type) o = ipv4_rows hash hash_word k ip o
  rows_of k (ipv6 ip type) o = ipv6_rows hash hash_word k ip o

  pub insert-Seen :
      {width : ℕ} {m : BitMap} (k col : ℕ) (e : Entry)
      → IsValid width m
      → (insert (opened m k col) e).1 ≡ true
      → (m' : BitMap) × (o : ℕ) × ((insert (opened m k col) e).0 ≡ opened m' k col)
        × Grown width m m'
        × (offset_of e ≡ some o)
        × Seen m' col (rows_of k e o)
  unfolding insert_port insert_ipv4 insert_ipv6
  insert-Seen k col (port n type) v done = with_rows-Seen k col (port_offset type) _ v done
  insert-Seen k col (ipv4 ip type) v done = with_rows-Seen k col (ipv4_offset type) _ v done
  insert-Seen k col (ipv6 ip type) v done = with_rows-Seen k col (ipv6_offset type) _ v done

  pub Seen-lookup :
      (m : BitMap) (k col : ℕ) (e : Entry) (o : ℕ)
      → offset_of e ≡ some o
      → Seen m col (rows_of k e o)
      → lookup (opened m k col) e ≡ true
  unfolding get_port get_ipv4 get_ipv6
  Seen-lookup m k col (port n type) o placed h = rw (get_port, placed) (h.0)
  Seen-lookup m k col (ipv4 ip type) o placed h = rw (get_ipv4, placed) (Seen-get_rows m col _ h)
  Seen-lookup m k col (ipv6 ip type) o placed h = rw (get_ipv6, placed) (Seen-get_rows m col _ h)

  -- A port or address that was inserted with success into a filter on a valid bitmap is found in the
  -- same column, whatever else is inserted later.
  pub insert-lookup :
      {width : ℕ} {m : BitMap} (k col : ℕ) (e : Entry) (later : List Entry)
      → IsValid width m
      → (insert (opened m k col) e).1 ≡ true
      → lookup (insert_all (insert (opened m k col) e).0 later) e ≡ true
  insert-lookup k col e later v done =
      let (m₁, o, inserted, grown, placed, seen) = insert-Seen k col e v done in
      let (m', finished, others) = insert_all-Grown k col later grown.valid in
      ap (λ f. lookup f e) (ap (λ f. insert_all f later) inserted ∙ finished)
      ∙ Seen-lookup m' k col e o placed (Seen-Grown col (rows_of k e o) others seen)
