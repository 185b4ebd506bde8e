-- ===== src/Index/BloomFilter/Prefixes.antt =====
-- Lookups by a prefix find the addresses that were inserted.
use native.Mathlib.Nat.{mod-lt}
use di_traffic_database.Common.{
  ℕ, zero, suc, ◌+◌, ◌-◌, ◌*◌, ◌<◌, ◌≤◌, true, ◌==◌, ==_iff, List, [], ◌∷◌, ◌++◌, ◌≡◌, arith,
  Bool-cases, inl, inr, subst, ap, sym, ◌∙◌,
}
use di_traffic_database.DataNode.Text.{Str}
use di_traffic_database.Index.BitMap
use di_traffic_database.Index.BitMap.{BitMap}
use di_traffic_database.Index.BitMap.Bits.{IsValid}
use di_traffic_database.Index.BloomFilter.{
  IndexType, Ipv6Address, get_rows, any_row, byte_of, lower_row, ipv4_blooms, ipv4_rows,
  ipv6_blooms, ipv6_rows, check_ipv4_prefix, check_ipv6_prefix, get_ipv4_prefix, get_ipv6_prefix,
}
use di_traffic_database.Index.BloomFilter.Members.{Seen, Seen-Grown, Seen-get_rows}
use di_traffic_database.Index.BloomFilter.Lookups.{
  opened, Entry, ipv4, ipv6, insert, insert_all, insert-Seen, insert_all-Grown,
}

any_row-hit :
    (m : BitMap) (col first n i : ℕ)
    → i < n
    → BitMap.get m (first + i) col ≡ true
    → any_row m col first n ≡ true
unfolding any_row
any_row-hit m col first zero i h e = absurd (omega arith)
any_row-hit m col first (suc n) i h e = elim (Bool-cases (i == n)) [
  | inl same ↦
      let last : BitMap.get m (first + n) col ≡ true =
        subst (λ t. BitMap.get m (first + t) col ≡ true) ((==_iff i n).0 same) e in
      ground (arith, last)
  | inr other ↦ rw (any_row-hit m col first n i (ground arith) e)
]

Seen-left : (m : BitMap) (col : ℕ) (xs ys : List ℕ) → Seen m col (xs ++ ys) → Seen m col xs
Seen-left m col [] ys h = tt
Seen-left m col (x ∷ xs) ys h = (h.0, Seen-left m col xs ys h.1)

module _ (hash : Str → ℕ) (hash_word : ℕ → ℕ) where
  Seen-ipv4_blooms :
      (m : BitMap) (col k ip o levels more : ℕ)
      → Seen m col (ipv4_blooms hash hash_word k ip o (levels + more))
      → Seen m col (ipv4_blooms hash hash_word k ip o levels)
  unfolding ipv4_blooms
  Seen-ipv4_blooms m col k ip o levels zero h =
      subst (λ n. Seen m col (ipv4_blooms hash hash_word k ip o n)) {x = levels + 0} {y = levels}
        (omega arith) h
  Seen-ipv4_blooms m col k ip o levels (suc more) h = Seen-ipv4_blooms m col k ip o levels more (
      Seen-left m col (ipv4_blooms hash hash_word k ip o (levels + more)) _ (
        subst (λ n. Seen m col (ipv4_blooms hash hash_word k ip o n)) {x = levels + suc more}
          {y = suc (levels + more)} (omega arith) h))

  check_ipv4_prefix-hit :
      (m : BitMap) (col k ip o prefix_len : ℕ)
      → prefix_len ≤ 4
      → Seen m col (ipv4_rows hash hash_word k ip o)
      → check_ipv4_prefix hash hash_word m col k ip o prefix_len ≡ true
  unfolding check_ipv4_prefix ipv4_rows
  check_ipv4_prefix-hit m col k ip o prefix_len short (upper, (lower, blooms)) =
      let lower_pair : any_row m col (byte_of ip 1 * 256 + o + 65536) 256 ≡ true =
        any_row-hit m col (byte_of ip 1 * 256 + o + 65536) 256 (byte_of ip 0)
          (mod-lt _ (omega arith))
          (subst (λ t. BitMap.get m t col ≡ true) {x = lower_row ip o}
            {y = byte_of ip 1 * 256 + o + 65536 + byte_of ip 0} (omega arith) lower) in
      let levels : ipv4_blooms hash hash_word k ip o (prefix_len - 2 + (2 - (prefix_len - 2)))
          ≡ ipv4_blooms hash hash_word k ip o 2 =
        ap (ipv4_blooms hash hash_word k ip o) (omega arith) in
      let found : get_rows m col (ipv4_blooms hash hash_word k ip o (prefix_len - 2)) ≡ true =
        Seen-get_rows m col _ (
          Seen-ipv4_blooms m col k ip o (prefix_len - 2) (2 - (prefix_len - 2))
            (subst (Seen m col) (sym levels) blooms)) in
      ground (arith, lower_pair, found)

  Seen-ipv6_blooms :
      (m : BitMap) (col k : ℕ) (ip : Ipv6Address) (o levels more : ℕ)
      → Seen m col (ipv6_blooms hash hash_word k ip o (levels + more))
      → Seen m col (ipv6_blooms hash hash_word k ip o levels)
  unfolding ipv6_blooms
  Seen-ipv6_blooms m col k ip o levels zero h =
      subst (λ n. Seen m col (ipv6_blooms hash hash_word k ip o n)) {x = levels + 0} {y = levels}
        (omega arith) h
  Seen-ipv6_blooms m col k ip o levels (suc more) h = Seen-ipv6_blooms m col k ip o levels more (
      Seen-left m col (ipv6_blooms hash hash_word k ip o (levels + more)) _ (
        subst (λ n. Seen m col (ipv6_blooms hash hash_word k ip o n)) {x = levels + suc more}
          {y = suc (levels + more)} (omega arith) h))

  check_ipv6_prefix-hit :
      (m : BitMap) (col k : ℕ) (ip : Ipv6Address) (o prefix_len : ℕ)
      → prefix_len ≤ 16
      → Seen m col (ipv6_rows hash hash_word k ip o)
      → check_ipv6_prefix hash hash_word m col k ip o prefix_len ≡ true
  unfolding check_ipv6_prefix ipv6_rows
  check_ipv6_prefix-hit m col k ip o prefix_len short (upper, blooms) =
      let levels : ipv6_blooms hash hash_word k ip o (prefix_len - 2 + (14 - (prefix_len - 2)))
          ≡ ipv6_blooms hash hash_word k ip o 14 =
        ap (ipv6_blooms hash hash_word k ip o) (omega arith) in
      let found : get_rows m col (ipv6_blooms hash hash_word k ip o (prefix_len - 2)) ≡ true =
        Seen-get_rows m col _ (
          Seen-ipv6_blooms m col k ip o (prefix_len - 2) (14 - (prefix_len - 2))
            (subst (Seen m col) (sym levels) blooms)) in
      ground (arith, found)

  -- An IPv4 address that was inserted with success into a filter on a valid bitmap is found in the same
  -- column by each of its prefixes of at most four bytes, whatever else is inserted later.
  pub insert-get_ipv4_prefix :
      {width : ℕ} {m : BitMap} (k col ip : ℕ) (type : IndexType) (prefix_len : ℕ)
      (later : List Entry)
      → prefix_len ≤ 4
      → IsValid width m
      → (insert hash hash_word (opened m k col) (ipv4 ip type)).1 ≡ true
      → get_ipv4_prefix hash hash_word
          (insert_all hash hash_word
            (insert hash hash_word (opened m k col) (ipv4 ip type)).0
            later)
          ip
          type
          prefix_len
        ≡ true
  unfolding get_ipv4_prefix
  insert-get_ipv4_prefix k col ip type prefix_len later short v done =
      let (m₁, o, inserted, grown, placed, seen) =
        insert-Seen hash hash_word k col (ipv4 ip type) v done in
      let (m', finished, others) = insert_all-Grown hash hash_word k col later grown.valid in
      ap (λ f. get_ipv4_prefix hash hash_word f ip type prefix_len)
        (ap (λ f. insert_all hash hash_word f later) inserted ∙ finished)
      ∙ rw (get_ipv4_prefix, placed)
          (check_ipv4_prefix-hit m' col k ip o prefix_len short
            (Seen-Grown col (ipv4_rows hash hash_word k ip o) others seen))

  -- An IPv6 address that was inserted with success into a filter on a valid bitmap is found in the same
  -- column by each of its prefixes of at most sixteen bytes, whatever else is inserted later.
  pub insert-get_ipv6_prefix :
      {width : ℕ} {m : BitMap} (k col : ℕ) (ip : Ipv6Address) (type : IndexType) (prefix_len : ℕ)
      (later : List Entry)
      → prefix_len ≤ 16
      → IsValid width m
      → (insert hash hash_word (opened m k col) (ipv6 ip type)).1 ≡ true
      → get_ipv6_prefix hash hash_word
          (insert_all hash hash_word
            (insert hash hash_word (opened m k col) (ipv6 ip type)).0
            later)
          ip
          type
          prefix_len
        ≡ true
  unfolding get_ipv6_prefix
  insert-get_ipv6_prefix k col ip type prefix_len later short v done =
      let (m₁, o, inserted, grown, placed, seen) =
        insert-Seen hash hash_word k col (ipv6 ip type) v done in
      let (m', finished, others) = insert_all-Grown hash hash_word k col later grown.valid in
      ap (λ f. get_ipv6_prefix hash hash_word f ip type prefix_len)
        (ap (λ f. insert_all hash hash_word f later) inserted ∙ finished)
      ∙ rw (get_ipv6_prefix, placed)
          (check_ipv6_prefix-hit m' col k ip o prefix_len short
            (Seen-Grown col (ipv6_rows hash hash_word k ip o) others seen))
