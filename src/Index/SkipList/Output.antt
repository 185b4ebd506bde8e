-- ===== src/Index/SkipList/Output.antt =====
-- The bytes of a list.
use mathlib.Core.List.{append_assoc}
use di_traffic_database.Common.{
  ℕ, zero, suc, ◌+◌, ◌*◌, ◌%◌, ◌^◌, ◌≤◌, ◌<◌, some, List, [], ◌∷◌, ◌++◌, ◌≡◌, refl, ap, ap₂, ◌∙◌,
  sym, subst, arith, false, ltb, length, length-append, length-map, replicate, add64,
}
use di_traffic_database.DataNode.Text.{Str}
use di_traffic_database.DataNode.Sst.{bytes_of}
use di_traffic_database.Index.SkipList.{
  KeyType, Node, SkipList, overwrite, write_at, output_nodes, output_to_char,
}
use di_traffic_database.Index.SkipList.Towers.{All, All-mono, tall_whole}
use di_traffic_database.Index.SkipList.Chain.{Chain, next_on, height_of}
use di_traffic_database.Index.SkipList.Descent.{get_next-next_on}
use di_traffic_database.Index.SkipList.Valid.{entries, Represents}
use di_traffic_database.Index.SkipList.KeyTypes.Laws.{length-bytes_of}

overwrite-replicate :
    (bytes : Str) (n : ℕ)
    → overwrite (replicate (length bytes + n) 0) bytes ≡ some (bytes ++ replicate n 0)
unfolding overwrite
overwrite-replicate [] n = ap (λ k. some (replicate k 0)) {y = n} (omega arith)
overwrite-replicate (b ∷ bytes) n =
    ap (λ k. overwrite (replicate k 0) (b ∷ bytes)) {y = suc (length bytes + n)} (omega arith)
    ∙ rw (overwrite-replicate bytes n)

-- What is written behind the part that is full.
write_at-replicate :
    (full bytes : Str) (n m : ℕ)
    → length bytes + m ≡ n
    → write_at (full ++ replicate n 0) (length full) bytes ≡ some ((full ++ bytes) ++ replicate m 0)
unfolding write_at
write_at-replicate [] bytes n m e =
    ap (λ k. overwrite (replicate k 0) bytes) (sym e) ∙ overwrite-replicate bytes m
write_at-replicate (x ∷ full) bytes n m e = rw (write_at-replicate full bytes n m e)

le-mul_positive : (n w : ℕ) → 0 < w → n ≤ n * w
le-mul_positive n w h = grind arith

module _ {K : Type 0} (t : KeyType K) where
  -- The bytes of the entries, one after the other.
  abbrev pub serialized : ℕ → List (K × ℕ) → Str
  serialized value_len [] = []
  serialized value_len (e ∷ es) = t.bytes e.0 ++ (bytes_of value_len e.1 ++ serialized value_len es)

  module _ (nodes : ℕ → Node K) (value_len : ℕ)
      (sized : (k : K) → length (t.bytes k) ≡ t.size) where
    nothing_left :
        (full : Str) (left : ℕ) → left ≡ 0 → some (full ++ replicate left 0) ≡ some (full ++ [])
    nothing_left full left e = ap (λ k. some (full ++ replicate k 0)) e

    output_nodes_lem :
        (fuel p : ℕ) (xs : List ℕ) (full : Str) (left : ℕ)
        → Chain (next_on nodes 0) p xs
        → All (λ q. 0 < (nodes q).height) xs
        → length xs ≤ fuel
        → left ≡ length xs * (t.size + value_len)
        → length full + left < 2 ^ 64
        → output_nodes t nodes value_len fuel
            (next_on nodes 0 p)
            (full ++ replicate left 0)
            (length full)
          ≡ some (full ++ serialized value_len (entries t nodes xs))
    unfolding output_nodes
    output_nodes_lem zero p [] full left c h f e w =
        rw (c, output_nodes) (nothing_left full left (omega (arith, e)))
    output_nodes_lem (suc fuel) p [] full left c h f e w =
        rw (c, output_nodes) (nothing_left full left (omega (arith, e)))
    output_nodes_lem zero p (x ∷ xs) full left c h f e w = absurd (omega arith)
    output_nodes_lem (suc fuel) p (x ∷ xs) full left c h f e w =
        let key = t.bytes (nodes x).key in
        let value = bytes_of value_len (nodes x).value in
        let later = length xs * (t.size + value_len) in
        let total : left ≡ t.size + value_len + later = e ∙ grind arith in
        let key_size = sized (nodes x).key in
        let value_size = length-bytes_of value_len (nodes x).value in
        let full₁ = full ++ key in
        let size₁ = length-append full key in
        let size₂ = length-append full₁ value in
        let first =
          write_at-replicate full key left (value_len + later) (omega (arith, total, key_size)) in
        let second =
          write_at-replicate full₁ value (value_len + later) later (omega (arith, value_size)) in
        let next = get_next-next_on nodes x 0 h.0 refl in
        let offset₁ : add64 (length full) t.size ≡ length full₁ =
          omega (arith, size₁, key_size, total, w) in
        let second' =
          ap (λ o. write_at (full₁ ++ replicate (value_len + later) 0) o value) offset₁ ∙ second in
        let offset₂ : add64 (add64 (length full) t.size) value_len ≡ length (full₁ ++ value) =
          omega (arith, size₁, size₂, key_size, value_size, total, w) in
        let rest =
          output_nodes_lem fuel x xs (full₁ ++ value) later c.1 h.1 (omega arith) refl
            (omega (arith, size₁, size₂, key_size, value_size, total, w)) in
        let buffer = (full₁ ++ value) ++ replicate later 0 in
        rw (c.0, output_nodes, first, second', next)
          (ap (output_nodes t nodes value_len fuel (next_on nodes 0 x) buffer) offset₂
            ∙ rest
            ∙ ap some (
                append_assoc full₁ value (serialized value_len (entries t nodes xs))
                ∙ append_assoc full key (value ++ serialized value_len (entries t nodes xs))))

  -- A valid list whose bytes fit in the address space gives the bytes of its entries, one after the
  -- other in its order, without an access past the end of the buffer.
  pub output_to_char-serialized :
      (s : SkipList K) (es : List (K × ℕ))
      → ((k : K) → length (t.bytes k) ≡ t.size)
      → 0 < t.size
      → Represents t s es
      → s.value_len ≤ 8
      → t.size + s.value_len < 2 ^ 32
      → length es * (t.size + s.value_len) < 2 ^ 64
      → output_to_char t s ≡ some (serialized s.value_len es)
  unfolding output_to_char
  output_to_char-serialized s es sized positive (xs, v, e) short small fits =
      let high =
        All-mono (λ p. (0 < (s.nodes p).height) × ((s.nodes p).height ≤ s.max_level))
          (λ p. 0 < (s.nodes p).height) xs (λ p h. h.0) v.ordered.heights in
      let chain =
        subst (Chain (next_on s.nodes 0) 0) (tall_whole (height_of s.nodes) xs high)
          (v.ordered.chains 0 v.some_level) in
      let count : length es ≡ length xs = ap length (sym e) ∙ length-map _ xs in
      let short_values : ltb 8 s.value_len ≡ false = ground arith in
      let all_fit : length xs * (t.size + s.value_len) < 2 ^ 64 =
        subst (λ n. n * (t.size + s.value_len) < 2 ^ 64) count fits in
      let at_least_one : length xs ≤ length xs * (t.size + s.value_len) =
        le-mul_positive _ _ (omega (arith, positive)) in
      let nodes_counted : s.node_num ≡ length xs =
        omega (arith, v.counted, all_fit, at_least_one) in
      let width : (t.size + s.value_len) % 2 ^ 32 ≡ t.size + s.value_len = omega (arith, small) in
      let buffer : s.node_num * ((t.size + s.value_len) % 2 ^ 32) % 2 ^ 64
          ≡ length xs * (t.size + s.value_len) =
        ap₂ (λ n w. n * w % 2 ^ 64) nodes_counted width ∙ omega (arith, all_fit) in
      let first = get_next-next_on s.nodes 0 0 (omega (arith, v.ordered.head, v.some_level)) refl in
      rw (output_to_char, short_values, first)
        (ap (λ n. output_nodes t s.nodes s.value_len s.size (next_on s.nodes 0 0) (replicate n 0) 0)
            buffer
          ∙ output_nodes_lem s.nodes s.value_len sized s.size 0 xs []
              (length xs * (t.size + s.value_len)) chain high (omega (arith, v.sized)) refl
              (omega (arith, all_fit))
          ∙ ap (λ l. some (serialized s.value_len l)) e)
