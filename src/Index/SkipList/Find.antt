-- ===== src/Index/SkipList/Find.antt =====
-- A search gives the positions of the entries that match, in their order.
use mathlib.Core.List.{append_assoc}
use di_traffic_database.Common.{
  ℕ, ◌-◌, ◌≤◌, ◌<◌, Bool, true, not, ◌&&◌, none, some, List, [], ◌++◌, ◌≡◌, refl, ap, ap₂, ◌∙◌, sym,
  subst, arith, ◌==◌, length, length-append,
}
use di_traffic_database.DataNode.Text.{Str}
use di_traffic_database.Index.Keys.Order.{IsTotalOrder}
use di_traffic_database.Index.SkipList.{
  KeyType, SkipList, is_less, is_greater, compare_node_key, get_next, collect, search_from,
  find_by_key, find_by_range,
}
use di_traffic_database.Index.SkipList.Towers.{
  All, All-prefix, All-suffix, All-mono, All-last, last, tall, tall-append, tall_whole,
}
use di_traffic_database.Index.SkipList.Chain.{Chain, Chain-suffix, next_on, height_of, key_of}
use di_traffic_database.Index.SkipList.Order.{
  Sorted-split, not_below_trans, eq-lt, above_trans, is_less-compare_node_key,
  is_greater-compare_node_key,
}
use di_traffic_database.Index.SkipList.Descent.{Low, descend_lem, get_next-next_on}
use di_traffic_database.Index.SkipList.Valid.{IsValid, Represents}
use di_traffic_database.Index.SkipList.Collected.{
  not-not, not-true, positions, collected, collect_lem, collected_skipped, collected-positions,
}

module _ {K : Type 0} (t : KeyType K) (s : SkipList K) where
  abbrev skips : Str → ℕ → Bool
  skips begin p = is_less (compare_node_key t s.nodes p begin)

  -- The second loop, from a node before the key on.
  collect_reached :
      (begin : Str) (stops : ℕ → Bool) (passed rest : List ℕ)
      → IsValid t s (passed ++ rest)
      → All (Low t s.nodes begin) passed
      → (get_next s.nodes (last 0 passed) 0 ≡ some (next_on s.nodes 0 (last 0 passed)))
        × (collect s.nodes (skips begin) stops s.size (next_on s.nodes 0 (last 0 passed))
            ≡ some (collected s.nodes (skips begin) stops (passed ++ rest)))
  collect_reached begin stops passed rest v lows =
      let high =
        All-mono (λ p. (0 < (s.nodes p).height) × ((s.nodes p).height ≤ s.max_level))
          (λ p. 0 < (s.nodes p).height) (passed ++ rest) (λ p h. h.0) v.ordered.heights in
      let chain =
        subst (Chain (next_on s.nodes 0) 0) (tall_whole (height_of s.nodes) (passed ++ rest) high)
          (v.ordered.chains 0 v.some_level) in
      (
        get_next-next_on s.nodes (last 0 passed) 0
            (All-last (λ p. 0 < (s.nodes p).height) 0 passed
              (omega (arith, v.ordered.head, v.some_level))
              (All-prefix (λ p. 0 < (s.nodes p).height) passed rest high))
            refl,
        collect_lem s.nodes (skips begin) stops s.size (last 0 passed) rest
              (Chain-suffix (next_on s.nodes 0) 0 passed rest chain)
              (All-suffix (λ p. 0 < (s.nodes p).height) passed rest high)
              (omega (arith, v.sized, length-append passed rest))
            ∙ ap some (
                sym (
                  collected_skipped s.nodes (skips begin) stops passed rest (
                    All-mono (Low t s.nodes begin) (λ p. skips begin p ≡ true) passed
                      (λ p h. is_less-compare_node_key t s.nodes p begin ∙ h) lows))),
      )

  -- Both searches run, and collect as if they had begun at the first node.
  search_from_lem :
      (begin : Str) (stops : ℕ → Bool) (xs : List ℕ)
      → IsTotalOrder t.order
      → IsValid t s xs
      → search_from t s begin stops ≡ some (collected s.nodes (skips begin) stops xs)
  unfolding search_from
  search_from_lem begin stops xs o v =
      let (front, back, split, lows, highs) =
        Sorted-split t.order (key_of s.nodes) o (t.read begin) xs v.ordered.sorted in
      let size = ap length split ∙ length-append front back in
      let (p', update', found, (passed, ahead, at_end, reached), places) =
        descend_lem t s.nodes begin s.size front back lows highs (omega (arith, v.sized, size))
          s.level 0 (λ i. none)
          (λ i h. (
            subst (Chain (next_on s.nodes i) 0)
                (ap (tall (height_of s.nodes) i) split
                  ∙ tall-append (height_of s.nodes) i front back)
                (v.ordered.chains i (omega (arith, v.level))),
            omega (arith, v.ordered.head, v.level),
          ))
          ([], tall (height_of s.nodes) (s.level - 1) front, refl, refl) in
      let positive =
        All-mono (λ p. (0 < (s.nodes p).height) × ((s.nodes p).height ≤ s.max_level))
          (λ p. 0 < (s.nodes p).height) (front ++ back) (λ p h. h.0)
          (subst (IsValid t s) split v).ordered.heights in
      let parts =
        sym (
          tall_whole (height_of s.nodes) front
            (All-prefix (λ p. 0 < (s.nodes p).height) front back positive))
        ∙ at_end in
      let whole = split ∙ ap (λ l. l ++ back) parts ∙ append_assoc passed ahead back in
      let (next, values) =
        collect_reached begin stops passed (ahead ++ back) (subst (IsValid t s) whole v) (
          All-prefix (Low t s.nodes begin) passed ahead
            (subst (All (Low t s.nodes begin)) parts lows)) in
      rw (search_from, found, reached, next)
        (values ∙ ap (λ l. some (collected s.nodes (skips begin) stops l)) (sym whole))

  -- A search for a key of the right length in a valid list gives the positions of exactly the entries
  -- with that key, in the order of the list, each modulo 2 ^ 32.
  pub find_by_key-positions :
      (key : Str) (es : List (K × ℕ))
      → IsTotalOrder t.order
      → Represents t s es
      → length key ≡ t.size
      → find_by_key t s key ≡ some (positions (λ k. t.order.eq k (t.read key)) es)
  unfolding find_by_key
  find_by_key-positions key es o (xs, v, e) sized =
      let fits : (length key == t.size) ≡ true = ground arith in
      rw (find_by_key, fits)
        (search_from_lem key (λ p. is_greater (compare_node_key t s.nodes p key)) xs o v
          ∙ ap some (
              collected-positions t s.nodes (skips key)
                (λ p. is_greater (compare_node_key t s.nodes p key))
                (λ k. t.order.eq k (t.read key)) xs
                (λ x.
                  eq-lt t.order o (s.nodes x).key (t.read key)
                  ∙ ap₂ (λ a b. not a && not b) (sym (is_less-compare_node_key t s.nodes x key))
                      (sym (is_greater-compare_node_key t s.nodes o x key)))
                (λ x y h stop.
                  is_greater-compare_node_key t s.nodes o y key
                  ∙ above_trans t.order o (t.read key) (s.nodes x).key (s.nodes y).key h
                      (sym (is_greater-compare_node_key t s.nodes o x key) ∙ stop))
                v.ordered.sorted)
          ∙ ap (λ l. some (positions (λ k. t.order.eq k (t.read key)) l)) e)

  -- A search for a range in a valid list gives the positions of exactly the entries whose keys are not
  -- below its begin and are below its end, in the order of the list, each modulo 2 ^ 32.
  pub find_by_range-positions :
      (begin end : Str) (es : List (K × ℕ))
      → IsTotalOrder t.order
      → Represents t s es
      → length begin ≡ t.size
      → length end ≡ t.size
      → find_by_range t s begin end
        ≡ some (positions (λ k. t.order.ge k (t.read begin) && t.order.lt k (t.read end)) es)
  unfolding find_by_range
  find_by_range-positions begin end es o (xs, v, e) sized sized' =
      let fits : (length begin == t.size) ≡ true = ground arith in
      let fits' : (length end == t.size) ≡ true = ground arith in
      let stops : ℕ → Bool = λ p. not (is_less (compare_node_key t s.nodes p end)) in
      rw (find_by_range, fits, fits')
        (search_from_lem begin stops xs o v
          ∙ ap some (
              collected-positions t s.nodes (skips begin) stops
                (λ k. t.order.ge k (t.read begin) && t.order.lt k (t.read end)) xs
                (λ x.
                  ap₂ (λ a b. a && b)
                    (o.at_least (s.nodes x).key (t.read begin)
                      ∙ ap not (sym (is_less-compare_node_key t s.nodes x begin)))
                    (sym (
                      not-not (is_less (compare_node_key t s.nodes x end))
                      ∙ is_less-compare_node_key t s.nodes x end)))
                (λ x y h stop. ap not (
                  is_less-compare_node_key t s.nodes y end
                  ∙ not_below_trans t.order (key_of s.nodes) o (s.nodes x).key (s.nodes y).key
                      (t.read end) h
                      (sym (is_less-compare_node_key t s.nodes x end) ∙ not-true _ stop)))
                v.ordered.sorted)
          ∙ ap
              (λ l.
                some (positions (λ k. t.order.ge k (t.read begin) && t.order.lt k (t.read end)) l))
              e)
