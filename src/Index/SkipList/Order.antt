-- ===== src/Index/SkipList/Order.antt =====
-- Nodes in the order of their keys, cut at a key.
use di_traffic_database.Common.{
  ℕ, true, false, not, ◌&&◌, List, [], ◌∷◌, ◌++◌, ◌≡◌, refl, ap, arith, inl, inr, Bool-cases, sym,
  ◌∙◌,
}
use di_traffic_database.DataNode.Text.{Str}
use di_traffic_database.Index.Keys.{Comparisons}
use di_traffic_database.Index.Keys.Order.{IsTotalOrder}
use di_traffic_database.Index.SkipList.{KeyType, Node, is_less, is_greater, compare_node_key}
use di_traffic_database.Index.SkipList.Towers.{All, All-append, All-mono, All-suffix, All-prefix}

module _ {K : Type 0} (c : Comparisons K) (key : ℕ → K) where
  abbrev pub Below : K → ℕ → Type 0
  Below k p = c.lt (key p) k ≡ true

  abbrev pub NotBelow : K → ℕ → Type 0
  NotBelow k p = c.lt (key p) k ≡ false

  abbrev pub Sorted : List ℕ → Type 0
  Sorted [] = Unit
  Sorted (x ∷ xs) = All (NotBelow (key x)) xs × Sorted xs

  module _ (o : IsTotalOrder c) where
    pub asymmetric : (a b : K) → c.lt a b ≡ true → c.lt b a ≡ false
    asymmetric a b h = elim (Bool-cases (c.lt b a)) [
      | inr f ↦ f
      | inl t ↦ t ∙ sym (o.transitive a b a h t) ∙ o.irreflexive a
    ]

    -- If `b` is not below `a`, and `a` not below `k`, then `b` is not below `k`.
    pub not_below_trans : (a b k : K) → c.lt b a ≡ false → c.lt a k ≡ false → c.lt b k ≡ false
    not_below_trans a b k h e = elim (Bool-cases (c.lt b k)) [
      | inr f ↦ f
      | inl t ↦ elim (Bool-cases (c.lt a b)) [
        | inl u ↦ t ∙ sym (o.transitive a b k u t) ∙ e
        | inr u ↦ ap (λ x. c.lt x k) (o.connected b a h u) ∙ e
      ]
    ]

    pub Sorted-split :
        (k : K) (xs : List ℕ)
        → Sorted xs
        → (front : List ℕ) × (back : List ℕ) × (xs ≡ front ++ back)
          × All (Below k) front
          × All (NotBelow k) back
    Sorted-split k [] s = ([], [], refl, tt, tt)
    Sorted-split k (x ∷ xs) s = elim (Bool-cases (c.lt (key x) k)) [
      | inl low ↦
          let (front, back, split, lows, highs) = Sorted-split k xs s.1 in
          (x ∷ front, back, ap (λ l. x ∷ l) split, (low, lows), highs)
      | inr high ↦ (
        [],
        x ∷ xs,
        refl,
        tt,
        (
          high,
          All-mono (NotBelow (key x)) (NotBelow k) xs
              (λ y h. not_below_trans (key x) (key y) k h high) s.0,
        ),
      )
    ]

    -- Cut at its key, an order stays sorted with a node in between.
    pub Sorted-insert :
        (p : ℕ) (front back : List ℕ)
        → Sorted (front ++ back)
        → All (Below (key p)) front
        → All (NotBelow (key p)) back
        → Sorted (front ++ (p ∷ back))
    Sorted-insert p [] back s lows highs = (highs, s)
    Sorted-insert p (x ∷ front) back s lows highs = (
      All-append (NotBelow (key x)) front (p ∷ back) (All-prefix (NotBelow (key x)) front back s.0)
          (asymmetric (key x) (key p) lows.0, All-suffix (NotBelow (key x)) front back s.0),
      Sorted-insert p front back s.1 lows.1 highs,
    )

module _ {K : Type 0} (c : Comparisons K) (o : IsTotalOrder c) where
  pub eq-lt : (a b : K) → c.eq a b ≡ (not (c.lt a b) && not (c.lt b a))
  eq-lt a b = elim (Bool-cases (c.eq a b)) [
    | inl e ↦
        let same = (o.equality a b).0 e in
        let below : c.lt a b ≡ false = ap (c.lt a) (sym same) ∙ o.irreflexive a in
        let above : c.lt b a ≡ false = ap (c.lt b) same ∙ o.irreflexive b in rw (e, below, above)
    | inr e ↦ ground (arith, e, o.connected a b, (o.equality a b).1)
  ]

  -- What is not below a key above `k` is above `k`.
  pub above_trans : (k a b : K) → c.lt b a ≡ false → c.lt k a ≡ true → c.lt k b ≡ true
  above_trans k a b h e = elim (Bool-cases (c.lt k b)) [
    | inl t ↦ t
    | inr f ↦ f ∙ sym (not_below_trans c (λ n. k) o b k a f h) ∙ e
  ]

module _ {K : Type 0} (t : KeyType K) (nodes : ℕ → Node K) where
  pub is_less-compare_node_key :
      (p : ℕ) (key : Str)
      → is_less (compare_node_key t nodes p key) ≡ t.order.lt (nodes p).key (t.read key)
  unfolding compare_node_key is_less
  is_less-compare_node_key p key = ground arith

  pub is_greater-compare_node_key :
      IsTotalOrder t.order
      → (p : ℕ) (key : Str)
      → is_greater (compare_node_key t nodes p key) ≡ t.order.lt (t.read key) (nodes p).key
  unfolding compare_node_key is_greater
  is_greater-compare_node_key o p key = ground (
    arith,
    o.flipped (nodes p).key (t.read key),
    asymmetric t.order (λ q. (nodes q).key) o (nodes p).key (t.read key),
  )
