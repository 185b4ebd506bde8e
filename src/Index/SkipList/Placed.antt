-- ===== src/Index/SkipList/Placed.antt =====
-- What linking a node in its place on each of its levels does to the order and the entries.
use mathlib.Core.Path.{fun_ext}
use di_traffic_database.Common.{
  ℕ, ◌≤◌, ◌<◌, List, [], ◌∷◌, ◌++◌, ◌≡◌, ◌≢◌, refl, ap, ap₂, ◌∙◌, sym, subst, arith, inl, inr, ltb,
  Bool-cases,
}
use di_traffic_database.DataNode.Text.{Str}
use di_traffic_database.Index.SkipList.{KeyType, Node}
use di_traffic_database.Index.SkipList.Towers.{
  All, All-of, All-append, All-prefix, All-suffix, Distinct, last, tall, tall-append, All-tall,
  Distinct-tall,
}
use di_traffic_database.Index.SkipList.Chain.{
  Chain, Chain-insert, Chain-frame, next_on, height_of, key_of,
}
use di_traffic_database.Index.SkipList.Order.{Sorted}
use di_traffic_database.Index.SkipList.Descent.{Low, High}
use di_traffic_database.Index.SkipList.Valid.{Ordered, entries, insert_entry}
use di_traffic_database.Index.SkipList.Links.{LinkedOn}

module _ {K : Type 0} (t : KeyType K) where
  abbrev pub SameEntry : (ℕ → Node K) → (ℕ → Node K) → ℕ → Type 0
  SameEntry nodes nodes' q = ((nodes' q).key ≡ (nodes q).key) × ((nodes' q).value ≡ (nodes q).value)

  pub entries-cong :
      (nodes nodes' : ℕ → Node K) (xs : List ℕ)
      → All (SameEntry nodes nodes') xs
      → entries t nodes' xs ≡ entries t nodes xs
  entries-cong nodes nodes' [] h = refl
  entries-cong nodes nodes' (x ∷ xs) h =
      ap₂ ◌∷◌ (ap₂ (λ (k : K) (w : ℕ). (k, w)) h.0.0 h.0.1) (entries-cong nodes nodes' xs h.1)

  pub entries-insert :
      (nodes : ℕ → Node K) (key : Str) (new : ℕ) (front back : List ℕ)
      → (nodes new).key ≡ t.read key
      → All (Low t nodes key) front
      → All (High t nodes key) back
      → entries t nodes (front ++ (new ∷ back))
        ≡ insert_entry t (t.read key) (nodes new).value (entries t nodes (front ++ back))
  entries-insert nodes key new [] [] e lows highs = ap (λ k. (k, (nodes new).value) ∷ []) e
  entries-insert nodes key new [] (y ∷ back) e lows highs =
      rw highs.0 (ap (λ k. (k, (nodes new).value) ∷ entries t nodes (y ∷ back)) e)
  entries-insert nodes key new (x ∷ front) back e lows highs = rw lows.0 (
      ap (λ l. ((nodes x).key, (nodes x).value) ∷ l)
        (entries-insert nodes key new front back e lows.1 highs))

  module _ (nodes nodes' : ℕ → Node K) (new max_level left : ℕ) (front back : List ℕ)
      (o : Ordered t nodes max_level (front ++ back)) (distinct : Distinct (0 ∷ (front ++ back)))
      (apart : All (λ q. new ≢ q) (0 ∷ (front ++ back)))
      (on : LinkedOn nodes nodes' new (λ j. last 0 (tall (height_of nodes) j front)) 0 left)
      (tall_new : (nodes new).height ≡ left) (bounded : (0 < left) × (left ≤ max_level)) where
    abbrev height : ℕ → ℕ
    height = height_of nodes

    Chain-tall :
        (j : ℕ)
        → j < max_level
        → Chain (next_on nodes j) 0 (tall height j front ++ tall height j back)
    Chain-tall j h =
        subst (Chain (next_on nodes j) 0) (tall-append height j front back) (o.chains j h)

    Distinct-levels : (j : ℕ) → Distinct (0 ∷ (tall height j front ++ tall height j back))
    Distinct-levels j =
        subst (λ l. Distinct (0 ∷ l)) (tall-append height j front back)
          (
            All-tall height (λ q. 0 ≢ q) j (front ++ back) distinct.0,
            Distinct-tall height j (front ++ back) distinct.1,
          )

    level_apart : (j : ℕ) → All (λ q. new ≢ q) (0 ∷ (tall height j front ++ tall height j back))
    level_apart j =
        subst (λ l. All (λ q. new ≢ q) (0 ∷ l)) (tall-append height j front back)
          (apart.0, All-tall height (λ q. new ≢ q) j (front ++ back) apart.1)

    Chain-levels :
        (j : ℕ) → j < max_level → Chain (next_on nodes' j) 0 (tall height j (front ++ (new ∷ back)))
    Chain-levels j h =
        subst (Chain (next_on nodes' j) 0) (sym (tall-append height j front (new ∷ back)))
          (elim (Bool-cases (ltb j (height new))) [
            | inl e ↦ rw e (
                Chain-insert 0 (tall height j front) (tall height j back)
                  (on.inside j (omega arith) (ground (arith, tall_new))) (Distinct-levels j)
                  (level_apart j) (Chain-tall j h))
            | inr e ↦ rw e (
                Chain-frame (next_on nodes j) (next_on nodes' j) 0
                  (tall height j front ++ tall height j back)
                  (on.above j 0 (ground (arith, tall_new)))
                  (All-of (λ q. next_on nodes' j q ≡ next_on nodes j q) _
                    (λ q. on.above j q (ground (arith, tall_new))))
                  (Chain-tall j h))
          ])

    same_keys : key_of nodes' ≡ key_of nodes
    same_keys = fun_ext on.same_data.keys

    same_heights : height_of nodes' ≡ height_of nodes
    same_heights = fun_ext on.same_data.heights

    InBounds : (ℕ → ℕ) → Type 0
    InBounds g = All (λ p. (0 < g p) × (g p ≤ max_level)) (front ++ (new ∷ back))

    in_bounds : InBounds height
    unfolding InBounds
    in_bounds =
        All-append (λ p. (0 < height p) × (height p ≤ max_level)) front (new ∷ back)
          (All-prefix (λ p. (0 < height p) × (height p ≤ max_level)) front back o.heights)
          (
            (omega (arith, tall_new), omega (arith, tall_new)),
            All-suffix (λ p. (0 < height p) × (height p ≤ max_level)) front back o.heights,
          )

    pub Ordered-linked :
        Sorted t.order (key_of nodes) (front ++ (new ∷ back))
        → Ordered t nodes' max_level (front ++ (new ∷ back))
    unfolding InBounds
    Ordered-linked sorted = record {
      chains = λ j h.
          subst (λ g. Chain (next_on nodes' j) 0 (tall g j (front ++ (new ∷ back))))
            (sym same_heights) (Chain-levels j h);
      sorted = subst (λ key. Sorted t.order key (front ++ (new ∷ back))) (sym same_keys) sorted;
      heights = subst InBounds (sym same_heights) in_bounds;
      head = on.same_data.heights 0 ∙ o.head;
    }
