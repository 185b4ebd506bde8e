-- ===== src/Index/SkipList/Insert.antt =====
-- A node is inserted in order on each of its levels.
use di_traffic_database.Common.{
  ℕ, ◌+◌, ◌-◌, ◌≤◌, ◌<◌, Bool, true, false, Option, none, some, List, [], ◌∷◌, ◌++◌, ◌≡◌, ◌≢◌, refl,
  ap, ap₂, ◌∙◌, sym, subst, arith, if◌then◌else◌, ltb, ◌==◌, length, length-append, add64,
}
use di_traffic_database.DataNode.Text.{Str}
use di_traffic_database.Index.Keys.Order.{IsTotalOrder}
use di_traffic_database.Index.SkipList.{
  KeyType, Node, SkipList, updated, new_node, random_level, insert_at, insert,
}
use di_traffic_database.Index.SkipList.Towers.{
  All, All-of, All-append, All-prefix, All-suffix, All-mono, All-last, Distinct, Distinct-insert,
  last, tall, tall-append, All-tall, tall-high,
}
use di_traffic_database.Index.SkipList.Chain.{Chain, next_on, height_of, key_of}
use di_traffic_database.Index.SkipList.Order.{Below, NotBelow, Sorted, Sorted-split, Sorted-insert}
use di_traffic_database.Index.SkipList.Descent.{Low, High, descend_lem}
use di_traffic_database.Index.SkipList.Valid.{
  Ordered, Ordered-cong, IsValid, entries, Represents, insert_entry,
}
use di_traffic_database.Index.SkipList.Links.{LinkedOn, link_levels_lem, random_level_bounds}
use di_traffic_database.Index.SkipList.Placed.{
  SameEntry, entries-cong, entries-insert, Ordered-linked,
}

module _ {K : Type 0} (t : KeyType K) where
  module _ (rand : ℕ → ℕ) (s : SkipList K) (key : Str) (value : ℕ) (front back : List ℕ)
      (o : IsTotalOrder t.order) (v : IsValid t s (front ++ back)) where
    abbrev new_level : ℕ
    new_level = random_level rand s.max_level

    -- The store with the new node in it, before it is linked.
    abbrev nodes₀ : ℕ → Node K
    nodes₀ = updated s.nodes s.size (new_node (t.read key) value new_level)

    abbrev rounds : ℕ
    rounds = if ltb new_level s.level then s.level else new_level

    same_before : (q : ℕ) → q < s.size → nodes₀ q ≡ s.nodes q
    same_before q h = ground arith

    ordered₀ : Ordered t nodes₀ s.max_level (front ++ back)
    ordered₀ =
        Ordered-cong t s.nodes nodes₀ (front ++ back) (same_before 0 (omega (arith, v.sized)))
          (All-mono (λ p. (0 < p) × (p < s.size)) (λ q. nodes₀ q ≡ s.nodes q) (front ++ back)
            (λ q h. same_before q h.1) v.allocated)
          v.ordered

    new_level_bounds : (0 < new_level) × (new_level ≤ s.max_level)
    new_level_bounds = random_level_bounds rand s.max_level v.some_level

    rounds_bounds : (new_level ≤ rounds) × (rounds ≤ s.max_level)
    rounds_bounds = ground (arith, new_level_bounds, v.level)

    new_height : (nodes₀ s.size).height ≡ new_level
    unfolding new_node
    new_height = ground arith

    -- The head and the nodes are other pointers than the new one.
    apart : All (λ q. s.size ≢ q) (0 ∷ (front ++ back))
    apart = (
      (λ e. absurd (omega (arith, v.sized, e))),
      All-mono (λ p. (0 < p) × (p < s.size)) (λ q. s.size ≢ q) (front ++ back)
          (λ q h e. absurd (omega (arith, e, h.1))) v.allocated,
    )

    distinct : Distinct (0 ∷ (front ++ back))
    distinct = (
      All-mono (λ p. (0 < p) × (p < s.size)) (λ q. 0 ≢ q) (front ++ back)
          (λ q h e. absurd (omega (arith, e, h.0))) v.allocated,
      v.distinct,
    )

    abbrev pred : ℕ → ℕ
    pred j = last 0 (tall (height_of nodes₀) j front)

    pred-high : (j : ℕ) → j < s.max_level → j < (nodes₀ (pred j)).height
    pred-high j h =
        All-last (λ q. j < (nodes₀ q).height) 0 (tall (height_of nodes₀) j front)
          (omega (arith, ordered₀.head)) (tall-high (height_of nodes₀) j front)

    pred-apart : (j : ℕ) → s.size ≢ pred j
    pred-apart j =
        All-last (λ q. s.size ≢ q) 0 (tall (height_of nodes₀) j front) apart.0
          (All-tall (height_of nodes₀) (λ q. s.size ≢ q) j front
            (All-prefix (λ q. s.size ≢ q) front back apart.1))

    abbrev inserted : ℕ → (ℕ → Node K) → SkipList K
    inserted max_node nodes' = record s {
      nodes = nodes';
      size = s.size + 1;
      node_num = add64 s.node_num 1;
      level = if ltb s.level new_level then new_level else s.level;
    }

    -- The loops of `insert` find the places and link the node in them.
    insert-LinkedOn :
        (max_node : ℕ)
        → All (Low t nodes₀ key) front
        → All (High t nodes₀ key) back
        → length key ≡ t.size
        → s.node_num ≤ max_node
        → (nodes' : ℕ → Node K) × (insert t rand s key value max_node
            ≡ some (inserted max_node nodes', true))
          × LinkedOn nodes₀ nodes' s.size pred 0 new_level
    unfolding insert insert_at
    insert-LinkedOn max_node lows highs sized room =
        let (p', update', found, reached, places) =
          descend_lem t nodes₀ key s.size front back lows highs
            (omega (arith, v.sized, length-append front back)) rounds 0 (λ i. none)
            (λ i h. (
              subst (Chain (next_on nodes₀ i) 0) (tall-append (height_of nodes₀) i front back)
                  (ordered₀.chains i (omega (arith, rounds_bounds))),
              omega (arith, ordered₀.head, rounds_bounds),
            ))
            ([], tall (height_of nodes₀) (rounds - 1) front, refl, refl) in
        let (nodes', linked, on) =
          link_levels_lem new_level nodes₀ s.size 0 update' pred (omega (arith, new_height))
            (λ j h. places.inside j (omega (arith, rounds_bounds)))
            (λ j h. pred-high j (omega (arith, new_level_bounds))) pred-apart in
        let fits : (length key == t.size) ≡ true = ground arith in
        let allowed : ltb max_node s.node_num ≡ false = ground arith in
        (nodes', rw (insert, fits, allowed, found, insert_at, linked), on)

    new_key : (nodes₀ s.size).key ≡ t.read key
    unfolding new_node
    new_key = ground arith

    new_value : (nodes₀ s.size).value ≡ value
    unfolding new_node
    new_value = ground arith

    Sorted-insertion :
        All (Low t nodes₀ key) front
        → All (High t nodes₀ key) back
        → Sorted t.order (key_of nodes₀) (front ++ (s.size ∷ back))
    Sorted-insertion lows highs =
        Sorted-insert t.order (key_of nodes₀) o s.size front back ordered₀.sorted
          (subst (λ k. All (Below t.order (key_of nodes₀) k) front) (sym new_key) lows)
          (subst (λ k. All (NotBelow t.order (key_of nodes₀) k) back) (sym new_key) highs)

    allocated_after : All (λ p. (0 < p) × (p < s.size + 1)) (front ++ (s.size ∷ back))
    allocated_after =
        let older =
          All-mono (λ p. (0 < p) × (p < s.size)) (λ p. (0 < p) × (p < s.size + 1)) (front ++ back)
            (λ p h. (h.0, omega (arith, h.1))) v.allocated in
        All-append (λ p. (0 < p) × (p < s.size + 1)) front (s.size ∷ back)
          (All-prefix (λ p. (0 < p) × (p < s.size + 1)) front back older)
          (
            (omega (arith, v.sized), omega arith),
            All-suffix (λ p. (0 < p) × (p < s.size + 1)) front back older,
          )

    entries_after :
        (nodes' : ℕ → Node K)
        → LinkedOn nodes₀ nodes' s.size pred 0 new_level
        → All (Low t nodes₀ key) front
        → All (High t nodes₀ key) back
        → entries t nodes' (front ++ (s.size ∷ back))
          ≡ insert_entry t (t.read key) value (entries t s.nodes (front ++ back))
    entries_after nodes' on lows highs =
        entries-cong t nodes₀ nodes' (front ++ (s.size ∷ back))
          (All-of (SameEntry t nodes₀ nodes') _ (λ q. (on.same_data.keys q, on.same_data.values q)))
        ∙ entries-insert t nodes₀ key s.size front back new_key lows highs
        ∙ ap₂ (insert_entry t (t.read key)) new_value (
            entries-cong t s.nodes nodes₀ (front ++ back) (
              All-mono (λ p. (0 < p) × (p < s.size)) (SameEntry t s.nodes nodes₀) (front ++ back)
                (λ q h.
                  (ap (λ n. n.key) (same_before q h.1), ap (λ n. n.value) (same_before q h.1)))
                v.allocated))

    pub insert_split :
        (max_node : ℕ)
        → All (Low t nodes₀ key) front
        → All (High t nodes₀ key) back
        → length key ≡ t.size
        → s.node_num ≤ max_node
        → (s' : SkipList K) × (insert t rand s key value max_node ≡ some (s', true))
          × Represents t s' (insert_entry t (t.read key) value (entries t s.nodes (front ++ back)))
    insert_split max_node lows highs sized room =
        let (nodes', inserts, on) = insert-LinkedOn max_node lows highs sized room in
        (
          inserted max_node nodes',
          inserts,
          (
            front ++ (s.size ∷ back),
            record {
              ordered =
                  Ordered-linked t nodes₀ nodes' s.size s.max_level new_level front back ordered₀
                    distinct apart on new_height new_level_bounds (Sorted-insertion lows highs);
              distinct = Distinct-insert front back s.size v.distinct apart.1;
              allocated = allocated_after;
              some_level = v.some_level;
              level = ground (arith, v.level, new_level_bounds);
              sized =
                  omega
                    (arith, v.sized, length-append front back, length-append front (s.size ∷ back));
              counted =
                  omega (
                    arith,
                    v.counted,
                    length-append front back,
                    length-append front (s.size ∷ back),
                  );
            },
            entries_after nodes' on lows highs,
          ),
        )

  -- An insertion of a key of the right length into a valid list, with room for it, succeeds. The list is
  -- valid again, and its entries are those before with the new entry in its place, before the entries
  -- of the same key.
  pub insert_refines :
      (rand : ℕ → ℕ) (s : SkipList K) (key : Str) (value max_node : ℕ) (es : List (K × ℕ))
      → IsTotalOrder t.order
      → Represents t s es
      → length key ≡ t.size
      → s.node_num ≤ max_node
      → (s' : SkipList K) × (insert t rand s key value max_node ≡ some (s', true))
        × Represents t s' (insert_entry t (t.read key) value es)
  insert_refines rand s key value max_node es o (xs, v, e) sized room =
      let ordered = ordered₀ rand s key value [] xs o v in
      let nodes = nodes₀ rand s key value [] xs o v in
      let (front, back, split, lows, highs) =
        Sorted-split t.order (key_of nodes) o (t.read key) xs ordered.sorted in
      let (s', inserts, represents) =
        insert_split rand s key value front back o (subst (IsValid t s) split v) max_node lows highs
          sized room in
      (
        s',
        inserts,
        subst (λ l. Represents t s' (insert_entry t (t.read key) value l))
            (ap (entries t s.nodes) (sym split) ∙ e) represents,
      )

  list_of : Option (SkipList K × Bool) → SkipList K → SkipList K
  list_of none s = s
  list_of (some (s', done)) s = s'

  -- The list that an insertion gave.
  pub insert-Represents :
      (rand : ℕ → ℕ) (s s₁ : SkipList K) (key : Str) (value max_node : ℕ) (es : List (K × ℕ))
      → IsTotalOrder t.order
      → Represents t s es
      → length key ≡ t.size
      → s.node_num ≤ max_node
      → insert t rand s key value max_node ≡ some (s₁, true)
      → Represents t s₁ (insert_entry t (t.read key) value es)
  unfolding list_of
  insert-Represents rand s s₁ key value max_node es o r sized room inserts =
      let (s', inserts', represents) = insert_refines rand s key value max_node es o r sized room in
      subst (λ l. Represents t l (insert_entry t (t.read key) value es))
        (ap (λ out. list_of out s) (sym inserts' ∙ inserts)) represents
