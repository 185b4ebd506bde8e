-- ===== src/Index/SkipList/Valid.antt =====
-- The invariant of a skip list, and the entries that it stands for.
use di_traffic_database.Common.{
  ℕ, suc, ◌%◌, ◌^◌, ◌≤◌, ◌<◌, List, [], ◌∷◌, ◌≡◌, refl, ap, ◌∙◌, sym, subst, map, length,
  if◌then◌else◌, arith,
}
use di_traffic_database.Index.SkipList.{KeyType, Node, SkipList, create, new_node}
use di_traffic_database.Index.SkipList.Towers.{All, Distinct, tall, tall-cong, All-mono, All-tall}
use di_traffic_database.Index.SkipList.Chain.{Chain, Chain-frame, next_on, height_of}
use di_traffic_database.Index.SkipList.Order.{NotBelow, Sorted}

module _ {K : Type 0} (t : KeyType K) where
  -- `xs` are the nodes behind the head, in the order of their keys; each level leads through those of
  -- them that are high enough.
  pub record Ordered (nodes : ℕ → Node K) (max_level : ℕ) (xs : List ℕ) : Type 0 where
    pub chains : (i : ℕ) → i < max_level → Chain (next_on nodes i) 0 (tall (height_of nodes) i xs)
    pub sorted : Sorted t.order (λ p. (nodes p).key) xs
    pub heights : All (λ p. (0 < (nodes p).height) × ((nodes p).height ≤ max_level)) xs
    pub head : (nodes 0).height ≡ max_level

  pub record IsValid (s : SkipList K) (xs : List ℕ) : Type 0 where
    pub ordered : Ordered s.nodes s.max_level xs
    pub distinct : Distinct xs
    pub allocated : All (λ p. (0 < p) × (p < s.size)) xs
    pub some_level : 0 < s.max_level
    pub level : s.level ≤ s.max_level
    pub sized : s.size ≡ suc (length xs)
    pub counted : s.node_num ≡ length xs % 2 ^ 64

  -- The keys and positions, in the order of the lowest level.
  abbrev pub entries : (ℕ → Node K) → List ℕ → List (K × ℕ)
  entries nodes xs = map (λ p. ((nodes p).key, (nodes p).value)) xs

  -- The list is valid and stands for the entries.
  abbrev pub Represents : SkipList K → List (K × ℕ) → Type 0
  Represents s es = (xs : List ℕ) × IsValid s xs × (entries s.nodes xs ≡ es)

  -- An entry goes before those whose keys are not below its own.
  abbrev pub insert_entry : K → ℕ → List (K × ℕ) → List (K × ℕ)
  insert_entry k v [] = (k, v) ∷ []
  insert_entry k v (e ∷ es) = if t.order.lt e.0 k then e ∷ insert_entry k v es else (k, v) ∷ e ∷ es

  Sorted-cong :
      (key key' : ℕ → K) (xs : List ℕ)
      → All (λ q. key' q ≡ key q) xs
      → Sorted t.order key xs
      → Sorted t.order key' xs
  Sorted-cong key key' [] e s = tt
  Sorted-cong key key' (x ∷ xs) e s = (
    All-NotBelow xs e.1 (subst (λ k. All (NotBelow t.order key k) xs) (sym e.0) s.0),
    Sorted-cong key key' xs e.1 s.1,
  )
    where
      All-NotBelow :
          (ys : List ℕ)
          → All (λ q. key' q ≡ key q) ys
          → All (NotBelow t.order key (key' x)) ys
          → All (NotBelow t.order key' (key' x)) ys
      All-NotBelow [] f h = tt
      All-NotBelow (y ∷ ys) f h =
          (ap (λ k. t.order.lt k (key' x)) f.0 ∙ h.0, All-NotBelow ys f.1 h.1)

  All-heights :
      (nodes nodes' : ℕ → Node K) (max_level : ℕ) (xs : List ℕ)
      → All (λ q. nodes' q ≡ nodes q) xs
      → All (λ p. (0 < (nodes p).height) × ((nodes p).height ≤ max_level)) xs
      → All (λ p. (0 < (nodes' p).height) × ((nodes' p).height ≤ max_level)) xs
  All-heights nodes nodes' max_level [] e h = tt
  All-heights nodes nodes' max_level (x ∷ xs) e h = (
    subst (λ (n : Node K). (0 < n.height) × (n.height ≤ max_level)) (sym e.0) h.0,
    All-heights nodes nodes' max_level xs e.1 h.1,
  )

  -- A store that agrees on the head and the nodes is as good.
  pub Ordered-cong :
      (nodes nodes' : ℕ → Node K) {max_level : ℕ} (xs : List ℕ)
      → nodes' 0 ≡ nodes 0
      → All (λ q. nodes' q ≡ nodes q) xs
      → Ordered nodes max_level xs
      → Ordered nodes' max_level xs
  Ordered-cong nodes nodes' {max_level} xs e es o = record {
    chains = λ i h.
        subst (Chain (next_on nodes' i) 0)
          (sym (
            tall-cong (height_of nodes) (height_of nodes') i xs (
              All-mono (λ q. nodes' q ≡ nodes q) (λ q. (nodes' q).height ≡ (nodes q).height) xs
                (λ q same. ap (λ n. n.height) same) es)))
          (Chain-frame (next_on nodes i) (next_on nodes' i) 0 (tall (height_of nodes) i xs)
            (ap (λ n. n.next i) e)
            (All-tall (height_of nodes) (λ q. next_on nodes' i q ≡ next_on nodes i q) i xs
              (All-mono (λ q. nodes' q ≡ nodes q) (λ q. next_on nodes' i q ≡ next_on nodes i q) xs
                (λ q same. ap (λ n. n.next i) same) es))
            (o.chains i h));
    sorted =
        Sorted-cong (λ p. (nodes p).key) (λ p. (nodes' p).key) xs
          (All-mono (λ q. nodes' q ≡ nodes q) (λ q. (nodes' q).key ≡ (nodes q).key) xs
            (λ q same. ap (λ n. n.key) same) es)
          o.sorted;
    heights = All-heights nodes nodes' max_level xs es o.heights;
    head = ap (λ n. n.height) e ∙ o.head;
  }

module _ {K : Type 0} (t : KeyType K) where
  -- A new list is valid and empty.
  pub create-Represents :
      (max_level value_len : ℕ) → 0 < max_level → Represents t (create t max_level value_len) []
  unfolding create new_node
  create-Represents max_level value_len h = (
    [],
    record {
      ordered = record { chains = λ i k. refl; sorted = tt; heights = tt; head = refl };
      distinct = tt;
      allocated = tt;
      some_level = h;
      level = omega arith;
      sized = refl;
      counted = refl;
    },
    refl,
  )
