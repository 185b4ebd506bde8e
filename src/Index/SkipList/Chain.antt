-- ===== src/Index/SkipList/Chain.antt =====
-- What the pointers of one level lead through, and what linking a node does to it.
use di_traffic_database.Common.{
  ℕ, ◌<◌, Option, none, some, List, [], ◌∷◌, ◌++◌, ◌≡◌, ◌≢◌, ◌∙◌, sym, arith, if◌then◌else◌, ltb,
  ◌==◌, true,
}
use di_traffic_database.Index.SkipList.{Node, updated, get_next, put_next, link}
use di_traffic_database.Index.SkipList.Towers.{All, last, Distinct, All-last}

-- From `p` the pointers lead through `xs` to the end.
abbrev pub Chain : (ℕ → Option ℕ) → ℕ → List ℕ → Type 0
Chain next p [] = next p ≡ none
Chain next p (x ∷ xs) = (next p ≡ some x) × Chain next x xs

pub Chain-suffix :
    (next : ℕ → Option ℕ) (p : ℕ) (xs ys : List ℕ)
    → Chain next p (xs ++ ys)
    → Chain next (last p xs) ys
Chain-suffix next p [] ys c = c
Chain-suffix next p (x ∷ xs) ys c = Chain-suffix next x xs ys c.1

pub Chain-frame :
    (next next' : ℕ → Option ℕ) (p : ℕ) (xs : List ℕ)
    → next' p ≡ next p
    → All (λ q. next' q ≡ next q) xs
    → Chain next p xs
    → Chain next' p xs
Chain-frame next next' p [] e es c = e ∙ c
Chain-frame next next' p (x ∷ xs) e es c = (e ∙ c.0, Chain-frame next next' x xs es.0 es.1 c.1)

-- `next'` is `next` with `new` linked in behind `pred`.
pub record Linked (next next' : ℕ → Option ℕ) (new pred : ℕ) : Type 0 where
  pub from_pred : next' pred ≡ some new
  pub from_new : next' new ≡ next pred
  pub others : (q : ℕ) → pred ≢ q → new ≢ q → next' q ≡ next q

module _ {next next' : ℕ → Option ℕ} {new : ℕ} where
  others-All :
      {pred : ℕ} (xs : List ℕ)
      → Linked next next' new pred
      → All (λ q. pred ≢ q) xs
      → All (λ q. new ≢ q) xs
      → All (λ q. next' q ≡ next q) xs
  others-All [] l h k = tt
  others-All (x ∷ xs) l h k = (l.others x h.0 k.0, others-All xs l h.1 k.1)

  pub Chain-insert :
      (p : ℕ) (xs ys : List ℕ)
      → Linked next next' new (last p xs)
      → Distinct (p ∷ (xs ++ ys))
      → All (λ q. new ≢ q) (p ∷ (xs ++ ys))
      → Chain next p (xs ++ ys)
      → Chain next' p (xs ++ (new ∷ ys))
  Chain-insert p [] [] l d f c = (l.from_pred, l.from_new ∙ c)
  Chain-insert p [] (y ∷ ys) l d f c = (
    l.from_pred,
    (
      l.from_new ∙ c.0,
      Chain-frame next next' y ys (l.others y d.0.0 f.1.0) (others-All ys l d.0.1 f.1.1) c.1,
    ),
  )
  Chain-insert p (x ∷ xs) ys l d f c =
      (l.others p apart f.0 ∙ c.0, Chain-insert x xs ys l d.1 f.1 c.1)
    where
      apart : last x xs ≢ p
      apart e = All-last (λ q. p ≢ q) x xs d.0.0 (prefix xs d.0.1) (sym e)
        where
          prefix : (zs : List ℕ) → All (λ q. p ≢ q) (zs ++ ys) → All (λ q. p ≢ q) zs
          prefix [] h = tt
          prefix (z ∷ zs) h = (h.0, prefix zs h.1)

module _ {K : Type 0} where
  abbrev pub next_on : (ℕ → Node K) → ℕ → ℕ → Option ℕ
  next_on nodes i p = (nodes p).next i

  abbrev pub height_of : (ℕ → Node K) → ℕ → ℕ
  height_of nodes p = (nodes p).height

  abbrev pub key_of : (ℕ → Node K) → ℕ → K
  key_of nodes p = (nodes p).key

  -- The nodes of two stores differ in their pointers only.
  pub record SameData (nodes nodes' : ℕ → Node K) : Type 0 where
    pub keys : (q : ℕ) → (nodes' q).key ≡ (nodes q).key
    pub values : (q : ℕ) → (nodes' q).value ≡ (nodes q).value
    pub heights : (q : ℕ) → (nodes' q).height ≡ (nodes q).height

  pub SameData-trans :
      {nodes nodes₁ nodes₂ : ℕ → Node K}
      → SameData nodes nodes₁
      → SameData nodes₁ nodes₂
      → SameData nodes nodes₂
  SameData-trans s t = record {
    keys = λ q. t.keys q ∙ s.keys q;
    values = λ q. t.values q ∙ s.values q;
    heights = λ q. t.heights q ∙ s.heights q;
  }

  abbrev put : (ℕ → Node K) → ℕ → ℕ → Option ℕ → ℕ → Node K
  put nodes p i after = updated nodes p (record (nodes p) { next = updated (nodes p).next i after })

  put_next-put :
      (nodes : ℕ → Node K) (p i : ℕ) (after : Option ℕ)
      → i < (nodes p).height
      → put_next nodes p i after ≡ some (put nodes p i after)
  unfolding put_next
  put_next-put nodes p i after h =
      let inside : ltb i (nodes p).height ≡ true = ground arith in rw inside

  put-SameData :
      (nodes : ℕ → Node K) (p i : ℕ) (after : Option ℕ) → SameData nodes (put nodes p i after)
  put-SameData nodes p i after = record {
    keys = λ q. ground arith;
    values = λ q. ground arith;
    heights = λ q. ground arith;
  }

  put-next_on :
      (nodes : ℕ → Node K) (p i : ℕ) (after : Option ℕ) (j q : ℕ)
      → next_on (put nodes p i after) j q
        ≡ (if q == p then (if j == i then after else next_on nodes j q) else next_on nodes j q)
  put-next_on nodes p i after j q = ground arith

  -- Linking succeeds, and changes the pointers of its own level only.
  pub link_lem :
      (nodes : ℕ → Node K) (i new pred : ℕ)
      → i < (nodes new).height
      → i < (nodes pred).height
      → new ≢ pred
      → (nodes' : ℕ → Node K) × (link nodes i new pred ≡ some nodes')
        × SameData nodes nodes'
        × Linked (next_on nodes i) (next_on nodes' i) new pred
        × ((j q : ℕ) → i ≢ j → next_on nodes' j q ≡ next_on nodes j q)
  unfolding link get_next
  link_lem nodes i new pred h k ne =
      let after = (nodes pred).next i in
      let nodes₁ = put nodes new i after in
      let same = put-SameData nodes new i after in
      let high : i < (nodes₁ pred).height = omega (arith, same.heights pred) in
      let inside : ltb i (nodes pred).height ≡ true = ground arith in
      let second = put-next_on nodes₁ pred i (some new) in
      let first = put-next_on nodes new i after in
      (
        put nodes₁ pred i (some new),
        rw (link, inside, put_next-put nodes new i after h)
            (put_next-put nodes₁ pred i (some new) high),
        SameData-trans same (put-SameData nodes₁ pred i (some new)),
        record {
          from_pred = ground (arith, second i pred);
          from_new = ground (arith, second i new, first i new);
          others = λ q e f. ground (arith, second i q, first i q);
        },
        λ j q e. ground (arith, second j q, first j q),
      )
