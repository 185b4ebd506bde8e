-- ===== src/Index/SkipList/Descent.antt =====
-- The loops of a search end, at the last node before the key on each level.
use mathlib.Core.List.{append_assoc, append-nil}
use di_traffic_database.Common.{
  ℕ, zero, suc, ◌-◌, ◌<◌, ◌≤◌, true, Option, some, List, [], ◌∷◌, ◌++◌, ◌≡◌, refl, ap, ◌∙◌, sym,
  subst, arith, inl, inr, ltb, ◌==◌, Bool-cases, length, length-append,
}
use di_traffic_database.DataNode.Text.{Str}
use di_traffic_database.Index.SkipList.{KeyType, Node, updated, get_next, advance, descend}
use di_traffic_database.Index.SkipList.Towers.{
  All, All-prefix, All-suffix, last, last-append, All-last, tall, All-tall, tall-high, length-tall,
  tall-below,
}
use di_traffic_database.Index.SkipList.Chain.{Chain, Chain-suffix, next_on, height_of}
use di_traffic_database.Index.SkipList.Order.{Below, NotBelow, is_less-compare_node_key}

module _ {K : Type 0} (nodes : ℕ → Node K) where
  pub get_next-next_on :
      (p i : ℕ) {after : Option ℕ}
      → i < (nodes p).height
      → next_on nodes i p ≡ after
      → get_next nodes p i ≡ some after
  unfolding get_next
  get_next-next_on p i h e =
      let inside : ltb i (nodes p).height ≡ true = ground arith in rw (inside, e)

module _ {K : Type 0} (t : KeyType K) (nodes : ℕ → Node K) where
  module _ (key : Str) where
    abbrev pub Low : ℕ → Type 0
    Low = Below t.order (λ p. (nodes p).key) (t.read key)

    abbrev pub High : ℕ → Type 0
    High = NotBelow t.order (λ p. (nodes p).key) (t.read key)

    pub advance_lem :
        (fuel i p : ℕ) (front back : List ℕ)
        → Chain (next_on nodes i) p (front ++ back)
        → i < (nodes p).height
        → All (λ q. i < (nodes q).height) front
        → All Low front
        → All High back
        → length front < fuel
        → advance t nodes key fuel i p ≡ some (last p front)
    unfolding advance
    advance_lem zero i p front back c h hs lows highs f = absurd (omega arith)
    advance_lem (suc fuel) i p [] [] c h hs lows highs f =
        rw (advance, get_next-next_on nodes p i h c)
    advance_lem (suc fuel) i p [] (y ∷ back) c h hs lows highs f =
        rw (
          advance,
          get_next-next_on nodes p i h c.0,
          is_less-compare_node_key t nodes y key,
          highs.0,
        )
    advance_lem (suc fuel) i p (x ∷ front) back c h hs lows highs f =
        rw
          (
            advance,
            get_next-next_on nodes p i h c.0,
            is_less-compare_node_key t nodes x key,
            lows.0,
          )
          (advance_lem fuel i x front back c.1 hs.0 hs.1 lows.1 highs (omega arith))

    -- `p` is the head or a node of level `i` in `front`.
    abbrev pub Reached : ℕ → ℕ → List ℕ → Type 0
    Reached i p front =
        (passed : List ℕ) × (ahead : List ℕ) × (tall (height_of nodes) i front ≡ passed ++ ahead)
        × (p ≡ last 0 passed)

    module _ (fuel : ℕ) (front back : List ℕ) (lows : All Low front) (highs : All High back)
        (enough : length front < fuel) where
      abbrev height : ℕ → ℕ
      height = height_of nodes

      abbrev LevelOk : ℕ → Type 0
      LevelOk i =
          Chain (next_on nodes i) 0 (tall height i front ++ tall height i back) × (i < height 0)

      -- One level: from a node of it that is before the key to the last such node.
      level_lem :
          (i p : ℕ)
          → LevelOk i
          → Reached i p front
          → advance t nodes key fuel i p ≡ some (last 0 (tall height i front))
      level_lem i p (chain, high) (passed, ahead, split, reached) =
          let behind = tall height i back in
          let whole =
            subst (λ l. Chain (next_on nodes i) 0 l)
              (ap (λ l. l ++ behind) split ∙ append_assoc passed ahead behind) chain in
          let highs' = subst (λ l. All (λ q. i < height q) l) split (tall-high height i front) in
          let lows' = subst (λ l. All Low l) split (All-tall height Low i front lows) in
          let size = ap length split ∙ length-append passed ahead in
          let from_p =
            advance_lem fuel i (last 0 passed) ahead behind
              (Chain-suffix (next_on nodes i) 0 passed (ahead ++ behind) whole)
              (All-last (λ q. i < height q) 0 passed high
                (All-prefix (λ q. i < height q) passed ahead highs'))
              (All-suffix (λ q. i < height q) passed ahead highs')
              (All-suffix Low passed ahead lows') (All-tall height High i back highs)
              (omega (arith, size, length-tall height i front)) in
          ap (λ q. advance t nodes key fuel i q) reached
          ∙ from_p
          ∙ ap some (sym (last-append 0 passed ahead) ∙ ap (last 0) (sym split))

      -- What the descent finds: on each level, the last node before the key.
      pub record Found (rounds : ℕ) (update update' : ℕ → Option ℕ) : Type 0 where
        pub inside : (i : ℕ) → i < rounds → update' i ≡ some (last 0 (tall height i front))
        pub outside : (i : ℕ) → rounds ≤ i → update' i ≡ update i

      next_level : (i : ℕ) → Reached (i - 1) (last 0 (tall height i front)) front
      next_level zero = (tall height 0 front, [], sym (append-nil _), refl)
      next_level (suc i) =
          subst (λ k. Reached k (last 0 (tall height (suc i) front)) front) (omega arith)
            (subst (λ k. Reached i (last 0 (tall height k front)) front) (omega arith)
              (tall-below height i 0 front))

      pub descend_lem :
          (rounds p : ℕ) (update : ℕ → Option ℕ)
          → ((i : ℕ) → i < rounds → LevelOk i)
          → Reached (rounds - 1) p front
          → (p' : ℕ) × (update' : ℕ → Option ℕ) × (descend t nodes key fuel rounds p update
              ≡ some (p', update'))
            × Reached 0 p' front
            × Found rounds update update'
      unfolding descend
      descend_lem zero p update levels at_p = (
        p,
        update,
        refl,
        at_p,
        record { inside = λ i h. absurd (omega arith); outside = λ i h. refl },
      )
      descend_lem (suc i) p update levels at_p =
          let q = last 0 (tall height i front) in
          let step =
            level_lem i p (levels i (omega arith))
              (subst (λ k. Reached k p front) (omega arith) at_p) in
          let (p', update', rest, at_end, found) =
            descend_lem i q (updated update i (some q)) (λ j h. levels j (omega arith))
              (next_level i) in
          (
            p',
            update',
            rw (descend, step) rest,
            at_end,
            record {
              inside = λ j h. elim (Bool-cases (j == i)) [
                | inl e ↦
                    let same : i ≡ j = ground arith in
                    found.outside j (omega (arith, same))
                    ∙ rw e (ap (λ k. some (last 0 (tall height k front))) same)
                | inr e ↦ found.inside j (ground arith)
              ];
              outside = λ j h. ground (arith, found.outside j);
            },
          )
