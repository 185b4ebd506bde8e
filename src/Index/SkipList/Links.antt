-- ===== src/Index/SkipList/Links.antt =====
-- Linking a node on its levels.
use di_traffic_database.Common.{
  ℕ, zero, suc, ◌+◌, ◌≤◌, ◌<◌, ◌-◌, Option, some, ◌≡◌, ◌≢◌, refl, ◌∙◌, sym, subst, arith, inl, inr,
  ◌==◌, Bool-cases,
}
use di_traffic_database.Index.SkipList.{Node, climb, random_level, link_levels}
use di_traffic_database.Index.SkipList.Chain.{Linked, SameData, SameData-trans, next_on, link_lem}

Linked-cong :
    {next next' : ℕ → Option ℕ} {new pred : ℕ} (before after : ℕ → Option ℕ)
    → ((q : ℕ) → before q ≡ next q)
    → ((q : ℕ) → after q ≡ next' q)
    → Linked next next' new pred
    → Linked before after new pred
Linked-cong {new} {pred} before after e f l = record {
  from_pred = f pred ∙ l.from_pred;
  from_new = f new ∙ l.from_new ∙ sym (e pred);
  others = λ q a b. f q ∙ l.others q a b ∙ sym (e q);
}

module _ {K : Type 0} where
  -- The loop links the node on the levels from `i` on, and changes no other level.
  pub record LinkedOn (nodes nodes' : ℕ → Node K) (new : ℕ) (pred : ℕ → ℕ) (i left : ℕ)
      : Type 0 where
    pub same_data : SameData nodes nodes'
    pub inside :
        (j : ℕ) → i ≤ j → j < i + left → Linked (next_on nodes j) (next_on nodes' j) new (pred j)
    pub below : (j q : ℕ) → j < i → next_on nodes' j q ≡ next_on nodes j q
    pub above : (j q : ℕ) → i + left ≤ j → next_on nodes' j q ≡ next_on nodes j q

  pub link_levels_lem :
      (left : ℕ) (nodes : ℕ → Node K) (new i : ℕ) (update : ℕ → Option ℕ) (pred : ℕ → ℕ)
      → i + left ≤ (nodes new).height
      → ((j : ℕ) → j < i + left → update j ≡ some (pred j))
      → ((j : ℕ) → j < i + left → j < (nodes (pred j)).height)
      → ((j : ℕ) → new ≢ pred j)
      → (nodes' : ℕ → Node K) × (link_levels nodes new update i left ≡ some nodes')
        × LinkedOn nodes nodes' new pred i left
  unfolding link_levels
  link_levels_lem zero nodes new i update pred tall found high apart = (
    nodes,
    refl,
    record {
      same_data = record { keys = λ q. refl; values = λ q. refl; heights = λ q. refl };
      inside = λ j h k. absurd (omega arith);
      below = λ j q h. refl;
      above = λ j q h. refl;
    },
  )
  link_levels_lem (suc left) nodes new i update pred tall found high apart =
      let (nodes₁, linked, same, here, elsewhere) =
        link_lem nodes i new (pred i) (omega arith) (high i (omega arith)) (apart i) in
      let (nodes', rest, on) =
        link_levels_lem left nodes₁ new (i + 1) update pred (omega (arith, same.heights new))
          (λ j h. found j (omega arith))
          (λ j h. omega (arith, same.heights (pred j), high j (omega arith))) apart in
      (
        nodes',
        rw (link_levels, found i (omega arith), linked) rest,
        record {
          same_data = SameData-trans same on.same_data;
          inside = λ j h k. elim (Bool-cases (i == j)) [
            | inl e ↦
                let at_i : i ≡ j = ground arith in
                subst (λ l. Linked (next_on nodes l) (next_on nodes' l) new (pred l)) at_i
                  (Linked-cong (next_on nodes i) (next_on nodes' i) (λ q. refl)
                    (λ q. on.below i q (omega arith)) here)
            | inr e ↦
                let past : i ≢ j = ground arith in
                Linked-cong (next_on nodes j) (next_on nodes' j) (λ q. sym (elsewhere j q past))
                  (λ q. refl) (on.inside j (omega arith) (omega arith))
          ];
          below = λ j q h. on.below j q (omega arith) ∙ elsewhere j q (omega arith);
          above = λ j q h. on.above j q (omega arith) ∙ elsewhere j q (omega arith);
        },
      )

climb_bounds :
    (rand : ℕ → ℕ) (i lvl left : ℕ)
    → (lvl ≤ climb rand i lvl left) × (climb rand i lvl left ≤ lvl + left)
unfolding climb
climb_bounds rand i lvl zero = (omega arith, omega arith)
climb_bounds rand i lvl (suc left) = ground (arith, climb_bounds rand (i + 1) (lvl + 1) left)

pub random_level_bounds :
    (rand : ℕ → ℕ) (max_level : ℕ)
    → 0 < max_level
    → (0 < random_level rand max_level) × (random_level rand max_level ≤ max_level)
unfolding random_level
random_level_bounds rand max_level h = ground (arith, climb_bounds rand 0 1 (max_level - 1))
