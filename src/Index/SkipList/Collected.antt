-- ===== src/Index/SkipList/Collected.antt =====
-- What the second loop of a search collects.
use di_traffic_database.Common.{
  ℕ, zero, suc, ◌%◌, ◌^◌, ◌≤◌, ◌<◌, Bool, true, false, not, ◌&&◌, some, List, [], ◌∷◌, ◌++◌, ◌≡◌,
  refl, ap, arith, inl, inr, if◌then◌else◌, Bool-cases, length,
}
use di_traffic_database.Index.SkipList.{KeyType, Node, collect}
use di_traffic_database.Index.SkipList.Towers.{All, All-mono}
use di_traffic_database.Index.SkipList.Chain.{Chain, next_on, key_of}
use di_traffic_database.Index.SkipList.Order.{NotBelow, Sorted}
use di_traffic_database.Index.SkipList.Descent.{get_next-next_on}
use di_traffic_database.Index.SkipList.Valid.{entries}

pub not-not : (b : Bool) → not (not b) ≡ b
not-not true = refl
not-not false = refl

pub not-true : (b : Bool) → not b ≡ true → b ≡ false
not-true false h = refl
not-true true h = cc

-- The positions, as `u_int32_t`, of the entries whose keys satisfy `p`.
abbrev pub positions : {K : Type 0} → (K → Bool) → List (K × ℕ) → List ℕ
positions p [] = []
positions p (e ∷ es) = let rest = positions p es in if p e.0 then (e.1 % 2 ^ 32) ∷ rest else rest

module _ {K : Type 0} (nodes : ℕ → Node K) (skips stops : ℕ → Bool) where
  -- What `collect` takes of the nodes that it visits.
  abbrev pub collected : List ℕ → List ℕ
  collected [] = []
  collected (x ∷ xs) =
      let rest = collected xs in
      if skips x then rest else if stops x then [] else ((nodes x).value % 2 ^ 32) ∷ rest

  pub collect_lem :
      (fuel p : ℕ) (xs : List ℕ)
      → Chain (next_on nodes 0) p xs
      → All (λ q. 0 < (nodes q).height) xs
      → length xs ≤ fuel
      → collect nodes skips stops fuel (next_on nodes 0 p) ≡ some (collected xs)
  unfolding collect
  collect_lem zero p [] c h f = rw (c, collect)
  collect_lem (suc fuel) p [] c h f = rw (c, collect)
  collect_lem zero p (x ∷ xs) c h f = absurd (omega arith)
  collect_lem (suc fuel) p (x ∷ xs) c h f =
      let next = get_next-next_on nodes x 0 h.0 refl in
      let rest = collect_lem fuel x xs c.1 h.1 (omega arith) in
      elim (Bool-cases (skips x)) [
        | inl skip ↦ rw (c.0, collect, skip, next) rest
        | inr take ↦ elim (Bool-cases (stops x)) [
          | inl stop ↦ rw (c.0, collect, take, stop)
          | inr go ↦ rw (c.0, collect, take, go, next, rest)
        ]
      ]

  pub collected_skipped :
      (xs ys : List ℕ) → All (λ q. skips q ≡ true) xs → collected (xs ++ ys) ≡ collected ys
  collected_skipped [] ys h = refl
  collected_skipped (x ∷ xs) ys h = rw h.0 (collected_skipped xs ys h.1)

module _ {K : Type 0} (t : KeyType K) (nodes : ℕ → Node K) where
  -- If all that comes after a node that stops does not match, then no matching node is missed.
  pub collected-positions :
      (skips stops : ℕ → Bool) (p : K → Bool) (xs : List ℕ)
      → ((x : ℕ) → p (key_of nodes x) ≡ (not (skips x) && not (stops x)))
      → ((x y : ℕ)
          → NotBelow t.order (key_of nodes) (key_of nodes x) y
          → stops x ≡ true
          → stops y ≡ true)
      → Sorted t.order (key_of nodes) xs
      → collected nodes skips stops xs ≡ positions p (entries t nodes xs)
  collected-positions skips stops p [] same after s = refl
  collected-positions skips stops p (x ∷ xs) same after s =
      let ih = collected-positions skips stops p xs same after s.1 in
      elim (Bool-cases (skips x)) [
        | inl skip ↦ let out : p (key_of nodes x) ≡ false = rw (same x, skip) in rw (skip, out) ih
        | inr take ↦ elim (Bool-cases (stops x)) [
          | inr go ↦
              let matches : p (key_of nodes x) ≡ true = rw (same x, take, go) in
              rw (take, go, matches) (ap (λ l. ((nodes x).value % 2 ^ 32) ∷ l) ih)
          | inl stop ↦
              let out : p (key_of nodes x) ≡ false = rw (same x, take, stop) in
              rw (take, stop, out)
                (none_match xs (
                  All-mono (NotBelow t.order (key_of nodes) (key_of nodes x))
                    (λ y. p (key_of nodes y) ≡ false) xs
                    (λ y h. let ended = after x y h stop in rw (same y, ended) (no_match (skips y)))
                    s.0))
        ]
      ]
    where
      no_match : (b : Bool) → (not b && not true) ≡ false
      no_match true = refl
      no_match false = refl

      none_match :
          (ys : List ℕ)
          → All (λ y. p (key_of nodes y) ≡ false) ys
          → [] ≡ positions p (entries t nodes ys)
      none_match [] h = refl
      none_match (y ∷ ys) h = rw h.0 (none_match ys h.1)
