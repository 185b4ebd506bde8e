-- ===== src/DataNode/Maps.antt =====
-- `std::unordered_map`. One keyed by names is the list of its entries in its order of iteration, which
-- a copy of the map keeps; one keyed by numbers is never iterated, and is a function.
use di_traffic_database.Common.{
  ℕ, Bool, Option, none, some, List, [], ◌∷◌, ◌≡◌, ◌==◌, if◌then◌else◌, true, false, Bool-cases,
  inl, inr,
}
use di_traffic_database.DataNode.Text.{Str, str_eq, str_eq_refl}

abbrev pub Dict {ℓ} : Type ℓ → Type ℓ
Dict V = List (Str × V)

module _ {ℓ} {V : Type ℓ} where
  unfoldable pub find : Str → Dict V → Option V
  find k [] = none
  find k ((j, v) ∷ d) = if str_eq j k then some v else find k d

  -- `d[k] = v`
  unfoldable pub insert : Str → V → Dict V → Dict V
  insert k v [] = (k, v) ∷ []
  insert k v ((j, w) ∷ d) = if str_eq j k then (j, v) ∷ d else (j, w) ∷ insert k v d

  unfoldable pub contains : Str → Dict V → Bool
  unfolding find
  contains k d = elim (find k d) [ none ↦ false | some _ ↦ true ]

  pub find-insert_self : (k : Str) (v : V) (d : Dict V) → find k (insert k v d) ≡ some v
  unfolding find insert
  find-insert_self k v [] = rw (str_eq_refl k)
  find-insert_self k v ((j, w) ∷ d) = elim (Bool-cases (str_eq j k)) [
    | inl same ↦ rw (same, same)
    | inr other ↦ rw (other, other) (find-insert_self k v d)
  ]

abbrev pub Table {ℓ} : Type ℓ → Type ℓ
Table V = ℕ → Option V

module _ {ℓ} {V : Type ℓ} where
  abbrev pub no_entries : Table V
  no_entries k = none

  abbrev pub put : ℕ → V → Table V → Table V
  put k v t j = if j == k then some v else t j

  abbrev pub erase : ℕ → Table V → Table V
  erase k t j = if j == k then none else t j
