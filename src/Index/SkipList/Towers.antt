-- ===== src/Index/SkipList/Towers.antt =====
-- The order in which the lowest level visits the nodes, and the part of it that a level visits.
use di_traffic_database.Common.{
  ℕ, ◌+◌, ◌≤◌, ◌<◌, false, ltb, List, [], ◌∷◌, ◌++◌, ◌≡◌, ◌≢◌, refl, ap, inl, inr, arith,
  if◌then◌else◌, length, Bool-cases,
}

abbrev pub All {ℓ} : {A : Type 0} → (A → Type ℓ) → List A → Type ℓ
All P [] = Unit
All P (x ∷ xs) = P x × All P xs

pub All-of {ℓ} : {A : Type 0} (P : A → Type ℓ) (xs : List A) → ((x : A) → P x) → All P xs
All-of P [] h = tt
All-of P (x ∷ xs) h = (h x, All-of P xs h)

pub All-append {ℓ} :
    {A : Type 0} (P : A → Type ℓ) (xs ys : List A) → All P xs → All P ys → All P (xs ++ ys)
All-append P [] ys h k = k
All-append P (x ∷ xs) ys h k = (h.0, All-append P xs ys h.1 k)

pub All-prefix {ℓ} : {A : Type 0} (P : A → Type ℓ) (xs ys : List A) → All P (xs ++ ys) → All P xs
All-prefix P [] ys h = tt
All-prefix P (x ∷ xs) ys h = (h.0, All-prefix P xs ys h.1)

pub All-suffix {ℓ} : {A : Type 0} (P : A → Type ℓ) (xs ys : List A) → All P (xs ++ ys) → All P ys
All-suffix P [] ys h = h
All-suffix P (x ∷ xs) ys h = All-suffix P xs ys h.1

pub All-mono {ℓ κ} :
    {A : Type 0} (P : A → Type ℓ) (Q : A → Type κ) (xs : List A)
    → ((x : A) → P x → Q x)
    → All P xs
    → All Q xs
All-mono P Q [] f h = tt
All-mono P Q (x ∷ xs) f h = (f x h.0, All-mono P Q xs f h.1)

abbrev pub Distinct : List ℕ → Type 0
Distinct [] = Unit
Distinct (x ∷ xs) = All (λ y. x ≢ y) xs × Distinct xs

pub Distinct-insert :
    (xs ys : List ℕ) (p : ℕ)
    → Distinct (xs ++ ys)
    → All (λ y. p ≢ y) (xs ++ ys)
    → Distinct (xs ++ (p ∷ ys))
Distinct-insert [] ys p d f = (f, d)
Distinct-insert (x ∷ xs) ys p d f = (
  All-append (λ y. x ≢ y) xs (p ∷ ys) (All-prefix (λ y. x ≢ y) xs ys d.0)
      ((λ e. f.0 (omega arith)), All-suffix (λ y. x ≢ y) xs ys d.0),
  Distinct-insert xs ys p d.1 f.1,
)

-- The last of `p` and the elements.
abbrev pub last : ℕ → List ℕ → ℕ
last p [] = p
last p (x ∷ xs) = last x xs

pub last-append : (p : ℕ) (xs ys : List ℕ) → last p (xs ++ ys) ≡ last (last p xs) ys
last-append p [] ys = refl
last-append p (x ∷ xs) ys = last-append x xs ys

pub All-last {ℓ} : (P : ℕ → Type ℓ) (p : ℕ) (xs : List ℕ) → P p → All P xs → P (last p xs)
All-last P p [] h k = h
All-last P p (x ∷ xs) h k = All-last P x xs k.0 k.1

skip_first :
    (p x : ℕ) (level above : List ℕ)
    → (front : List ℕ) × (back : List ℕ) × (level ≡ front ++ back) × (last p above ≡ last p front)
    → (front : List ℕ) × (back : List ℕ) × ((x ∷ level) ≡ front ++ back)
      × (last p above ≡ last p front)
skip_first p x level above ([], back, split, same) = ([], x ∷ level, refl, same)
skip_first p x level above (a ∷ front, back, split, same) =
    (x ∷ a ∷ front, back, ap (λ l. x ∷ l) split, same)

module _ (height : ℕ → ℕ) where
  -- The nodes that have a pointer on level `i`.
  abbrev pub tall : ℕ → List ℕ → List ℕ
  tall i [] = []
  tall i (x ∷ xs) = let rest = tall i xs in if ltb i (height x) then x ∷ rest else rest

  pub tall-append : (i : ℕ) (xs ys : List ℕ) → tall i (xs ++ ys) ≡ tall i xs ++ tall i ys
  tall-append i [] ys = refl
  tall-append i (x ∷ xs) ys = elim (Bool-cases (ltb i (height x))) [
    | inl e ↦ rw e (ap (λ l. x ∷ l) (tall-append i xs ys))
    | inr e ↦ rw e (tall-append i xs ys)
  ]

  pub All-tall {ℓ} : (P : ℕ → Type ℓ) (i : ℕ) (xs : List ℕ) → All P xs → All P (tall i xs)
  All-tall P i [] h = tt
  All-tall P i (x ∷ xs) h = elim (Bool-cases (ltb i (height x))) [
    | inl e ↦ rw e (h.0, All-tall P i xs h.1)
    | inr e ↦ rw e (All-tall P i xs h.1)
  ]

  pub tall-high : (i : ℕ) (xs : List ℕ) → All (λ p. i < height p) (tall i xs)
  tall-high i [] = tt
  tall-high i (x ∷ xs) = elim (Bool-cases (ltb i (height x))) [
    | inl e ↦ rw e ((ground arith), tall-high i xs)
    | inr e ↦ rw e (tall-high i xs)
  ]

  pub Distinct-tall : (i : ℕ) (xs : List ℕ) → Distinct xs → Distinct (tall i xs)
  Distinct-tall i [] d = tt
  Distinct-tall i (x ∷ xs) d = elim (Bool-cases (ltb i (height x))) [
    | inl e ↦ rw e (All-tall (λ y. x ≢ y) i xs d.0, Distinct-tall i xs d.1)
    | inr e ↦ rw e (Distinct-tall i xs d.1)
  ]

  pub length-tall : (i : ℕ) (xs : List ℕ) → length (tall i xs) ≤ length xs
  length-tall i [] = omega arith
  length-tall i (x ∷ xs) = elim (Bool-cases (ltb i (height x))) [
    | inl e ↦ rw e (omega (arith, length-tall i xs))
    | inr e ↦ rw e (omega (arith, length-tall i xs))
  ]

  pub tall_whole : (xs : List ℕ) → All (λ p. 0 < height p) xs → tall 0 xs ≡ xs
  tall_whole [] h = refl
  tall_whole (x ∷ xs) h = ground (arith, tall_whole xs h.1)

  -- The last node of a level is on the level below too, where some nodes may follow.
  pub tall-below :
      (i p : ℕ) (xs : List ℕ)
      → (front : List ℕ) × (back : List ℕ) × (tall i xs ≡ front ++ back)
        × (last p (tall (i + 1) xs) ≡ last p front)
  tall-below i p [] = ([], [], refl, refl)
  tall-below i p (x ∷ xs) = elim (Bool-cases (ltb i (height x))) [
    | inr low ↦
        let not_higher : ltb (i + 1) (height x) ≡ false = ground arith in
        rw (low, not_higher) (tall-below i p xs)
    | inl high ↦ elim (Bool-cases (ltb (i + 1) (height x))) [
      | inl higher ↦
          let (front, back, split, same) = tall-below i x xs in
          rw (high, higher) (x ∷ front, back, ap (λ l. x ∷ l) split, same)
      | inr lower ↦
          rw (high, lower) (skip_first p x (tall i xs) (tall (i + 1) xs) (tall-below i p xs))
    ]
  ]

pub tall-cong :
    (h h' : ℕ → ℕ) (i : ℕ) (xs : List ℕ) → All (λ p. h' p ≡ h p) xs → tall h' i xs ≡ tall h i xs
tall-cong h h' i [] e = refl
tall-cong h h' i (x ∷ xs) e = rw (e.0, tall-cong h h' i xs e.1)
