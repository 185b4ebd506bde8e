-- ===== src/PipeRing/Refine.antt =====
-- A valid ring behaves as the bounded queue of the pointers that it holds.
use native.Mathlib.Nat.{
  mod-lt, mod-add-mod, mod-eq_of_lt, mod-eq-sub-mod, mod-mod_of_dvd, dvd-mul_right,
}
use Prim.Native.Nat.{◌∣◌}
use native.Mathlib.Decide.{dec_lt}
use di_traffic_database.Common.{
  ℕ, zero, suc, ◌-◌, ◌+◌, ◌%◌, ◌^◌, ◌<◌, Option, none, List, [], ◌∷◌, ◌++◌, ◌≡◌, ◌≢◌, refl, ap, ap₂,
  ◌∙◌, sym, arith, ==_iff, Bool-cases, ◌==◌, inl, inr, false, ◌⊎◌, ◌/◌, add64, u64, subst, length,
  get_or, set, get_or-set_self, get_or-set_ne,
}
use di_traffic_database.Common.Bits.{pow-add}
use di_traffic_database.PipeRing.{
  PipeRing, Outcome, done, waiting, division_by_zero, Call, puts, gets, put, get, run, slot, masked,
}
use di_traffic_database.PipeRing.Queue
use di_traffic_database.PipeRing.Slots.{
  IsCapacity, capacity_bounds, eight_times_pow, masked_lem, slot-lt, slot-injective,
}
use di_traffic_database.PipeRing.Invariant.{IsValid, count, put-IsValid, get-IsValid}

module _ {ℓ} {A : Type ℓ} (pointers : List (Option A)) (capacity : ℕ) where
  -- The `n` pointers from position `pos` on.
  unfoldable pub window : ℕ → ℕ → List (Option A)
  window pos zero = []
  window pos (suc n) =
      get_or pointers (slot capacity (masked capacity pos)) none ∷ window (add64 pos 1) n

  length-window : (pos n : ℕ) → length (window pos n) ≡ n
  unfolding window
  length-window pos zero = refl
  length-window pos (suc n) = ap suc (length-window (add64 pos 1) n)

unfoldable pub contents {ℓ} : {A : Type ℓ} → PipeRing A → List (Option A)
contents r = window r.pointers r.capacity r.read_pos (count r)

-- The outcome of a call, with the contents in place of the ring.
abbrev pub abstracted {ℓ} : {A : Type ℓ} → Outcome (PipeRing A) → Outcome (List (Option A))
abstracted (done r) = done (contents r)
abstracted waiting = waiting
abstracted division_by_zero = division_by_zero

abbrev pub abstracted_get {ℓ} :
    {A : Type ℓ} → Outcome (Option A × PipeRing A) → Outcome (Option A × List (Option A))
abstracted_get (done (p, r)) = done (p, contents r)
abstracted_get waiting = waiting
abstracted_get division_by_zero = division_by_zero

-- Fewer than `m` steps round a circle of `m` do not come back to the start.
around-ne : (m a n : ℕ) → a < m → 0 < n → n < m → (a + n) % m ≢ a
around-ne m a n ha hn hm = elim (dec_lt (a + n) m) [
  | yes below ↦ omega (arith, mod-eq_of_lt below)
  | no beyond ↦ omega (
    arith,
    mod-eq-sub-mod {n = a + n} {m = m} (omega arith),
    mod-eq_of_lt {n = a + n - m} {m = m} (omega arith),
  )
]

-- A capacity divides the modulus of the counters, so that the counters may wrap.
capacity-dvd : {capacity k : ℕ} → IsCapacity capacity k → capacity ∣ 2 ^ 64
capacity-dvd {capacity} {k} c =
    rw (c.eight_times, ← eight_times_pow k)
      (subst (λ t. 2 ^ (3 + k) ∣ t)
        (sym (pow-add 2 (3 + k) (61 - k)) ∙ ap (λ (t : ℕ). 2 ^ t) {y = 64} (omega (arith, c.small)))
        (dvd-mul_right (2 ^ (3 + k)) (2 ^ (61 - k))))

masked-u64 :
    {capacity k : ℕ} (pos : ℕ) → IsCapacity capacity k → masked capacity (u64 pos) ≡ pos % capacity
masked-u64 {capacity} pos c = masked_lem (u64 pos) c ∙ mod-mod_of_dvd capacity pos (capacity-dvd c)

masked-lt : {capacity k : ℕ} (pos : ℕ) → IsCapacity capacity k → masked capacity pos < capacity
masked-lt {capacity} pos c =
    rw (masked_lem pos c) (mod-lt pos {m = capacity} (omega (arith, capacity_bounds c)))

slots_differ :
    {capacity k : ℕ} (pos n : ℕ)
    → IsCapacity capacity k
    → 0 < n
    → n < capacity
    → slot capacity (masked capacity (add64 pos n)) ≢ slot capacity (masked capacity pos)
slots_differ {capacity} {k} pos n c p h e =
    around-ne capacity (pos % capacity) n (mod-lt pos (omega arith)) p h
      (mod-add-mod pos capacity n ∙ sym (masked-u64 (pos + n) c) ∙ same ∙ masked_lem pos c)
  where
    same : masked capacity (add64 pos n) ≡ masked capacity pos
    same =
        slot-injective (masked capacity (add64 pos n)) (masked capacity pos) c
          (masked-lt (add64 pos n) c) (masked-lt pos c) e

-- Writing just past a window extends it by that pointer.
window-set {ℓ} :
    {A : Type ℓ} {capacity k : ℕ} (pointers : List (Option A)) (p : Option A) (pos n target : ℕ)
    → IsCapacity capacity k
    → length pointers ≡ capacity
    → n < capacity
    → target ≡ slot capacity (masked capacity (add64 pos n))
    → window (set pointers target p) capacity pos (suc n)
      ≡ window pointers capacity pos n ++ (p ∷ [])
unfolding window
window-set {capacity} pointers p pos zero target c l h e =
    rw (e, same) (ap (λ q. q ∷ []) (get_or-set_self pointers here p none inside))
  where
    here : ℕ
    here = slot capacity (masked capacity pos)

    same : masked capacity (add64 pos 0) ≡ masked capacity pos
    same =
        masked-u64 (pos + 0) c
        ∙ ap (λ (t : ℕ). t % capacity) {y = pos} (omega arith)
        ∙ sym (masked_lem pos c)

    inside : here < length pointers
    inside = rw l (slot-lt (masked capacity pos) c (masked-lt pos c))
window-set {capacity} pointers p pos (suc n) target c l h e =
    ap₂ ◌∷◌ (get_or-set_ne pointers p none (rw e (slots_differ pos (suc n) c (omega arith) h))) (
      window-set pointers p (add64 pos 1) n target c l (omega arith)
        (e ∙ ap (λ (t : ℕ). slot capacity (masked capacity t)) later))
  where
    later : add64 pos (suc n) ≡ add64 (add64 pos 1) n
    later = omega arith

pub length-contents {ℓ} : {A : Type ℓ} (r : PipeRing A) → length (contents r) ≡ count r
unfolding contents
length-contents r = length-window r.pointers r.capacity r.read_pos (count r)

module _ {ℓ} {A : Type ℓ} {k : ℕ} {r : PipeRing A} (v : IsValid k r) where
  -- The ring after a `put` that found room.
  abbrev after_put : Option A → PipeRing A
  after_put p = record r {
    pointers = set r.pointers (slot r.capacity (masked r.capacity r.write_pos)) p;
    write_pos = add64 r.write_pos 1;
  }

  contents-after_put :
      (p : Option A) → suc (count r) < r.capacity → contents (after_put p) ≡ contents r ++ (p ∷ [])
  unfolding contents
  contents-after_put p h =
      ap (window (after_put p).pointers r.capacity r.read_pos) more
      ∙ window-set r.pointers p r.read_pos (count r)
          (slot r.capacity (masked r.capacity r.write_pos)) v.usable v.allocated (omega arith)
          (ap (λ (t : ℕ). slot r.capacity (masked r.capacity t)) {y = add64 r.read_pos (count r)}
            (omega (arith, v.write_word, v.read_word)))
    where
      more : count (after_put p) ≡ suc (count r)
      more = omega (arith, capacity_bounds v.usable)

  -- `put` does to a valid ring what the queue's `put` does to its contents: it spins exactly when the
  -- queue is full, and otherwise appends the pointer.
  pub put_refines : (p : Option A) → abstracted (put r p) ≡ Queue.put r.capacity (contents r) p
  unfolding put Queue.put
  put_refines p = ground (arith, capacity_bounds v.usable, length-contents r, contents-after_put p)

  -- The ring after a `get` that found a pointer.
  abbrev after_get : PipeRing A
  after_get = record r { read_pos = add64 r.read_pos 1 }

  contents-after_get :
      r.write_pos ≢ r.read_pos
      → contents r
        ≡ get_or r.pointers (slot r.capacity (masked r.capacity r.read_pos)) none
          ∷ contents after_get
  unfolding contents window
  contents-after_get h = ap (window r.pointers r.capacity r.read_pos) fewer
    where
      fewer : count r ≡ suc (count after_get)
      fewer = omega (arith, v.write_word, v.read_word)

  contents-empty : r.write_pos ≡ r.read_pos → contents r ≡ []
  unfolding contents window
  contents-empty e = ap (window r.pointers r.capacity r.read_pos) {y = 0} (omega arith)

  -- `get` on a valid ring returns and removes the oldest pointer, and returns `nullptr` when there is
  -- none.
  pub get_refines : abstracted_get (get r) ≡ done (Queue.get (contents r))
  unfolding get Queue.get
  get_refines = elim (Bool-cases (r.write_pos == r.read_pos)) [
    | inl same ↦ rw (same, contents-empty ((==_iff r.write_pos r.read_pos).0 same))
    | inr apart ↦ rw (apart, no_division_by_zero, contents-after_get (ground arith))
  ]
    where
      no_division_by_zero : (r.capacity / 8 == 0) ≡ false
      no_division_by_zero = ground (arith, capacity_bounds v.usable)

payload {ℓ} : {A : Type ℓ} → A → Outcome A → A
payload d (done a) = a
payload d waiting = d
payload d division_by_zero = d

pub done-injective {ℓ} : {A : Type ℓ} {a b : A} → done a ≡ done b → a ≡ b
unfolding payload
done-injective {a = a} e = ap (payload a) e

pub Outcome-cases {ℓ} :
    {A : Type ℓ} (o : Outcome A)
    → ((a : A) × (o ≡ done a)) ⊎ ((o ≡ waiting) ⊎ (o ≡ division_by_zero))
Outcome-cases (done a) = inl (a, refl)
Outcome-cases waiting = inr (inl refl)
Outcome-cases division_by_zero = inr (inr refl)

module _ {ℓ} {A : Type ℓ} where
  capacity-put :
      (r : PipeRing A) (p : Option A) {r' : PipeRing A}
      → put r p ≡ done r'
      → r'.capacity ≡ r.capacity
  unfolding put
  capacity-put r p e = ground arith

  capacity-get :
      (r : PipeRing A) {p : Option A} {r' : PipeRing A}
      → get r ≡ done (p, r')
      → r'.capacity ≡ r.capacity
  unfolding get
  capacity-get r e = ground arith

  -- A valid ring replies to every sequence of calls as the bounded queue of its contents does: the
  -- same pointers in the same order, a wait exactly when the queue is full, and never a division by
  -- zero.
  pub run_refines :
      (calls : List (Call A)) {k : ℕ} {r : PipeRing A}
      → IsValid k r
      → run r calls ≡ Queue.run r.capacity (contents r) calls
  unfolding run Queue.run
  run_refines [] v = refl
  run_refines (puts p ∷ calls) {r = r} v = elim (Outcome-cases (put r p)) [
    | inl (r', e) ↦
        rw (run, Queue.run, ← put_refines v p, e)
          (ap (λ rest. done none ∷ rest)
            (run_refines calls (put-IsValid v p e)
              ∙ ap (λ c. Queue.run c (contents r') calls) (capacity-put r p e)))
    | inr (inl e) ↦ rw (run, Queue.run, ← put_refines v p, e, run_refines calls v)
    | inr (inr e) ↦ rw (run, Queue.run, ← put_refines v p, e)
  ]
  run_refines (gets ∷ calls) {r = r} v = elim (Outcome-cases (get r)) [
    | inl ((p, r'), e) ↦
        let q : done (p, contents r') ≡ done (Queue.get (contents r)) = rw e at (get_refines v) in
        rw (run, Queue.run, e, ← done-injective q)
          (ap (λ rest. done p ∷ rest)
            (run_refines calls (get-IsValid v e)
              ∙ ap (λ c. Queue.run c (contents r') calls) (capacity-get r e)))
    | inr (inl e) ↦ cc (e, get_refines v)
    | inr (inr e) ↦ cc (e, get_refines v)
  ]
