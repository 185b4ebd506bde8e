-- ===== src/Index/Generator/Drained.antt =====
-- What the loops put into the index.
use di_traffic_database.Common.{
  ℕ, zero, suc, ◌<◌, Bool, true, false, Option, none, some, List, [], ◌∷◌, ◌≡◌, ◌∙◌, ap, sym, arith,
  inl, inr, length, Option-cases,
}
use di_traffic_database.DataNode.Text.{Str}
use di_traffic_database.PipeRing.{PipeRing, done, get}
use di_traffic_database.PipeRing.Invariant.{IsValid, get-IsValid}
use di_traffic_database.PipeRing.Refine.{
  contents, abstracted_get, get_refines, done-injective, Outcome-cases,
}
use di_traffic_database.PipeRing.Queue
use di_traffic_database.Index.MemoryIndex.{MemoryIndex}
use di_traffic_database.Index.Generator.{
  FlowIndex, ended, Draws, later, put_index_to_cache, drain, run,
}

value_or : MemoryIndex → Option MemoryIndex → MemoryIndex
value_or d none = d
value_or d (some i) = i

some-injective : {i j : MemoryIndex} → some i ≡ some j → i ≡ j
unfolding value_or
some-injective {i} e = ap (value_or i) e

-- The pointers of flows, none of them null.
abbrev pub pointers : List FlowIndex → List (Option FlowIndex)
pointers [] = []
pointers (f ∷ flows) = some f ∷ pointers flows

-- `get` on a valid ring gives what the queue of its contents gives.
get_queued :
    {k : ℕ} {r : PipeRing FlowIndex} (q : List (Option FlowIndex))
    → IsValid k r
    → contents r ≡ q
    → (r' : PipeRing FlowIndex) × (get r ≡ done ((Queue.get q).0, r'))
      × IsValid k r'
      × (contents r' ≡ (Queue.get q).1)
get_queued {r = r} q v holds = elim (Outcome-cases (get r)) [
  | inl ((p, r'), e) ↦
      let same : (p, contents r') ≡ Queue.get q =
        done-injective
          (sym (ap abstracted_get e) ∙ get_refines v ∙ ap (λ c. done (Queue.get c)) holds) in
      (r', e ∙ ap (λ x. done (x.0, r')) same, get-IsValid v e, ap (λ x. x.1) same)
  | inr (inl e) ↦ cc (e, get_refines v)
  | inr (inr e) ↦ cc (e, get_refines v)
]

get_flow :
    {k : ℕ} {r : PipeRing FlowIndex} (f : FlowIndex) (flows : List FlowIndex)
    → IsValid k r
    → contents r ≡ pointers (f ∷ flows)
    → (r' : PipeRing FlowIndex) × (get r ≡ done (some f, r'))
      × IsValid k r'
      × (contents r' ≡ pointers flows)
unfolding Queue.get
get_flow f flows v holds = get_queued (pointers (f ∷ flows)) v holds

get_nothing :
    {k : ℕ} {r : PipeRing FlowIndex}
    → IsValid k r
    → contents r ≡ []
    → (r' : PipeRing FlowIndex) × (get r ≡ done (none, r')) × IsValid k r' × (contents r' ≡ [])
unfolding Queue.get
get_nothing v holds = get_queued [] v holds

module _ (hash : Str → ℕ) (hash_word : ℕ → ℕ) where
  -- The flows inserted one after the other.
  abbrev pub all_put : Draws → MemoryIndex → List FlowIndex → Option MemoryIndex
  all_put draws index [] = some index
  all_put draws index (f ∷ flows) = elim (put_index_to_cache hash hash_word (draws 0) index f) [
    | none ↦ none
    | some index' ↦ all_put (later draws) index' flows
  ]

  drain-all_put :
      (draws : Draws) (rounds : ℕ) {k : ℕ} {ring : PipeRing FlowIndex} (index index' : MemoryIndex)
      (flows : List FlowIndex)
      → IsValid k ring
      → contents ring ≡ pointers flows
      → length flows < rounds
      → all_put draws index flows ≡ some index'
      → (ring' : PipeRing FlowIndex) × (drain hash hash_word draws rounds ring index
          ≡ ended ring' index')
        × IsValid k ring'
        × (contents ring' ≡ [])
  unfolding drain
  drain-all_put draws zero index index' flows v holds more puts = absurd (omega arith)
  drain-all_put draws (suc rounds) index index' [] v holds more puts =
      let (ring', got, v', empty) = get_nothing v holds in
      (ring', rw (drain, got) (ap (ended ring') (some-injective puts)), v', empty)
  drain-all_put draws (suc rounds) index index' (f ∷ flows) v holds more puts =
      let (ring₁, got, v₁, rest) = get_flow f flows v holds in
      elim (Option-cases (put_index_to_cache hash hash_word (draws 0) index f)) [
        | inl refused ↦ cc (rw (all_put, refused) at puts)
        | inr (index₁, put) ↦
            let (ring', run, v', empty) =
              drain-all_put (later draws) rounds index₁ index' flows v₁ rest (omega (arith, more))
                (rw (all_put, put) at puts) in
            (ring', rw (drain, got, put, run), v', empty)
      ]

-- The flows without the one that the round `n` reads.
abbrev pub without : ℕ → List FlowIndex → List FlowIndex
without n [] = []
without zero (f ∷ flows) = flows
without (suc n) (f ∷ flows) = f ∷ without n flows

-- What the rounds see of `stop`: the round `n` is the first one that sees it.
abbrev pub stopped_at : ℕ → List Bool
stopped_at zero = true ∷ []
stopped_at (suc n) = false ∷ stopped_at n

-- If no thread puts flows into a valid ring any more, and the first loop sees the stop in the round `n`, then
-- `run` ends with an empty ring after one round more than there are flows in the second loop at most, and the
-- index has all flows of the ring inserted in their order, except the one that the round `n` reads. The
-- insertions make no fault.
pub run-all_put :
    (hash : Str → ℕ) (hash_word : ℕ → ℕ) (draws : Draws) (n rounds : ℕ) {k : ℕ}
    (ring : PipeRing FlowIndex) (index index' : MemoryIndex) (flows : List FlowIndex)
    → IsValid k ring
    → contents ring ≡ pointers flows
    → length flows < rounds
    → all_put hash hash_word draws index (without n flows) ≡ some index'
    → (ring' : PipeRing FlowIndex) × (run hash hash_word draws (stopped_at n) rounds ring index
        ≡ ended ring' index')
      × IsValid k ring'
      × (contents ring' ≡ [])
unfolding run
run-all_put hash hash_word draws zero rounds ring index index' [] v holds more puts =
    let (ring₁, got, v₁, rest) = get_nothing v holds in
    let (ring', drained, v', empty) =
      drain-all_put hash hash_word draws rounds index index' [] v₁ rest more puts in
    (ring', rw (run, got, drained), v', empty)
run-all_put hash hash_word draws zero rounds ring index index' (f ∷ flows) v holds more puts =
    let (ring₁, got, v₁, rest) = get_flow f flows v holds in
    let (ring', drained, v', empty) =
      drain-all_put hash hash_word draws rounds index index' flows v₁ rest (omega (arith, more))
        puts in
    (ring', rw (run, got, drained), v', empty)
run-all_put hash hash_word draws (suc n) rounds ring index index' [] v holds more puts =
    let (ring₁, got, v₁, rest) = get_nothing v holds in
    let (ring', ran, v', empty) =
      run-all_put hash hash_word draws n rounds ring₁ index index' [] v₁ rest more puts in
    (ring', rw (run, got, ran), v', empty)
run-all_put hash hash_word draws (suc n) rounds ring index index' (f ∷ flows) v holds more puts =
    let (ring₁, got, v₁, rest) = get_flow f flows v holds in
    elim (Option-cases (put_index_to_cache hash hash_word (draws 0) index f)) [
      | inl refused ↦ cc (rw (all_put, refused) at puts)
      | inr (index₁, put) ↦
          let (ring', ran, v', empty) =
            run-all_put hash hash_word (later draws) n rounds ring₁ index₁ index' flows v₁ rest
              (omega (arith, more)) (rw (all_put, put) at puts) in
          (ring', rw (run, got, put, ran), v', empty)
    ]
