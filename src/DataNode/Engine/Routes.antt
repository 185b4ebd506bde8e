-- ===== src/DataNode/Engine/Routes.antt =====
-- Where the signals of a region go, and in which order.
use mathlib.Core.List.{append-nil, append_assoc}
use di_traffic_database.Common.{
  ℕ, Bool, true, false, ◌%◌, ◌<◌, some, List, [], ◌∷◌, ◌++◌, ◌==◌, ==_iff, if◌then◌else◌, ◌≡◌, refl,
  arith, Bool-cases, inl, inr, sym, ap, ◌∙◌,
}
use di_traffic_database.DataNode.Requests.{Signal}
use di_traffic_database.DataNode.Engine.{Engine, create, region_id_to_worker_id, handle_signal, run}

abbrev pub keep : (Signal → Bool) → List Signal → List Signal
keep p [] = []
keep p (s ∷ rest) = if p s then s ∷ keep p rest else keep p rest

-- The signals of worker `i` out of `count` workers.
abbrev pub for_worker : ℕ → ℕ → List Signal → List Signal
for_worker count i = keep (λ s. i == s.region_id % count)

-- The signals of region `id`.
abbrev pub for_region : ℕ → List Signal → List Signal
for_region id = keep (λ s. s.region_id == id)

-- The engine after it has passed the signal `s` on.
passed : Engine → Signal → Engine
passed e s = record e {
  worker_pipes = λ i.
      if i == s.region_id % e.worker_count then e.worker_pipes i ++ (s ∷ []) else e.worker_pipes i;
}

passes : (e : Engine) (s : Signal) → 0 < e.worker_count → handle_signal e s ≡ some (passed e s)
unfolding handle_signal region_id_to_worker_id passed
passes e s workers =
    let no_fault : (e.worker_count == 0) ≡ false = ground arith in rw (no_fault, handle_signal)

-- With at least one worker, the engine passes every signal on, and each worker gets exactly the signals
-- of its regions, in their order.
pub run-for_worker :
    (signals : List Signal) (e : Engine)
    → 0 < e.worker_count
    → (e' : Engine) × (run e signals ≡ some e')
      × ((i : ℕ) → e'.worker_pipes i ≡ e.worker_pipes i ++ for_worker e.worker_count i signals)
unfolding run passed
run-for_worker [] e workers = (e, refl, λ i. sym (append-nil (e.worker_pipes i)))
run-for_worker (s ∷ signals) e workers =
    let (e', finished, pipes) = run-for_worker signals (passed e s) workers in
    (
      e',
      rw (run, passes e s workers) finished,
      λ i. pipes i ∙ elim (Bool-cases (i == s.region_id % e.worker_count)) [
        | inl here ↦ rw here (append_assoc (e.worker_pipes i) (s ∷ []) _)
        | inr elsewhere ↦ rw elsewhere
      ],
    )

keep-keep :
    (count id : ℕ) (signals : List Signal)
    → for_region id (for_worker count (id % count) signals) ≡ for_region id signals
keep-keep count id [] = refl
keep-keep count id (s ∷ signals) = elim (Bool-cases (s.region_id == id)) [
  | inl same ↦
      let its_worker : (id % count == s.region_id % count) ≡ true =
        (==_iff _ _).1 (ap (λ (t : ℕ). t % count) (sym ((==_iff s.region_id id).0 same))) in
      rw (its_worker, same) (ap (λ l. s ∷ l) (keep-keep count id signals))
  | inr other ↦ elim (Bool-cases (id % count == s.region_id % count)) [
    | inl same_worker ↦ rw (same_worker, other) (keep-keep count id signals)
    | inr other_worker ↦ rw (other_worker, other) (keep-keep count id signals)
  ]
]

-- A new engine with at least one worker passes all signals of a region to one worker, in their order.
pub run-for_region :
    (signals : List Signal) {count : ℕ} (id : ℕ)
    → 0 < count
    → (e : Engine) × (run (create count) signals ≡ some e)
      × (for_region id (e.worker_pipes (id % count)) ≡ for_region id signals)
unfolding create
run-for_region signals {count} id workers =
    let (e, finished, pipes) = run-for_worker signals (create count) workers in
    (e, finished, ap (for_region id) (pipes (id % count)) ∙ keep-keep count id signals)
