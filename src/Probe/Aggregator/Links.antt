-- ===== src/Probe/Aggregator/Links.antt =====
-- The answer of the aggregator against the packets that it has seen.
use di_traffic_database.Common.{
  ℕ, Bool, true, false, ◌≡◌, refl, Option, none, some, List, [], ◌∷◌, if◌then◌else◌, max64,
  Bool-cases, Option-cases, inl, inr, ap, ◌∙◌, ◌++◌, ◌⊎◌, subst, leb, ◌+◌, ◌-◌, ◌<◌, ◌≤◌, ◌^◌,
  arith, ltb, sub64, add64, ==_iff, ◌&&◌, ◌||◌,
}
use di_traffic_database.DataNode.Text.{str_eq_sound, str_eq_refl}
use di_traffic_database.Index.SkipList.Towers.{All}
use di_traffic_database.Probe.Aggregator.{
  FlowAttr, FlowMetadata, flow_eq, PacketAggregator, create, record_packet, ordered_offset,
  is_apart, add_packet,
}

pub record Packet : Type 0 where
  pub meta : FlowMetadata
  pub offset : ℕ
  pub ts : ℕ

-- The offset and time of the latest packet of a flow; the history has the latest packet first.
abbrev pub latest : FlowMetadata → List Packet → Option FlowAttr
latest f [] = none
latest f (p ∷ history) =
    if flow_eq f p.meta
    then some (record { last_offset = p.offset; ts = p.ts })
    else latest f history

module _ (offset_threshold ts_threshold disk_size : ℕ) where
  -- The aggregator after the packets of the history.
  unfoldable pub after : List Packet → PacketAggregator
  after [] = create offset_threshold ts_threshold
  after (p ∷ history) = (add_packet (after history) p.meta p.offset p.ts disk_size).0

  add_packet_lem :
      (a : PacketAggregator) (p : Packet)
      → (add_packet a p.meta p.offset p.ts disk_size).0 ≡ record_packet a p.meta p.offset p.ts
  unfolding add_packet
  add_packet_lem a p = elim (Option-cases (a.agg_map p.meta)) [
    | inl unknown ↦ rw (add_packet, unknown)
    | inr (flow, known) ↦ elim (Bool-cases (is_apart a flow p.offset p.ts disk_size)) [
      | inl apart ↦ rw (add_packet, known, apart)
      | inr near ↦ rw (add_packet, known, near)
    ]
  ]

  after-latest :
      (history : List Packet) (f : FlowMetadata) → (after history).agg_map f ≡ latest f history
  unfolding after create record_packet
  after-latest [] f = refl
  after-latest (p ∷ history) f =
      ap (λ a. a.agg_map f) (add_packet_lem (after history) p)
      ∙ ap
          (λ o. if flow_eq f p.meta then some (record { last_offset = p.offset; ts = p.ts }) else o)
          (after-latest history f)

  after-thresholds :
      (history : List Packet)
      → ((after history).offset_threshold ≡ offset_threshold)
        × ((after history).ts_threshold ≡ ts_threshold)
  unfolding after create record_packet
  after-thresholds [] = (refl, refl)
  after-thresholds (p ∷ history) =
      let (offsets, times) = after-thresholds history in
      let added = add_packet_lem (after history) p in
      (ap (λ a. a.offset_threshold) added ∙ offsets, ap (λ a. a.ts_threshold) added ∙ times)

  -- The thresholds never change.
  same_test :
      (history : List Packet) (flow : FlowAttr) (offset ts : ℕ)
      → is_apart (after history) flow offset ts disk_size
        ≡ is_apart (create offset_threshold ts_threshold) flow offset ts disk_size
  unfolding is_apart create
  same_test history flow offset ts = rw ((after-thresholds history).0, (after-thresholds history).1)

  add_packet-latest_lem :
      (history : List Packet) (p : Packet)
      → (add_packet (after history) p.meta p.offset p.ts disk_size).1
        ≡ elim (latest p.meta history) [
          | none ↦ max64
          | some flow ↦
              if is_apart (create offset_threshold ts_threshold) flow p.offset p.ts disk_size
              then max64
              else flow.last_offset
        ]
  unfolding add_packet
  add_packet-latest_lem history p = elim (Option-cases (latest p.meta history)) [
    | inl new ↦ rw (add_packet, after-latest history p.meta, new)
    | inr (flow, seen) ↦
        rw (add_packet, after-latest history p.meta, seen, same_test history flow p.offset p.ts)
          (chosen (is_apart (create offset_threshold ts_threshold) flow p.offset p.ts disk_size) _ _
            _)
  ]
    where
      chosen :
          (test : Bool) (a : PacketAggregator) (x y : ℕ)
          → (let out : PacketAggregator × ℕ = (if test then (a, x) else (a, y)) in
              out.1 ≡ (if test then x else y))
      chosen true a x y = refl
      chosen false a x y = refl

-- Two packets of one flow: the same addresses and ports.
abbrev pub SameFlow : Packet → Packet → Type 0
SameFlow p q =
    (p.meta.source_address ≡ q.meta.source_address)
    × (p.meta.destination_address ≡ q.meta.destination_address)
    × (p.meta.source_port ≡ q.meta.source_port)
    × (p.meta.destination_port ≡ q.meta.destination_port)

-- How far `offset` is after `last` on a disk that is written around.
abbrev pub distance : ℕ → ℕ → ℕ → ℕ
distance disk_size last offset =
    if leb offset last then offset + disk_size - last else offset - last

-- The packet is on the disk, and not after the time.
abbrev pub IsBefore : ℕ → ℕ → Packet → Type 0
IsBefore disk_size ts q = (q.offset < disk_size) × (q.ts ≤ ts)

and_parts : (a b : Bool) → (a && b) ≡ true → (a ≡ true) × (b ≡ true)
and_parts a b e = (ground arith, ground arith)

flow_eq-true : (p q : Packet) → flow_eq p.meta q.meta ≡ true → SameFlow p q
unfolding flow_eq
flow_eq-true p q e =
    let (source, rest) = and_parts _ _ e in
    let (destination, ports) = and_parts _ _ rest in
    let (source_port, destination_port) = and_parts _ _ ports in
    (
      str_eq_sound p.meta.source_address q.meta.source_address source,
      str_eq_sound p.meta.destination_address q.meta.destination_address destination,
      (==_iff p.meta.source_port q.meta.source_port).0 source_port,
      (==_iff p.meta.destination_port q.meta.destination_port).0 destination_port,
    )

flow_eq-same : (p q : Packet) → SameFlow p q → flow_eq p.meta q.meta ≡ true
unfolding flow_eq
flow_eq-same p q (source, destination, source_port, destination_port) = rw (
  source,
  destination,
  source_port,
  destination_port,
  str_eq_refl q.meta.source_address,
  str_eq_refl q.meta.destination_address,
  (==_iff q.meta.source_port q.meta.source_port).1 refl,
  (==_iff q.meta.destination_port q.meta.destination_port).1 refl,
)

flow_eq-false : (p q : Packet) → flow_eq p.meta q.meta ≡ false → ¬ SameFlow p q
flow_eq-false p q e same = cc (e, flow_eq-same p q same)

-- The flow is new, or its latest packet is `q`.
latest_cases :
    (p : Packet) (history : List Packet)
    → ((latest p.meta history ≡ none) × All (λ q. ¬ SameFlow p q) history)
      ⊎ ((newer : List Packet) × (q : Packet) × (older : List Packet) × (history
            ≡ newer ++ (q ∷ older))
          × All (λ r. ¬ SameFlow p r) newer
          × SameFlow p q
          × (latest p.meta history ≡ some (record { last_offset = q.offset; ts = q.ts })))
latest_cases p [] = inl (refl, tt)
latest_cases p (r ∷ history) = elim (Bool-cases (flow_eq p.meta r.meta)) [
  | inl same ↦ inr ([], r, history, refl, tt, flow_eq-true p r same, rw same)
  | inr other ↦ elim (latest_cases p history) [
    | inl (nothing, all) ↦ inl (rw other nothing, (flow_eq-false p r other, all))
    | inr (newer, q, older, split, none_of, same, here) ↦ inr (
      r ∷ newer,
      q,
      older,
      ap (λ l. r ∷ l) split,
      (flow_eq-false p r other, none_of),
      same,
      rw other here,
    )
  ]
]

All-middle :
    (P : Packet → Type 0) (newer : List Packet) (q : Packet) (older : List Packet)
    → All P (newer ++ (q ∷ older))
    → P q
All-middle P [] q older all = all.0
All-middle P (r ∷ newer) q older all = All-middle P newer q older all.1

-- What `is_apart` computes, without wrapping.
is_apart_lem :
    (offset_threshold ts_threshold disk_size : ℕ) (q p : Packet)
    → disk_size < 2 ^ 63
    → p.ts < 2 ^ 64
    → p.offset < disk_size
    → IsBefore disk_size p.ts q
    → is_apart
        (create offset_threshold ts_threshold)
        (record { last_offset = q.offset; ts = q.ts })
        p.offset
        p.ts
        disk_size
      ≡ ltb offset_threshold (distance disk_size q.offset p.offset)
        || ltb ts_threshold (p.ts - q.ts)
unfolding is_apart create ordered_offset
is_apart_lem offset_threshold ts_threshold disk_size q p small word inside (on_disk, before) =
    let age : sub64 p.ts q.ts ≡ p.ts - q.ts = omega (arith, before, word) in
    elim (Bool-cases (leb p.offset q.offset)) [
      | inl around ↦
          let le : p.offset ≤ q.offset = ground (arith, around) in
          let far : sub64 (add64 p.offset disk_size) q.offset ≡ p.offset + disk_size - q.offset =
            omega (arith, small, inside, on_disk) in
          rw (around, far, age)
      | inr straight ↦
          let lt : q.offset < p.offset = ground (arith, straight) in
          let far : sub64 p.offset q.offset ≡ p.offset - q.offset =
            omega (arith, small, inside, on_disk, lt) in
          rw (straight, far, age)
    ]

-- If no packet of the history has the packet's addresses and ports, then the answer is the largest number of
-- 64 bits. Else let `q` be the latest one that has them: the answer is its offset if the packet is at most
-- the one threshold after it on the disk and at most the other after it in time, and else the largest
-- number. The packets are on the disk, of less than 2^63 bytes, and none of the history is later.
pub add_packet-latest :
    (offset_threshold ts_threshold disk_size : ℕ) (history : List Packet) (p : Packet)
    → disk_size < 2 ^ 63
    → p.ts < 2 ^ 64
    → p.offset < disk_size
    → All (IsBefore disk_size p.ts) history
    → (All (λ q. ¬ SameFlow p q) history
        × ((add_packet
              (after offset_threshold ts_threshold disk_size history)
              p.meta
              p.offset
              p.ts
              disk_size).1
            ≡ max64))
      ⊎ ((newer : List Packet) × (q : Packet) × (older : List Packet) × (history
            ≡ newer ++ (q ∷ older))
          × All (λ r. ¬ SameFlow p r) newer
          × SameFlow p q
          × (((distance disk_size q.offset p.offset ≤ offset_threshold)
                × (p.ts - q.ts ≤ ts_threshold)
                × ((add_packet
                      (after offset_threshold ts_threshold disk_size history)
                      p.meta
                      p.offset
                      p.ts
                      disk_size).1
                    ≡ q.offset))
              ⊎ (((offset_threshold < distance disk_size q.offset p.offset)
                    ⊎ (ts_threshold < p.ts - q.ts))
                  × ((add_packet
                        (after offset_threshold ts_threshold disk_size history)
                        p.meta
                        p.offset
                        p.ts
                        disk_size).1
                      ≡ max64))))
add_packet-latest offset_threshold ts_threshold disk_size history p small word inside before =
    let answer = add_packet-latest_lem offset_threshold ts_threshold disk_size history p in
    elim (latest_cases p history) [
      | inl (nothing, all) ↦ inl (all, answer ∙ rw nothing)
      | inr (newer, q, older, split, none_of, same, here) ↦
          let on_disk =
            All-middle (IsBefore disk_size p.ts) newer q older
              (subst (All (IsBefore disk_size p.ts)) split before) in
          let test =
            is_apart_lem offset_threshold ts_threshold disk_size q p small word inside on_disk in
          elim (Bool-cases (
            ltb offset_threshold (distance disk_size q.offset p.offset)
            || ltb ts_threshold (p.ts - q.ts))) [
              | inl apart ↦ inr (
                newer,
                q,
                older,
                split,
                none_of,
                same,
                inr (ground (arith, apart), answer ∙ rw (here, test, apart)),
              )
              | inr near ↦ inr (
                newer,
                q,
                older,
                split,
                none_of,
                same,
                inl (ground (arith, near), ground (arith, near), answer ∙ rw (here, test, near)),
              )
            ]
    ]
