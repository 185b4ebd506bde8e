-- ===== src/Probe/Tests.antt =====
-- Three packets, two of one flow.
use di_traffic_database.Common.{ℕ, ◌≡◌, refl, List, [], ◌∷◌, ◌++◌, ◌⊎◌, ◌<◌, ◌≤◌, ◌-◌, max64, arith}
use di_traffic_database.DataNode.Text.{codes, str_eq}
use di_traffic_database.Probe.Aggregator.{
  FlowMetadata, flow_eq, create, record_packet, ordered_offset, is_apart, add_packet,
}
use di_traffic_database.Probe.Aggregator.Links.{
  Packet, after, SameFlow, distance, IsBefore, add_packet-latest,
}
use di_traffic_database.Index.SkipList.Towers.{All}

abbrev flow_to : ℕ → FlowMetadata
flow_to port = record {
  source_address = codes "10.0.0.1";
  destination_address = codes "10.0.0.2";
  source_port = 1024;
  destination_port = port;
}

abbrev packet : ℕ → ℕ → Packet
packet port offset = record { meta = flow_to port; offset = offset; ts = 7 }

abbrev history : List Packet
history = packet 53 200 ∷ packet 80 100 ∷ []

answer_runs : (add_packet (after 1000 60 4096 history) (flow_to 80) 300 7 4096).1 ≡ 100
unfolding after add_packet create record_packet ordered_offset is_apart flow_eq str_eq
answer_runs = refl

history-IsBefore : All (IsBefore 4096 7) history
history-IsBefore = ((omega arith, omega arith), ((omega arith, omega arith), tt))

add_packet-latest_example :
    (All (λ q. ¬ SameFlow (packet 80 300) q) history
      × ((add_packet (after 1000 60 4096 history) (flow_to 80) 300 7 4096).1 ≡ max64))
    ⊎ ((newer : List Packet) × (q : Packet) × (older : List Packet) × (history
          ≡ newer ++ (q ∷ older))
        × All (λ r. ¬ SameFlow (packet 80 300) r) newer
        × SameFlow (packet 80 300) q
        × (((distance 4096 q.offset 300 ≤ 1000)
              × (7 - q.ts ≤ 60)
              × ((add_packet (after 1000 60 4096 history) (flow_to 80) 300 7 4096).1 ≡ q.offset))
            ⊎ (((1000 < distance 4096 q.offset 300) ⊎ (60 < 7 - q.ts))
                × ((add_packet (after 1000 60 4096 history) (flow_to 80) 300 7 4096).1 ≡ max64))))
add_packet-latest_example =
    add_packet-latest 1000 60 4096 history (packet 80 300) (omega arith) (omega arith) (omega arith)
      history-IsBefore
