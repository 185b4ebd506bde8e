-- ===== src/Probe/Aggregator.antt =====
-- src/probe/probeLib/packetAggregator.hpp: finds the place of the packet before in the same flow.
pub mod Links
use di_traffic_database.Common.{
  ℕ, Bool, ◌&&◌, ◌||◌, ◌==◌, leb, ltb, Option, none, some, List, [], ◌∷◌, if◌then◌else◌, add64,
  sub64, max64,
}
use di_traffic_database.DataNode.Text.{Str, str_eq}

pub record FlowAttr : Type 0 where
  pub last_offset : ℕ
  pub ts : ℕ

pub record FlowMetadata : Type 0 where
  pub source_address : Str
  pub destination_address : Str
  pub source_port : ℕ
  pub destination_port : ℕ

unfoldable pub flow_eq : FlowMetadata → FlowMetadata → Bool
flow_eq f g =
    str_eq f.source_address g.source_address
    && (str_eq f.destination_address g.destination_address
        && (f.source_port == g.source_port && f.destination_port == g.destination_port))

-- The hash table is the function that `find` computes.
pub record PacketAggregator : Type 0 where
  pub offset_threshold : ℕ
  pub ts_threshold : ℕ
  pub agg_map : FlowMetadata → Option FlowAttr

unfoldable pub create : ℕ → ℕ → PacketAggregator
create offset_threshold ts_threshold = record {
  offset_threshold = offset_threshold;
  ts_threshold = ts_threshold;
  agg_map = λ f. none;
}

-- The flow's entry becomes the packet's offset and time.
unfoldable pub record_packet : PacketAggregator → FlowMetadata → ℕ → ℕ → PacketAggregator
record_packet a meta offset ts = record a {
  agg_map =
      λ f. if flow_eq f meta then some (record { last_offset = offset; ts = ts }) else a.agg_map f;
}

-- The offsets count around the disk, so a smaller one is a turn later.
unfoldable pub ordered_offset : ℕ → ℕ → ℕ → ℕ
ordered_offset offset last_offset disk_size =
    if leb offset last_offset then add64 offset disk_size else offset

unfoldable pub is_apart : PacketAggregator → FlowAttr → ℕ → ℕ → ℕ → Bool
is_apart a flow offset ts disk_size =
    ltb a.offset_threshold
      (sub64 (ordered_offset offset flow.last_offset disk_size) flow.last_offset)
    || ltb a.ts_threshold (sub64 ts flow.ts)

unfoldable pub add_packet : PacketAggregator → FlowMetadata → ℕ → ℕ → ℕ → PacketAggregator × ℕ
add_packet a meta offset ts disk_size = elim (a.agg_map meta) [
  | none ↦ (record_packet a meta offset ts, max64)
  | some flow ↦
      if is_apart a flow offset ts disk_size
      then (record_packet a meta offset ts, max64)
      else (record_packet a meta offset ts, flow.last_offset)
]
