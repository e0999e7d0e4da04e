-- ===== src/NetTelemetry.antt =====
-- src/shared/net_telemetry.c: the counts of packets and bytes, since the start and in the last
-- seconds. A telemetry is passed by value; the one that a window is read from may be NULL.
pub mod ReadWindow
pub mod Recent
pub mod Log
mod Tests
use shroomio.Base.{
  ℕ, ◌+◌, ◌-◌, ◌/◌, ◌%◌, Bool, true, false, ◌&&◌, ◌||◌, not, Option, none, some, List, [], ◌∷◌, ltb,
  leb, ◌==◌, if◌then◌else◌, get_elem?, get_or, set, replicate, min, u32_mod, u16_mod, add64,
}

pub record Count : Type 0 where
  pub packets : ℕ
  pub bytes : ℕ

pub record Stats : Type 0 where
  pub accepted : Count
  pub sent : Count
  pub dropped : Count

pub record Bucket : Type 0 where
  pub epoch : ℕ
  pub initialized : Bool
  pub totals : Stats
  pub by_channel : List Stats
  pub by_type : List Stats

pub record PeerTransport : Type 0 where
  pub queue_packets : ℕ
  pub queue_high_water : ℕ
  pub loss_basis_points : ℕ
  pub active : Bool

pub record Telemetry : Type 0 where
  pub totals : Stats
  pub by_peer : List Stats
  pub by_channel : List Stats
  pub by_type : List Stats
  pub peer_transport : List PeerTransport
  pub buckets : List Bucket

pub record Window : Type 0 where
  pub totals : Stats
  pub by_channel : List Stats
  pub by_type : List Stats
  pub queue_packets : ℕ
  pub queue_high_water : ℕ
  pub maximum_loss_basis_points : ℕ
  pub congested_peers : ℕ
  pub active_peers : ℕ

pub data Direction : Type 0 where
  accepted sent dropped : Direction

abbrev pub max_peers : ℕ
max_peers = 256

abbrev pub packet_types : ℕ
packet_types = 26

abbrev pub channel_count : ℕ
channel_count = 5

abbrev pub bucket_count : ℕ
bucket_count = 20

abbrev pub bucket_ms : ℕ
bucket_ms = 100

abbrev pub congestion_queue_packets : ℕ
congestion_queue_packets = 64

abbrev pub no_count : Count
no_count = record { packets = 0; bytes = 0 }

abbrev pub no_stats : Stats
no_stats = record { accepted = no_count; sent = no_count; dropped = no_count }

abbrev pub fresh_bucket : ℕ → Bool → Bucket
fresh_bucket epoch initialized = record {
  epoch = epoch;
  initialized = initialized;
  totals = no_stats;
  by_channel = replicate channel_count no_stats;
  by_type = replicate packet_types no_stats;
}

abbrev pub no_peer : PeerTransport
no_peer = record { queue_packets = 0; queue_high_water = 0; loss_basis_points = 0; active = false }

pub reset : Telemetry
reset = record {
  totals = no_stats;
  by_peer = replicate max_peers no_stats;
  by_channel = replicate channel_count no_stats;
  by_type = replicate packet_types no_stats;
  peer_transport = replicate max_peers no_peer;
  buckets = replicate bucket_count (fresh_bucket 0 false);
}

abbrev pub type_index : ℕ → ℕ
type_index type = if ltb type packet_types then type else 0

abbrev pub add_count : Count → ℕ → Count
add_count c bytes = record { packets = add64 c.packets 1; bytes = add64 c.bytes bytes }

-- `AddCount` on the count that `SelectCount` selects.
abbrev pub count_in : Direction → ℕ → Stats → Stats
count_in sent bytes s = record s { sent = add_count s.sent bytes }
count_in dropped bytes s = record s { dropped = add_count s.dropped bytes }
count_in accepted bytes s = record s { accepted = add_count s.accepted bytes }

-- The same in an array that has the index.
abbrev pub count_at : Direction → ℕ → ℕ → List Stats → List Stats
count_at d bytes i l = elim (get_elem? l i) [ none ↦ l | some s ↦ set l i (count_in d bytes s) ]

abbrev pub slot_of : ℕ → ℕ
slot_of epoch = epoch % bucket_count

unfoldable pub current_bucket : List Bucket → ℕ → Bucket
current_bucket buckets epoch =
    let bucket = get_or buckets (slot_of epoch) (fresh_bucket 0 false) in
    if not bucket.initialized || not (bucket.epoch == epoch)
    then fresh_bucket epoch true
    else bucket

abbrev pub count_bucket : Direction → ℕ → ℕ → ℕ → Bucket → Bucket
count_bucket d bytes channel index b = record b {
  totals = count_in d bytes b.totals;
  by_channel =
      if ltb channel channel_count then count_at d bytes channel b.by_channel else b.by_channel;
  by_type = count_at d bytes index b.by_type;
}

-- `Record`.
unfoldable pub record_traffic : Telemetry → ℕ → ℕ → ℕ → ℕ → ℕ → Direction → Telemetry
unfolding current_bucket
record_traffic t peer_index channel type bytes now_ms d =
    let epoch = now_ms / bucket_ms in
    let index = type_index type in
    record t {
      totals = count_in d bytes t.totals;
      by_peer =
          if ltb peer_index max_peers then count_at d bytes peer_index t.by_peer else t.by_peer;
      by_channel =
          if ltb channel channel_count then count_at d bytes channel t.by_channel else t.by_channel;
      by_type = count_at d bytes index t.by_type;
      buckets =
          set t.buckets (slot_of epoch)
            (count_bucket d bytes channel index (current_bucket t.buckets epoch));
    }

abbrev pub record_accepted : Telemetry → ℕ → ℕ → ℕ → ℕ → ℕ → Telemetry
record_accepted t peer_index channel type bytes now_ms =
    record_traffic t peer_index channel type bytes now_ms accepted

abbrev pub record_sent : Telemetry → ℕ → ℕ → ℕ → ℕ → ℕ → Telemetry
record_sent t peer_index channel type bytes now_ms =
    record_traffic t peer_index channel type bytes now_ms sent

abbrev pub record_drop : Telemetry → ℕ → ℕ → ℕ → ℕ → ℕ → Telemetry
record_drop t peer_index channel type bytes now_ms =
    record_traffic t peer_index channel type bytes now_ms dropped

-- An active peer's new queue and loss.
abbrev pub update_peer : PeerTransport → ℕ → ℕ → PeerTransport
update_peer p queue_packets loss_basis_points =
    let high_water = if not p.active then 0 else p.queue_high_water in
    record {
      queue_packets = queue_packets;
      queue_high_water = if ltb high_water queue_packets then queue_packets else high_water;
      loss_basis_points = if ltb 10000 loss_basis_points then 10000 else loss_basis_points;
      active = true;
    }

unfoldable pub set_peer_transport : Telemetry → ℕ → ℕ → ℕ → Bool → Telemetry
set_peer_transport t peer_index queue_packets loss_basis_points active =
    let peer = get_or t.peer_transport peer_index no_peer in
    if leb max_peers peer_index then t else record t {
      peer_transport =
          set t.peer_transport peer_index
            (if active then update_peer peer queue_packets loss_basis_points else no_peer);
    }
