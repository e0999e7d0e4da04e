-- ===== src/NetTelemetry/ReadWindow.antt =====
-- Reading the counts of the last buckets, and the peers' queues.
use shroomio.Base.{
  ℕ, ◌+◌, ◌-◌, ◌/◌, ◌%◌, Bool, ◌&&◌, Option, none, some, List, [], ◌∷◌, ltb, leb, if◌then◌else◌,
  min, replicate, add64, u32_mod, u16_mod,
}
use shroomio.NetTelemetry.{
  Count, Stats, Bucket, PeerTransport, Telemetry, Window, no_stats, packet_types, channel_count,
  bucket_count, bucket_ms, congestion_queue_packets,
}

abbrev pub add_traffic : Count → Count → Count
add_traffic d s = record { packets = add64 d.packets s.packets; bytes = add64 d.bytes s.bytes }

abbrev pub add_stats : Stats → Stats → Stats
add_stats d s = record {
  accepted = add_traffic d.accepted s.accepted;
  sent = add_traffic d.sent s.sent;
  dropped = add_traffic d.dropped s.dropped;
}

-- Element by element, in two arrays of the same length.
abbrev pub add_all : List Stats → List Stats → List Stats
add_all [] ss = []
add_all (d ∷ ds) [] = d ∷ ds
add_all (d ∷ ds) (s ∷ ss) = add_stats d s ∷ add_all ds ss

abbrev pub empty_window : Window
empty_window = record {
  totals = no_stats;
  by_channel = replicate channel_count no_stats;
  by_type = replicate packet_types no_stats;
  queue_packets = 0;
  queue_high_water = 0;
  maximum_loss_basis_points = 0;
  congested_peers = 0;
  active_peers = 0;
}

abbrev pub is_recent : Bucket → ℕ → ℕ → Bool
is_recent b current_epoch buckets =
    b.initialized && leb b.epoch current_epoch && ltb (current_epoch - b.epoch) buckets

abbrev pub add_bucket : Window → Bucket → Window
add_bucket w b = record w {
  totals = add_stats w.totals b.totals;
  by_channel = add_all w.by_channel b.by_channel;
  by_type = add_all w.by_type b.by_type;
}

unfoldable pub read_buckets : ℕ → ℕ → Window → List Bucket → Window
read_buckets current_epoch buckets w [] = w
read_buckets current_epoch buckets w (b ∷ bs) =
    read_buckets current_epoch buckets
      (if is_recent b current_epoch buckets then add_bucket w b else w) bs

-- A sum that stops at the largest 32-bit number.
abbrev pub saturated : ℕ → ℕ → ℕ
saturated a b = if ltb (u32_mod - 1 - a) b then u32_mod - 1 else a + b

abbrev pub add_peer : Window → PeerTransport → Window
add_peer w p = record w {
  active_peers = (w.active_peers + 1) % u16_mod;
  queue_packets = saturated w.queue_packets p.queue_packets;
  queue_high_water = saturated w.queue_high_water p.queue_high_water;
  maximum_loss_basis_points =
      if ltb w.maximum_loss_basis_points p.loss_basis_points
      then p.loss_basis_points
      else w.maximum_loss_basis_points;
  congested_peers =
      if leb congestion_queue_packets p.queue_packets
      then (w.congested_peers + 1) % u16_mod
      else w.congested_peers;
}

unfoldable pub read_peers : Window → List PeerTransport → Window
read_peers w [] = w
read_peers w (p ∷ ps) = read_peers (if p.active then add_peer w p else w) ps

-- The number of buckets that a window covers.
abbrev pub window_buckets : ℕ → ℕ
window_buckets window_ms = min ((window_ms + bucket_ms - 1) / bucket_ms) bucket_count

unfoldable pub read_window : Option Telemetry → ℕ → ℕ → Window
read_window none now_ms window_ms = empty_window
read_window (some t) now_ms window_ms =
    read_peers (read_buckets (now_ms / bucket_ms) (window_buckets window_ms) empty_window t.buckets)
      t.peer_transport
