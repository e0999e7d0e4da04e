-- ===== src/NetTelemetry/Tests.antt =====
-- Traffic of some seconds.
use shroomio.Base.{ℕ, ◌≡◌, ◌%◌, ◌/◌, refl, true, some, List, [], ◌∷◌, arith, u64_mod, get_elem?}
use shroomio.NetTelemetry.{
  Direction, accepted, sent, reset, record_traffic, current_bucket, set_peer_transport, bucket_ms,
}
use shroomio.NetTelemetry.ReadWindow.{read_window, read_buckets, read_peers, window_buckets}
use shroomio.NetTelemetry.Recent.{packets_of}
use shroomio.NetTelemetry.Log.{Event, run, counted, read_window-counted}

abbrev event : Direction → ℕ → Event
event d now_ms = record {
  direction = d;
  peer_index = 3;
  channel = 1;
  type = 4;
  bytes = 100;
  now_ms = now_ms;
}

abbrev traffic : List Event
traffic = event sent 50 ∷ event sent 1950 ∷ event accepted 1990 ∷ event sent 2060 ∷ []

last_second : (read_window (some (run reset traffic)) 2100 1000).totals.sent.bytes ≡ 200
unfolding read_window read_buckets read_peers run reset record_traffic current_bucket
last_second = refl

queue_stays_high :
    get_elem?
      (set_peer_transport (set_peer_transport reset 1 70 20000 true) 1 5 3 true).peer_transport
      1
    ≡ some
        (record { queue_packets = 5; queue_high_water = 70; loss_basis_points = 3; active = true })
unfolding set_peer_transport reset
queue_stays_high = refl

read_window-counted_example :
    packets_of sent (read_window (some (run reset traffic)) 2100 1000).totals % u64_mod
    ≡ counted sent (2100 / bucket_ms) (window_buckets 1000) traffic % u64_mod
read_window-counted_example =
    read_window-counted sent traffic 2100 1000
      (omega arith, (omega arith, (omega arith, (omega arith, omega arith))))
