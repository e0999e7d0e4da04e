-- ===== src/DirectoryRegistry/Tests.antt =====
-- A directory with two servers, one of which comes back.
use shroomio.Base.{
  ℕ, ◌≡◌, ◌+◌, ◌≤◌, refl, true, some, List, [], ◌∷◌, replicate, arith, get_elem?, count, map,
}
use shroomio.DirectoryRegistry.{
  Registration, Registry, Heartbeat, is_printable_text, is_valid_host, all_host_chars, hash_bytes,
  stable_endpoint_id, validate_and_clamp, endpoint_matches,
}
use shroomio.DirectoryRegistry.Operations.{
  init, blank, no_server, find_matches, place, register, evict_expired, copy_from, copy_active,
  list_chunk_count,
}
use shroomio.DirectoryRegistry.Listing.{IsValid, Call, registers, evicts, run, run-Listed}
use shroomio.DirectoryRegistry.Expiry.{active_count, is_silent, without_silent, evict_expired-count}
use shroomio.DirectoryRegistry.Lists.{collect, collect-all}

-- "10.0.0.2".
abbrev host : List ℕ
host = 49 ∷ 48 ∷ 46 ∷ 48 ∷ 46 ∷ 48 ∷ 46 ∷ 50 ∷ []

abbrev heartbeat : ℕ → Heartbeat
heartbeat port = record {
  type = 26;
  size = 136;
  protocol_version = 1;
  server = record no_server {
    name = 65 ∷ replicate 47 0;
    port = port;
    player_count = 3;
    capacity = 900;
  };
}

abbrev calls : List Call
calls =
    registers (some (heartbeat 7777)) 136 (some host) 1000
    ∷ registers (some (heartbeat 7778)) 136 (some host) 2000
    ∷ registers (some (heartbeat 7777)) 136 (some host) 9000
    ∷ registers (some (heartbeat 7777)) 136 (some host) 8000
    ∷ evicts 17000
    ∷ []

-- The second server has not been heard of for the time that an entry lives.
listed :
    map {B = ℕ × ℕ} (λ e. (e.port, e.capacity)) (copy_active (run init calls) 32) ≡ (7777, 256) ∷ []
unfolding run register validate_and_clamp is_printable_text is_valid_host all_host_chars hash_bytes
    stable_endpoint_id place find_matches evict_expired copy_from
listed = refl

run-Listed_example :
    IsValid (run init calls)
    × ((i j : ℕ) (a b : Registration)
        → get_elem? (run init calls) i ≡ some a
        → get_elem? (run init calls) j ≡ some b
        → a.active ≡ true
        → b.active ≡ true
        → endpoint_matches a.server b.server ≡ true
        → i ≡ j)
run-Listed_example = run-Listed calls

abbrev registry : Registry
registry =
    record blank { last_seen_ms = 5; active = true }
    ∷ record blank { last_seen_ms = 9000; active = true }
    ∷ blank
    ∷ []

evict_expired-count_example :
    let (m, evicted) = evict_expired registry 15005 in
    (m ≡ map (without_silent 15005) registry)
    × (evicted ≡ count (is_silent 15005) registry)
    × (active_count m + evicted ≡ active_count registry)
evict_expired-count_example = evict_expired-count registry 15005

collect-all_example :
    (collect (replicate 9 no_server) 3 0 (list_chunk_count 9) ≡ replicate 9 no_server)
    × (list_chunk_count 9 ≤ 5)
collect-all_example = collect-all (replicate 9 no_server) 3 (omega arith) (λ e. omega (arith, e))
