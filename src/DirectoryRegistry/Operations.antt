-- ===== src/DirectoryRegistry/Operations.antt =====
-- The operations of the registry, and the packets that list it.
use shroomio.Base.{
  ℕ, zero, suc, ◌+◌, ◌*◌, ◌-◌, ◌/◌, ◌%◌, Bool, true, false, ◌&&◌, ◌||◌, not, Option, none, some,
  List, [], ◌∷◌, ltb, leb, ◌==◌, if◌then◌else◌, length, get_elem?, set, take, drop, replicate, min,
  u16_mod,
}
use shroomio.DirectoryRegistry.{
  Server, Registration, Registry, Heartbeat, Query, ListPacket, max_entries, entries_per_packet,
  entry_ttl_ms, host_length, directory_version, packet_heartbeat, packet_query, packet_list,
  channel_control, entry_size, heartbeat_size, query_size, list_header_size, endpoint_matches,
  stable_endpoint_id, validate_and_clamp,
}

abbrev pub no_server : Server
no_server = record {
  server_id = 0;
  name = replicate 48 0;
  host = [];
  port = 0;
  player_count = 0;
  capacity = 0;
  reserved = 0;
}

abbrev pub blank : Registration
blank = record { server = no_server; last_seen_ms = 0; active = false }

abbrev pub init : Registry
init = replicate max_entries blank

-- What the loop of `Register` finds; `none` is the index past the end.
pub record Matches : Type 0 where
  pub id_match : Option ℕ
  pub endpoint_match : Option ℕ
  pub available : Option ℕ

abbrev pub no_matches : Matches
no_matches = record { id_match = none; endpoint_match = none; available = none }

abbrev pub first_of : Option ℕ → Option ℕ → Option ℕ
first_of none b = b
first_of (some i) b = some i

abbrev pub note : Server → ℕ → Registration → Matches → Matches
note e i r s =
    if r.active
    then record s {
      id_match = if r.server.server_id == e.server_id then some i else s.id_match;
      endpoint_match = if endpoint_matches r.server e then some i else s.endpoint_match;
    }
    else record s { available = first_of s.available (some i) }

unfoldable pub find_matches : Server → ℕ → Registry → Matches → Matches
find_matches e i [] s = s
find_matches e i (r ∷ rs) s = find_matches e (suc i) rs (note e i r s)

-- A heartbeat from before the last one of the same server.
abbrev pub is_stale : Registry → Option ℕ → ℕ → Bool
is_stale l none now_ms = false
is_stale l (some i) now_ms = elim (get_elem? l i) [
  | none ↦ false
  | some r ↦ ltb now_ms r.last_seen_ms
]

abbrev pub target : Matches → Option ℕ
target s = first_of (first_of s.id_match s.endpoint_match) s.available

-- The entry of a server that has come back under another id is dropped.
abbrev pub clear_moved : Registry → Option ℕ → Option ℕ → Registry
clear_moved l (some i) (some j) = if i == j then l else set l j blank
clear_moved l _ _ = l

abbrev pub put : Registry → Option ℕ → Matches → Server → ℕ → Registry × Bool
put l none s e now_ms = (l, false)
put l (some i) s e now_ms = (
  set (clear_moved l s.id_match s.endpoint_match) i
      (record { server = e; last_seen_ms = now_ms; active = true }),
  true,
)

unfoldable pub place : Registry → Server → ℕ → Registry × Bool
place l e now_ms =
    let s = find_matches e 0 l no_matches in
    if is_stale l s.id_match now_ms || is_stale l s.endpoint_match now_ms
    then (l, false)
    else put l (target s) s e now_ms

abbrev pub is_heartbeat : Heartbeat → ℕ → Bool
is_heartbeat h packet_size =
    packet_size == heartbeat_size
    && h.type == packet_heartbeat
    && h.size == heartbeat_size
    && h.protocol_version == directory_version

-- The entry that a heartbeat makes, seen from a host.
abbrev pub observed : Server → List ℕ → Server
observed e host = record e { host = host; server_id = stable_endpoint_id host e.port }

abbrev pub place_valid : Registry → Option Server → ℕ → Registry × Bool
place_valid l none now_ms = (l, false)
place_valid l (some e) now_ms = place l e now_ms

unfoldable pub register : Registry → Option Heartbeat → ℕ → Option (List ℕ) → ℕ → Registry × Bool
register l (some h) packet_size (some host) now_ms =
    if not (is_heartbeat h packet_size) || leb host_length (length host)
    then (l, false)
    else place_valid l (validate_and_clamp (observed h.server host)) now_ms
register l _ packet_size _ now_ms = (l, false)

abbrev pub is_expired : Registration → ℕ → Bool
is_expired r now_ms =
    r.active && leb r.last_seen_ms now_ms && leb entry_ttl_ms (now_ms - r.last_seen_ms)

-- With the number of entries that were evicted.
unfoldable pub evict_expired : Registry → ℕ → Registry × ℕ
evict_expired [] now_ms = ([], 0)
evict_expired (r ∷ rs) now_ms =
    let (l, evicted) = evict_expired rs now_ms in
    if is_expired r now_ms then (blank ∷ l, suc evicted) else (r ∷ l, evicted)

unfoldable pub copy_from : Registry → ℕ → List Server
copy_from [] n = []
copy_from (r ∷ rs) zero = []
copy_from (r ∷ rs) (suc n) =
    let with_it = r.server ∷ copy_from rs n in
    let without = copy_from rs (suc n) in if r.active then with_it else without

abbrev pub copy_active : Registry → ℕ → List Server
copy_active l capacity = copy_from l (min capacity max_entries)

abbrev pub query_is_valid : Option Query → ℕ → Bool
query_is_valid none packet_size = false
query_is_valid (some q) packet_size =
    packet_size == query_size
    && q.type == packet_query
    && q.size == query_size
    && q.protocol_version == directory_version
    && not (q.generation == 0)

unfoldable pub list_chunk_count : ℕ → ℕ
list_chunk_count entry_count =
    let n = min entry_count max_entries in
    if n == 0 then 1 else (n + entries_per_packet - 1) / entries_per_packet

abbrev pub chunk_size : ℕ → ℕ → ℕ
chunk_size entry_count chunk_index =
    min (entry_count - chunk_index * entries_per_packet) entries_per_packet

abbrev pub list_packet : ℕ → ℕ → ℕ → List Server → ListPacket
list_packet entry_count generation chunk_index entries =
    let count = chunk_size entry_count chunk_index in
    record {
      type = packet_list;
      channel = channel_control;
      size = (list_header_size + count * entry_size) % u16_mod;
      protocol_version = directory_version;
      generation = generation;
      chunk_index = chunk_index % 256;
      chunk_count = list_chunk_count entry_count % 256;
      entry_count = count % 256;
      entries = take count (drop (chunk_index * entries_per_packet) entries);
    }

abbrev pub list_of : ℕ → ℕ → ℕ → Option (List Server) → Option ListPacket
list_of entry_count generation chunk_index none =
    if ltb 0 entry_count then none else some (list_packet entry_count generation chunk_index [])
list_of entry_count generation chunk_index (some es) =
    some (list_packet entry_count generation chunk_index es)

-- The packet, which says its size; `none` is a size of 0, for a packet that is left as it is.
-- `entries` is the array of `entry_count` elements, unless it is NULL.
unfoldable pub build_list_packet : Option (List Server) → ℕ → ℕ → ℕ → Option ListPacket
unfolding list_chunk_count
build_list_packet entries entry_count generation chunk_index =
    if generation == 0
      || ltb max_entries entry_count
      || leb (list_chunk_count entry_count) chunk_index
    then none
    else list_of entry_count generation chunk_index entries
