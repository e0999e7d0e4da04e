-- ===== src/DirectoryRegistry.antt =====
-- src/server/directory_registry.c: the servers that a directory lists. A name is the array of its
-- bytes; a host is the text that `snprintf` leaves in its array, without the terminator, and what
-- follows that in the array is never read. A registry is passed by value; pointers to what comes
-- in may be NULL. The tests of <ctype.h> are those of the C locale.
pub mod Operations
pub mod Unique
pub mod Listing
pub mod Expiry
pub mod Lists
mod Tests
use Prim.Native.Nat.{bit_xor}
use shroomio.Base.{
  is_print, is_space, is_alnum, ℕ, zero, suc, ◌+◌, ◌*◌, ◌-◌, ◌/◌, ◌%◌, Bool, true, false, ◌&&◌,
  ◌||◌, not, Option, none, some, List, [], ◌∷◌, ltb, leb, ◌==◌, if◌then◌else◌, length, get_elem?,
  set, take, drop, replicate, equal_lists, min, mul64, u16_mod,
}

pub record Server : Type 0 where
  pub server_id : ℕ
  pub name : List ℕ
  pub host : List ℕ
  pub port : ℕ
  pub player_count : ℕ
  pub capacity : ℕ
  pub reserved : ℕ

pub record Registration : Type 0 where
  pub server : Server
  pub last_seen_ms : ℕ
  pub active : Bool

abbrev pub Registry : Type 0
Registry = List Registration

-- The headers' fields come first.
pub record Heartbeat : Type 0 where
  pub type : ℕ
  pub size : ℕ
  pub protocol_version : ℕ
  pub server : Server

pub record Query : Type 0 where
  pub type : ℕ
  pub size : ℕ
  pub protocol_version : ℕ
  pub generation : ℕ

pub record ListPacket : Type 0 where
  pub type : ℕ
  pub channel : ℕ
  pub size : ℕ
  pub protocol_version : ℕ
  pub generation : ℕ
  pub chunk_index : ℕ
  pub chunk_count : ℕ
  pub entry_count : ℕ
  pub entries : List Server

abbrev pub max_entries : ℕ
max_entries = 32

abbrev pub entries_per_packet : ℕ
entries_per_packet = 7

abbrev pub entry_ttl_ms : ℕ
entry_ttl_ms = 15000

abbrev pub max_clients : ℕ
max_clients = 256

abbrev pub host_length : ℕ
host_length = 64

abbrev pub directory_version : ℕ
directory_version = 1

abbrev pub packet_heartbeat : ℕ
packet_heartbeat = 26

abbrev pub packet_query : ℕ
packet_query = 27

abbrev pub packet_list : ℕ
packet_list = 28

abbrev pub channel_control : ℕ
channel_control = 0

-- `sizeof` of an entry, of the two packets, and the offset of the entries in a list packet.
abbrev pub entry_size : ℕ
entry_size = 128

abbrev pub heartbeat_size : ℕ
heartbeat_size = 136

abbrev pub query_size : ℕ
query_size = 12

abbrev pub list_header_size : ℕ
list_header_size = 16

-- From a byte of the array on, with what has been seen before it.
unfoldable pub is_printable_text : Bool → List ℕ → Bool
is_printable_text has_visible [] = false
is_printable_text has_visible (c ∷ cs) =
    let rest = is_printable_text (has_visible || not (is_space c)) cs in
    if c == 0 then has_visible else if not (is_print c) then false else rest

abbrev pub is_host_char : ℕ → Bool
is_host_char c = is_alnum c || c == 46 || c == 45 || c == 58

unfoldable pub all_host_chars : List ℕ → Bool
all_host_chars [] = true
all_host_chars (c ∷ cs) = is_host_char c && all_host_chars cs

-- Not empty, not cut off, and not one of "0.0.0.0" and "::".
unfoldable pub is_valid_host : List ℕ → ℕ → Bool
is_valid_host host capacity =
    all_host_chars host
    && not (length host == 0)
    && not (length host == capacity)
    && not (equal_lists host (48 ∷ 46 ∷ 48 ∷ 46 ∷ 48 ∷ 46 ∷ 48 ∷ []))
    && not (equal_lists host (58 ∷ 58 ∷ []))

abbrev pub endpoint_matches : Server → Server → Bool
endpoint_matches left right = left.port == right.port && equal_lists left.host right.host

-- FNV-1a.
abbrev pub hash_byte : ℕ → ℕ → ℕ
hash_byte hash byte = mul64 (bit_xor hash byte) 1099511628211

unfoldable pub hash_bytes : ℕ → List ℕ → ℕ
hash_bytes hash [] = hash
hash_bytes hash (b ∷ bs) = hash_bytes (hash_byte hash b) bs

unfoldable pub stable_endpoint_id : List ℕ → ℕ → ℕ
stable_endpoint_id host port =
    let hash =
      hash_byte (hash_byte (hash_bytes 1469598103934665603 host) (port / 256 % 256)) (port % 256) in
    if hash == 0 then 1 else hash

abbrev pub is_refused : Server → Bool
is_refused e =
    e.server_id == 0
    || not (is_printable_text false e.name)
    || not (is_valid_host e.host host_length)
    || e.port == 0
    || e.capacity == 0
    || ltb e.capacity e.player_count
    || ltb max_clients e.player_count

abbrev pub clamp : Server → Server
clamp e = record e {
  capacity = if ltb max_clients e.capacity then max_clients else e.capacity;
  reserved = 0;
}

-- `none` is an entry that is refused.
unfoldable pub validate_and_clamp : Server → Option Server
validate_and_clamp e = if is_refused e then none else some (clamp e)
