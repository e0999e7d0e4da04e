-- ===== src/Connection.antt =====
-- src/shared/connection.c: the table of connections of a server, and the timers of one connection.
-- A pointer to a connection of the table is its index; `none` is NULL.
pub mod Table
pub mod Timers
mod Tests
use shroomio.Base.{
  ℕ, ◌-◌, ◌%◌, Bool, true, false, ◌||◌, not, Option, none, some, List, [], ◌∷◌, ltb, leb, ◌==◌,
  if◌then◌else◌, get_elem?, set, replicate, add32, suc, u32_mod,
}

pub data State : Type 0 where
  disconnected connecting connected disconnecting : State

pub record Connection : Type 0 where
  pub peer_id : ℕ
  pub state : State
  pub connect_time : ℕ
  pub last_activity_time : ℕ
  pub last_ping_time : ℕ
  pub ping_nonce : ℕ
  pub rtt_ms : ℕ
  pub packets_sent : ℕ
  pub packets_received : ℕ
  pub bytes_sent : ℕ
  pub bytes_received : ℕ
  pub authenticated : Bool
  pub session_id : ℕ

-- `none` for `connections` is NULL.
pub record Manager : Type 0 where
  pub connections : Option (List Connection)
  pub max_connections : ℕ
  pub active_connections : ℕ
  pub connection_timeout_ms : ℕ
  pub ping_interval_ms : ℕ

abbrev pub is_disconnected : State → Bool
is_disconnected disconnected = true
is_disconnected _ = false

abbrev pub is_connected : State → Bool
is_connected connected = true
is_connected _ = false

-- Memory of a connection that is all zero.
pub zeroed : Connection
zeroed = record {
  peer_id = 0;
  state = disconnected;
  connect_time = 0;
  last_activity_time = 0;
  last_ping_time = 0;
  ping_nonce = 0;
  rtt_ms = 0;
  packets_sent = 0;
  packets_received = 0;
  bytes_sent = 0;
  bytes_received = 0;
  authenticated = false;
  session_id = 0;
}

unfoldable pub reset : Connection → Connection
unfolding zeroed
reset c = record zeroed { peer_id = c.peer_id }

-- Whether `calloc` finds the memory is an argument.
pub init : Bool → ℕ → Manager
unfolding zeroed
init found max = record {
  connections = if max == 0 then none else if found then some (replicate max zeroed) else none;
  max_connections = max;
  active_connections = 0;
  connection_timeout_ms = 30000;
  ping_interval_ms = 5000;
}

pub shutdown : Manager → Manager
shutdown m = record m { connections = none; max_connections = 0; active_connections = 0 }

-- `&manager->connections[peer_id]`, or NULL behind the guards that all three functions share.
slot : Manager → ℕ → Option Connection
slot m peer_id = elim m.connections [
  | none ↦ none
  | some cs ↦ if leb m.max_connections peer_id then none else get_elem? cs peer_id
]

-- `manager->connections[peer_id] = conn`.
store : Manager → ℕ → Connection → Manager
store m peer_id c = elim m.connections [
  | none ↦ m
  | some cs ↦ record m { connections = some (set cs peer_id c) }
]

-- The body of `Add` once the slot is found.
claim : Manager → ℕ → Connection → Manager × Option ℕ
claim m peer_id c = if not (is_disconnected c.state) then (m, none) else (
  record (store m peer_id (record (reset c) { peer_id = peer_id; state = connecting })) {
    active_connections = add32 m.active_connections 1;
  },
  some peer_id,
)

pub add : Manager → ℕ → Manager × Option ℕ
add m peer_id = elim (slot m peer_id) [ none ↦ (m, none) | some c ↦ claim m peer_id c ]

release : Manager → ℕ → Connection → Manager
release m peer_id c = if is_disconnected c.state then m else record (store m peer_id (reset c)) {
  active_connections =
      if ltb 0 m.active_connections then m.active_connections - 1 else m.active_connections;
}

pub remove : Manager → ℕ → Manager
remove m peer_id = elim (slot m peer_id) [ none ↦ m | some c ↦ release m peer_id c ]

pub get : Manager → ℕ → Option Connection
get m peer_id = elim (slot m peer_id) [
  | none ↦ none
  | some c ↦ if is_disconnected c.state then none else some c
]

pub get_active_count : Option Manager → ℕ
get_active_count none = 0
get_active_count (some m) = m.active_connections

-- The loop of `GetAvailableSlot`, at index `i`.
first_free : ℕ → List Connection → Option ℕ
first_free i [] = none
first_free i (c ∷ cs) = if is_disconnected c.state then some i else first_free (suc i) cs

-- UINT32_MAX
abbrev pub no_slot : ℕ
no_slot = u32_mod - 1

pub get_available_slot : Manager → ℕ
unfolding first_free
get_available_slot m = elim m.connections [
  | none ↦ no_slot
  | some cs ↦ elim (first_free 0 cs) [ none ↦ no_slot | some i ↦ i ]
]

-- The functions on one connection.
pub set_state : Connection → State → Connection
set_state c s = record c { state = s }

pub update_activity : Connection → ℕ → Connection
update_activity c now = record c { last_activity_time = now }

pub update_ping : Connection → ℕ → ℕ → Connection
update_ping c nonce now = record c { last_ping_time = now; ping_nonce = nonce }

pub calculate_rtt : Connection → ℕ → Connection × ℕ
calculate_rtt c pong =
    if ltb pong c.last_ping_time
    then (c, 0)
    else let rtt = (pong - c.last_ping_time) % u32_mod in (record c { rtt_ms = rtt }, rtt)

pub is_timed_out : Connection → ℕ → ℕ → Bool
is_timed_out c now timeout =
    if is_disconnected c.state
    then false
    else if ltb now c.last_activity_time
    then false
    else ltb timeout (now - c.last_activity_time)

pub needs_ping : Connection → ℕ → ℕ → Bool
needs_ping c now interval =
    if not (is_connected c.state)
    then false
    else if c.last_ping_time == 0
    then true
    else if ltb now c.last_ping_time
    then true
    else leb interval (now - c.last_ping_time)
