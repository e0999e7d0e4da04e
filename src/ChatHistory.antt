-- ===== src/ChatHistory.antt =====
-- src/server/chat_history.c: the chat messages that a lobby keeps, and writes to its database. A
-- text is the list of its bytes, without the terminator. `messages` holds the first `message_count`
-- elements of the array, so the count is its length. A history is passed by value; a message, like
-- the database, may be NULL.
pub mod Retention
pub mod Bounds
pub mod Flush
pub mod Load
mod Tests
use shroomio.Base.{
  ℕ, zero, suc, ◌+◌, ◌*◌, ◌-◌, Bool, true, false, ◌&&◌, ◌||◌, not, Option, none, some, List, [],
  ◌∷◌, ◌++◌, ltb, leb, ◌==◌, if◌then◌else◌, length, add64, sub64,
}

pub record Message : Type 0 where
  pub sender_id : ℕ
  pub message_id : ℕ
  pub timestamp_sec : ℕ
  pub sender_name : List ℕ
  pub message : List ℕ

pub record History : Type 0 where
  pub identity : ℕ
  pub byte_count : ℕ
  pub messages : List Message
  pub dirty : Bool
  pub last_flush_ms : ℕ

abbrev pub max_messages : ℕ
max_messages = 50

abbrev pub max_bytes : ℕ
max_bytes = 16 * 1024

abbrev pub retention_seconds : ℕ
retention_seconds = 7 * 24 * 60 * 60

abbrev pub flush_interval_ms : ℕ
flush_interval_ms = 1000

abbrev pub init : ℕ → History
init identity = record {
  identity = identity;
  byte_count = 0;
  messages = [];
  dirty = false;
  last_flush_ms = 0;
}

abbrev pub message_bytes : Message → ℕ
message_bytes m = length m.sender_name + length m.message

abbrev pub retained : ℕ → ℕ → Bool
retained timestamp_sec now_sec =
    not (timestamp_sec == 0)
    && leb timestamp_sec now_sec
    && leb (now_sec - timestamp_sec) retention_seconds

unfoldable pub remove_oldest : History → History
remove_oldest h = elim h.messages [
  | [] ↦ h
  | m ∷ ms ↦ record h { byte_count = sub64 h.byte_count (message_bytes m); messages = ms }
]

abbrev pub is_full : History → ℕ → Bool
is_full h bytes = leb max_messages (length h.messages) || ltb max_bytes (add64 h.byte_count bytes)

-- The loop of `Append`, on fuel: `none` is a loop that has not ended.
unfoldable pub make_room : ℕ → History → ℕ → Option History
make_room zero h bytes = none
make_room (suc fuel) h bytes =
    let rest = make_room fuel (remove_oldest h) bytes in if is_full h bytes then rest else some h

abbrev pub is_empty : List ℕ → Bool
is_empty [] = true
is_empty (b ∷ bs) = false

abbrev pub has_id : ℕ → List Message → Bool
has_id message_id [] = false
has_id message_id (m ∷ ms) = m.message_id == message_id || has_id message_id ms

abbrev pub is_refused : History → Message → ℕ → Bool
is_refused h m now_sec =
    h.identity == 0
    || not (retained m.timestamp_sec now_sec)
    || m.message_id == 0
    || is_empty m.sender_name
    || is_empty m.message

abbrev pub append_fuel : ℕ
append_fuel = max_messages + 1

abbrev pub put : History → Message → History
put h m = record h {
  messages = h.messages ++ m ∷ [];
  byte_count = add64 h.byte_count (message_bytes m);
  dirty = true;
}

abbrev pub finish_append : Message → Option History → Option (History × Bool)
finish_append m none = none
finish_append m (some h) = some (put h m, true)

unfoldable pub append : History → Option Message → ℕ → Option (History × Bool)
append h none now_sec = some (h, false)
append h (some m) now_sec =
    let room = make_room append_fuel h (message_bytes m) in
    if is_refused h m now_sec
    then some (h, false)
    else if has_id m.message_id h.messages
    then some (h, true)
    else finish_append m room
