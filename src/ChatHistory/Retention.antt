-- ===== src/ChatHistory/Retention.antt =====
-- What the history keeps.
use shroomio.Base.{
  ℕ, zero, suc, ◌+◌, ◌≤◌, ◌<◌, ◌≡◌, inl, inr, refl, sym, ap, subst, ◌∙◌, Bool, true, false, ◌&&◌,
  ◌||◌, not, some, List, [], ◌∷◌, ◌++◌, arith, length, Bool-cases, ltb, leb, if◌then◌else◌, add64,
  sub64,
}
use shroomio.ChatHistory.{
  Message, History, message_bytes, remove_oldest, is_full, make_room, has_id, is_refused, append,
  append_fuel, finish_append, max_messages, max_bytes,
}

unfoldable pub total : List Message → ℕ
total [] = 0
total (m ∷ ms) = message_bytes m + total ms

-- The bounds of the history, kept by a list of messages.
abbrev pub Fits : List Message → Type 0
Fits ms = (length ms ≤ max_messages) × (total ms ≤ max_bytes)

abbrev pub Distinct : List Message → Type 0
Distinct [] = Unit
Distinct (m ∷ ms) = (has_id m.message_id ms ≡ false) × Distinct ms

-- The count of bytes is right, the bounds are kept, no two messages have the same id.
abbrev pub IsValid : History → Type 0
IsValid h = (h.byte_count ≡ total h.messages) × Fits h.messages × Distinct h.messages

pub total-append : (xs ys : List Message) → total (xs ++ ys) ≡ total xs + total ys
unfolding total
total-append [] ys = omega arith
total-append (x ∷ xs) ys = omega (arith, total-append xs ys)

-- The rule: the oldest messages go while there is no room for one more of a size.
unfoldable pub evict : ℕ → List Message → List Message
evict bytes [] = []
evict bytes (m ∷ ms) =
    let rest = evict bytes ms in
    if ltb (length (m ∷ ms)) max_messages && leb (total (m ∷ ms) + bytes) max_bytes
    then m ∷ ms
    else rest

abbrev with_messages : History → List Message → History
with_messages h ms = record h { messages = ms; byte_count = total ms }

abbrev pub has_room : ℕ → List Message → Bool
has_room bytes ms = ltb (length ms) max_messages && leb (total ms + bytes) max_bytes

is_full-not :
    (h : History) (bytes : ℕ) (ms : List Message)
    → bytes ≤ max_bytes
    → total ms ≤ max_bytes
    → is_full (with_messages h ms) bytes ≡ not (has_room bytes ms)
is_full-not h bytes ms b t = full (length ms) (total ms) t
  where
    full :
        (n t : ℕ)
        → t ≤ max_bytes
        → (leb max_messages n || ltb max_bytes (add64 t bytes))
          ≡ not (ltb n max_messages && leb (t + bytes) max_bytes)
    full n t l = ground arith

remove_oldest_next :
    (h : History) (m : Message) (ms : List Message)
    → total (m ∷ ms) ≤ max_bytes
    → remove_oldest (with_messages h (m ∷ ms)) ≡ with_messages h ms
unfolding remove_oldest total
remove_oldest_next h m ms t =
    ap (λ n. record h { messages = ms; byte_count = n }) (less (message_bytes m) (total ms) t)
  where
    less : (a b : ℕ) → a + b ≤ max_bytes → sub64 (a + b) a ≡ b
    less a b l = ground arith

has_room-empty : (n : ℕ) → n ≤ max_bytes → has_room n [] ≡ true
unfolding total
has_room-empty n l = ground arith

total-tail : (m : Message) (ms : List Message) → total (m ∷ ms) ≤ max_bytes → total ms ≤ max_bytes
unfolding total
total-tail m ms l = omega arith

make_room-evict :
    (fuel : ℕ) (h : History) (ms : List Message) (bytes : ℕ)
    → length ms < fuel
    → total ms ≤ max_bytes
    → bytes ≤ max_bytes
    → make_room fuel (with_messages h ms) bytes ≡ some (with_messages h (evict bytes ms))
unfolding make_room evict
make_room-evict zero h ms bytes few t b = absurd (omega arith)
make_room-evict (suc fuel) h [] bytes few t b =
    rw (is_full-not h bytes [] b t) (rw (has_room-empty bytes b) refl)
make_room-evict (suc fuel) h (m ∷ ms) bytes few t b = elim (Bool-cases (has_room bytes (m ∷ ms))) [
  | inl room ↦ rw (is_full-not h bytes (m ∷ ms) b t) (rw room refl)
  | inr full ↦ rw (is_full-not h bytes (m ∷ ms) b t) (
      rw full (
        rw (remove_oldest_next h m ms t)
          (make_room-evict fuel h ms bytes (omega arith) (total-tail m ms t) b)))
]

-- The texts of a message are at most as long as their arrays allow.
abbrev pub IsText : Message → Type 0
IsText m = (length m.sender_name < 32) × (length m.message ≤ 200)

-- What is left of the history when a new message has been added.
abbrev pub added : History → Message → History
added h m = record h {
  messages = evict (message_bytes m) h.messages ++ m ∷ [];
  byte_count = total (evict (message_bytes m) h.messages) + message_bytes m;
  dirty = true;
}

pub has_room-evict :
    (bytes : ℕ) (ms : List Message) → bytes ≤ max_bytes → has_room bytes (evict bytes ms) ≡ true
unfolding evict
has_room-evict bytes [] b = has_room-empty bytes b
has_room-evict bytes (m ∷ ms) b = elim (Bool-cases (has_room bytes (m ∷ ms))) [
  | inl room ↦ rw room room
  | inr full ↦ rw full (has_room-evict bytes ms b)
]

pub room-bounds :
    (bytes : ℕ) (ms : List Message)
    → has_room bytes ms ≡ true
    → (length ms < max_messages) × (total ms + bytes ≤ max_bytes)
room-bounds bytes ms room = bounds (length ms) (total ms) room
  where
    bounds :
        (n t : ℕ)
        → (ltb n max_messages && leb (t + bytes) max_bytes) ≡ true
        → (n < max_messages) × (t + bytes ≤ max_bytes)
    bounds n t e = (ground arith, ground arith)

-- A call of `Append` always ends. A message that is refused, and one whose id is in the history,
-- change nothing; any other joins the history at its end, for which the oldest messages go, as long
-- as there are too many or they are too long.
pub append-added :
    (h : History) (m : Message) (now_sec : ℕ)
    → IsValid h
    → IsText m
    → append h (some m) now_sec
      ≡ some (
          if is_refused h m now_sec
          then (h, false)
          else if has_id m.message_id h.messages
          then (h, true)
          else (added h m, true))
unfolding append
append-added h m now_sec v t =
    let bytes = message_bytes m in
    let small : bytes ≤ max_bytes = omega arith in
    let same : with_messages h h.messages ≡ h = ap (λ n. record h { byte_count = n }) (sym v.0) in
    let room : make_room append_fuel h bytes ≡ some (with_messages h (evict bytes h.messages)) =
      subst (λ k. make_room append_fuel k bytes ≡ some (with_messages h (evict bytes h.messages)))
        same (make_room-evict append_fuel h h.messages bytes (omega arith) v.1.1 small) in
    let kept : List Message = evict bytes h.messages in
    let fits : total kept + bytes ≤ max_bytes =
      (room-bounds bytes kept (has_room-evict bytes h.messages small)).1 in
    let joined : finish_append m (make_room append_fuel h bytes) ≡ some (added h m, true) =
      ap (finish_append m) room
      ∙ ap (λ n. some (record (added h m) { byte_count = n }, true))
          (no_wrap (total kept) bytes fits) in
    elim (Bool-cases (is_refused h m now_sec)) [
      | inl refused ↦ rw refused refl
      | inr fine ↦ rw fine (elim (Bool-cases (has_id m.message_id h.messages)) [
        | inl known ↦ rw known refl
        | inr new ↦ rw new joined
      ])
    ]
  where
    no_wrap : (a b : ℕ) → a + b ≤ max_bytes → add64 a b ≡ a + b
    no_wrap a b l = ground arith
