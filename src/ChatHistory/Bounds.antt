-- ===== src/ChatHistory/Bounds.antt =====
-- The bounds of the history, after any appends.
use shroomio.Base.{
  ℕ, ◌≡◌, ◌≢◌, inl, inr, refl, sym, ◌∙◌, Bool, true, false, Option, none, some, List, [], ◌∷◌, ◌++◌,
  arith, length-append, All, Bool-cases,
}
use shroomio.ChatHistory.{Message, History, init, message_bytes, has_id, is_refused, append}
use shroomio.ChatHistory.Retention.{
  total, total-append, Distinct, IsValid, IsText, evict, has_room, has_room-evict, room-bounds,
  added, append-added,
}

has_id-append :
    (i : ℕ) (ms : List Message) (m : Message)
    → has_id i ms ≡ false
    → m.message_id ≢ i
    → has_id i (ms ++ m ∷ []) ≡ false
has_id-append i [] m a ne = ground arith
has_id-append i (x ∷ xs) m a ne = ground (arith, has_id-append i xs m)

has_id-ne : (x : Message) (xs : List Message) (i : ℕ) → has_id i (x ∷ xs) ≡ false → x.message_id ≢ i
has_id-ne x xs i h e = ground arith

Distinct-append :
    (ms : List Message) (m : Message)
    → Distinct ms
    → has_id m.message_id ms ≡ false
    → Distinct (ms ++ m ∷ [])
Distinct-append [] m d new = (refl, tt)
Distinct-append (x ∷ xs) m d new = (
  has_id-append x.message_id xs m d.0 (λ e. has_id-ne x xs m.message_id new (sym e)),
  Distinct-append xs m d.1 (ground arith),
)

Distinct-evict : (bytes : ℕ) (ms : List Message) → Distinct ms → Distinct (evict bytes ms)
unfolding evict
Distinct-evict bytes [] d = d
Distinct-evict bytes (m ∷ ms) d = elim (Bool-cases (has_room bytes (m ∷ ms))) [
  | inl room ↦ rw room d
  | inr full ↦ rw full (Distinct-evict bytes ms d.1)
]

has_id-evict :
    (bytes i : ℕ) (ms : List Message) → has_id i ms ≡ false → has_id i (evict bytes ms) ≡ false
unfolding evict
has_id-evict bytes i [] a = a
has_id-evict bytes i (m ∷ ms) a = elim (Bool-cases (has_room bytes (m ∷ ms))) [
  | inl room ↦ rw room a
  | inr full ↦ rw full (has_id-evict bytes i ms (ground arith))
]

added-IsValid :
    (h : History) (m : Message)
    → IsValid h
    → IsText m
    → has_id m.message_id h.messages ≡ false
    → IsValid (added h m)
unfolding total
added-IsValid h m v t new =
    let bytes = message_bytes m in
    let kept : List Message = evict bytes h.messages in
    let fits = room-bounds bytes kept (has_room-evict bytes h.messages (omega arith)) in
    (
      omega (arith, total-append kept (m ∷ [])),
      (
        omega (arith, fits, length-append kept (m ∷ [])),
        omega (arith, fits, total-append kept (m ∷ [])),
      ),
      Distinct-append kept m (Distinct-evict bytes h.messages v.2)
          (has_id-evict bytes m.message_id h.messages new),
    )

-- One call ends and keeps the history valid.
pub append_keeps :
    (h : History) (m : Message) (now : ℕ)
    → IsValid h
    → IsText m
    → (k : History) × (b : Bool) × (append h (some m) now ≡ some (k, b)) × IsValid k
append_keeps h m now v t =
    let e = append-added h m now v t in
    elim (Bool-cases (is_refused h m now)) [
      | inl refused ↦ (h, false, e ∙ rw refused refl, v)
      | inr fine ↦ elim (Bool-cases (has_id m.message_id h.messages)) [
        | inl known ↦ (h, true, e ∙ rw fine (rw known refl), v)
        | inr new ↦ (added h m, true, e ∙ rw fine (rw new refl), added-IsValid h m v t new)
      ]
    ]

-- Appends in a row.
unfoldable pub appends : History → List (Message × ℕ) → Option History
appends h [] = some h
appends h ((m, now) ∷ cs) = elim (append h (some m) now) [
  | none ↦ none
  | some (k, b) ↦ appends k cs
]

appends_from-IsValid :
    (h : History) (cs : List (Message × ℕ))
    → IsValid h
    → All (λ c. IsText c.0) cs
    → (k : History) × (appends h cs ≡ some k) × IsValid k
unfolding appends
appends_from-IsValid h [] v ts = (h, refl, v)
appends_from-IsValid h ((m, now) ∷ cs) v ts =
    let (k, b, e, w) = append_keeps h m now v ts.0 in
    rw (e, appends) (appends_from-IsValid k cs w ts.1)

-- Whatever messages are appended to a new history, each with texts that fit in their arrays, every
-- call ends, and the history that is left counts its bytes right, holds at most as many messages
-- and bytes as it may, and no id twice.
pub appends-IsValid :
    (identity : ℕ) (cs : List (Message × ℕ))
    → All (λ c. IsText c.0) cs
    → (k : History) × (appends (init identity) cs ≡ some k) × IsValid k
unfolding total
appends-IsValid identity cs ts =
    appends_from-IsValid (init identity) cs (refl, (omega arith, omega arith), tt) ts
