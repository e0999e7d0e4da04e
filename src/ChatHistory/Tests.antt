-- ===== src/ChatHistory/Tests.antt =====
-- A history, and a database that keeps the rows of every history, those that are durable beside
-- those of the transaction, whose statements always succeed.
use shroomio.Base.{
  ℕ, ◌≡◌, ◌≢◌, ◌++◌, refl, Bool, true, false, Option, none, some, List, [], ◌∷◌, arith, ◌==◌,
  if◌then◌else◌,
}
use shroomio.ChatHistory.{
  Message, History, init, append, make_room, remove_oldest, is_refused, has_id,
}
use shroomio.ChatHistory.Bounds.{appends, appends-IsValid}
use shroomio.ChatHistory.Retention.{IsValid, added, append-added, total}
use shroomio.ChatHistory.Flush.{Statements, Laws, Flushed, flush_if_due, flush_if_due-Flushed}
use shroomio.ChatHistory.Load.{Row, load, load-IsValid}

abbrev greeting : ℕ → Message
greeting id = record {
  sender_id = 7;
  message_id = id;
  timestamp_sec = 100;
  sender_name = 65 ∷ [];
  message = 104 ∷ 105 ∷ [];
}

abbrev messages : List (Message × ℕ)
messages = (greeting 1, 100) ∷ (greeting 2, 100) ∷ (greeting 1, 101) ∷ (greeting 3, 99) ∷ []

abbrev chat : History
chat = record (init 5) { messages = greeting 1 ∷ greeting 2 ∷ []; byte_count = 6; dirty = true }

kept : appends (init 5) messages ≡ some chat
unfolding appends append make_room remove_oldest
kept = refl

appends-IsValid_example : (k : History) × (appends (init 5) messages ≡ some k) × IsValid k
appends-IsValid_example = appends-IsValid 5 messages (
  (omega arith, omega arith),
  ((omega arith, omega arith), ((omega arith, omega arith), ((omega arith, omega arith), tt))),
)

chat-IsValid : IsValid chat
unfolding total
chat-IsValid = (refl, (omega arith, omega arith), (refl, (refl, tt)))

append-added_example :
    append chat (some (greeting 3)) 100
    ≡ some (
        if is_refused chat (greeting 3) 100
        then (chat, false)
        else if has_id 3 chat.messages
        then (chat, true)
        else (added chat (greeting 3), true))
append-added_example = append-added chat (greeting 3) 100 chat-IsValid (omega arith, omega arith)

abbrev Rows : Type 0
Rows = ℕ → List Message

abbrev Database : Type 0
Database = Rows × Rows

abbrev at : Rows → ℕ → List Message → Rows
at rows k ms = λ i. if i == k then ms else rows i

abbrev statements : Statements Database
statements = record {
  begin = λ d. ((d.0, d.0), true);
  delete_rows = λ d k. ((d.0, at d.1 k []), true);
  insert = λ d k m. ((d.0, at d.1 k (d.1 k ++ m ∷ [])), true);
  commit = λ d. ((d.1, d.1), true);
  rollback = λ d. ((d.0, d.0), true);
}

at_self : (rows : Rows) (k : ℕ) (ms : List Message) → at rows k ms k ≡ ms
at_self rows k ms = ground arith

at_ne : (rows : Rows) (k i : ℕ) (ms : List Message) → i ≢ k → at rows k ms i ≡ rows i
at_ne rows k i ms ne = ground arith

abbrev laws : Laws statements
laws = record {
  durable = λ d. d.0;
  pending = λ d. d.1;
  begin-durable = λ d i. refl;
  begin-pending = λ d i ok. refl;
  delete-durable = λ d k i. refl;
  delete-pending = λ d k ok. at_self d.1 k [];
  delete-others = λ d k i ok ne. at_ne d.1 k i [] ne;
  insert-durable = λ d k i m. refl;
  insert-pending = λ d k m ok. at_self d.1 k (d.1 k ++ m ∷ []);
  insert-others = λ d k i m ok ne. at_ne d.1 k i (d.1 k ++ m ∷ []) ne;
  commit-durable = λ d i ok. refl;
  commit-failed = λ d i bad. cc bad;
  rollback-durable = λ d i. refl;
}

abbrev old_rows : Rows
old_rows = λ i. greeting 9 ∷ []

flush_if_due-Flushed_example :
    Flushed statements laws
      (old_rows, old_rows)
      chat
      5000
      (flush_if_due statements (some (old_rows, old_rows)) chat 5000)
flush_if_due-Flushed_example = flush_if_due-Flushed statements laws (old_rows, old_rows) chat 5000

abbrev row : Row
row = record {
  sender_id = 7;
  message_id = 1;
  timestamp_sec = 100;
  sender_name = some (65 ∷ []);
  message = none;
}

abbrev select : ℕ → ℕ → Option (List Row × Bool)
select d identity = some (row ∷ record row { message = some (104 ∷ []) } ∷ [], true)

init-IsValid : IsValid (init 5)
unfolding total
init-IsValid = (refl, (omega arith, omega arith), tt)

load-IsValid_example :
    (k : History) × (ok : Bool) × (load select (some 0) (init 5) 100 ≡ some (k, ok)) × IsValid k
load-IsValid_example = load-IsValid select 0 (init 5) 100 init-IsValid
