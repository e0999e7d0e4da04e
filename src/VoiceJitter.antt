-- ===== src/VoiceJitter.antt =====
-- src/client/voice_jitter.c: the buffer in which the client puts the frames of one talker in order
-- before it plays them. `frames` holds the first `count` elements of the array, the only ones that
-- are read, so `count` is its length. A packet may be NULL, a buffer is passed by value.
pub mod Buffer
pub mod Playback
pub mod Delivery
pub mod Starving
mod Tests
use shroomio.Base.{
  ℕ, zero, suc, ◌+◌, ◌-◌, ◌%◌, ◌/◌, ◌^◌, Bool, true, false, ◌&&◌, ◌||◌, not, Option, none, some,
  List, [], ◌∷◌, ◌++◌, ltb, leb, ◌==◌, if◌then◌else◌, length, get_or, take, add16, sub16,
}
use shroomio.VoiceFrame.{VoiceFrame, is_start, is_end, is_valid}

pub record Frame : Type 0 where
  pub timestamp : ℕ
  pub arrival_ms : ℕ
  pub sequence : ℕ
  pub payload_size : ℕ
  pub flags : ℕ
  pub payload : List ℕ

pub record Jitter : Type 0 where
  pub frames : List Frame
  pub stream_id : ℕ
  pub first_arrival_ms : ℕ
  pub expected_sequence : ℕ
  pub consecutive_loss : ℕ
  pub initialized : Bool
  pub started : Bool
  pub end_received : Bool

pub data PushResult : Type 0 where
  accepted stream_not_started late duplicate overflow invalid : PushResult

pub data PopKind : Type 0 where
  wait frame fec plc finished : PopKind

pub record Pop : Type 0 where
  pub kind : PopKind
  pub frame : Frame
  pub missing_sequence : ℕ
  pub stream_ended : Bool

abbrev pub capacity : ℕ
capacity = 12

abbrev pub target_frames : ℕ
target_frames = 3

abbrev pub max_start_delay_ms : ℕ
max_start_delay_ms = 60

abbrev pub max_consecutive_loss : ℕ
max_consecutive_loss = 5

abbrev pub no_frame : Frame
no_frame = record {
  timestamp = 0;
  arrival_ms = 0;
  sequence = 0;
  payload_size = 0;
  flags = 0;
  payload = [];
}

-- `SequenceDelta`, a signed 16-bit difference, is negative.
abbrev pub is_before : ℕ → ℕ → Bool
is_before value reference = leb (2 ^ 15) (sub16 value reference)

abbrev pub init : Jitter
init = record {
  frames = [];
  stream_id = 0;
  first_arrival_ms = 0;
  expected_sequence = 0;
  consecutive_loss = 0;
  initialized = false;
  started = false;
  end_received = false;
}

abbrev pub reset : Jitter
reset = init

unfoldable pub start_stream : VoiceFrame → ℕ → Jitter
start_stream packet arrival_ms = record reset {
  stream_id = packet.stream_id;
  expected_sequence = packet.sequence;
  first_arrival_ms = arrival_ms;
  initialized = true;
}

-- The index of the first frame that passes a test; `none` is -1.
unfoldable pub find : (Frame → Bool) → List Frame → Option ℕ
find p [] = none
find p (x ∷ xs) =
    let rest = find p xs in
    if p x then some 0 else elim rest [ none ↦ none | some i ↦ some (suc i) ]

abbrev pub has_sequence : ℕ → Frame → Bool
has_sequence sequence f = f.sequence == sequence

abbrev pub find_sequence : Jitter → ℕ → Option ℕ
find_sequence j sequence = find (has_sequence sequence) j.frames

abbrev pub find_next_sequence : Jitter → Option ℕ
find_next_sequence j = find (λ f. sub16 f.sequence j.expected_sequence == 1) j.frames

-- The array without the element at an index: `memmove` in `RemoveFrame`.
unfoldable pub remove_at : List Frame → ℕ → List Frame
remove_at [] i = []
remove_at (x ∷ xs) zero = xs
remove_at (x ∷ xs) (suc i) = x ∷ remove_at xs i

unfoldable pub remove_frame : Jitter → ℕ → Jitter × Frame
remove_frame j i = (record j { frames = remove_at j.frames i }, get_or j.frames i no_frame)

abbrev pub frame_of : VoiceFrame → ℕ → Frame
frame_of packet arrival_ms = record {
  timestamp = packet.timestamp;
  arrival_ms = arrival_ms;
  sequence = packet.sequence;
  payload_size = packet.payload_size;
  flags = packet.flags;
  payload = take packet.payload_size packet.payload;
}

-- A packet of the stream that the buffer holds.
unfoldable pub store : Jitter → VoiceFrame → ℕ → Jitter × PushResult
store j packet arrival_ms =
    if j.started && is_before packet.sequence j.expected_sequence
    then (j, late)
    else elim (find_sequence j packet.sequence) [
      | some i ↦ (j, duplicate)
      | none ↦ if leb capacity (length j.frames) then (j, overflow) else (
        record j {
          frames = j.frames ++ frame_of packet arrival_ms ∷ [];
          end_received = j.end_received || is_end packet;
        },
        accepted,
      )
    ]

unfoldable pub push : Jitter → Option VoiceFrame → ℕ → ℕ → Jitter × PushResult
push j none wire_size arrival_ms = (j, invalid)
push j (some packet) wire_size arrival_ms =
    if not (is_valid (some packet) wire_size) || packet.sender_id == 0
    then (j, invalid)
    else if is_start packet
    then store (start_stream packet arrival_ms) packet arrival_ms
    else if not j.initialized || not (j.stream_id == packet.stream_id)
    then (j, stream_not_started)
    else store j packet arrival_ms

abbrev pub delay_elapsed : Jitter → ℕ → Bool
delay_elapsed j now_ms =
    ltb now_ms j.first_arrival_ms || leb max_start_delay_ms (now_ms - j.first_arrival_ms)

abbrev pub waits : Jitter → ℕ → Bool
waits j now_ms =
    not j.started
    && ltb (length j.frames) target_frames
    && not j.end_received
    && not (delay_elapsed j now_ms)

abbrev pub nothing : PopKind → Pop
nothing kind = record { kind = kind; frame = no_frame; missing_sequence = 0; stream_ended = false }

-- The expected frame is there.
unfoldable pub play : Jitter → ℕ → Jitter × Pop
unfolding remove_frame
play j i =
    let (rest, f) = remove_frame j i in
    let ended = f.flags / 2 % 2 == 1 in
    let on = record rest {
      expected_sequence = add16 rest.expected_sequence 1;
      consecutive_loss = 0;
    } in
    (
      if ended then reset else on,
      record { kind = PopKind.frame; frame = f; missing_sequence = 0; stream_ended = ended },
    )

-- It is not: the next frame helps to conceal it, if it is there, unless too many were lost.
abbrev pub substitute : Jitter → PopKind × Frame
substitute j = elim (find_next_sequence j) [
  | some i ↦ (fec, get_or j.frames i no_frame)
  | none ↦ (plc, no_frame)
]

unfoldable pub conceal : Jitter → Jitter × Pop
conceal j =
    let found = substitute j in
    let loss = (j.consecutive_loss + 1) % 256 in
    let given_up = ltb max_consecutive_loss loss in
    (
      if given_up then reset else record j {
        expected_sequence = add16 j.expected_sequence 1;
        consecutive_loss = loss;
      },
      record {
        kind = if given_up then finished else found.0;
        frame = found.1;
        missing_sequence = j.expected_sequence;
        stream_ended = false;
      },
    )

unfoldable pub play_next : Jitter → Jitter × Pop
unfolding play conceal
play_next j = elim (find_sequence j j.expected_sequence) [ some i ↦ play j i | none ↦ conceal j ]

unfoldable pub pop_next : Jitter → ℕ → Jitter × Pop
unfolding play_next
pop_next j now_ms =
    if not j.initialized
    then (j, nothing finished)
    else if waits j now_ms
    then (j, nothing wait)
    else play_next (record j { started = true })
