-- ===== src/Lifecycle.antt =====
-- src/shared/lifecycle.c: the life of a client or server process as a state machine.
-- An operation takes the object that its pointer names; `call` adds the guards against NULL, and
-- `none` stands for NULL there.
pub mod Diagram
pub mod Runs
mod Tests
use Prim.Native.String.{String}
use shroomio.Base.{ℕ, Bool, true, false, ◌||◌, Option, none, some, List, [], ◌∷◌, if◌then◌else◌}

pub data State : Type 0 where
  uninitialized initializing initialized running paused shutting_down shutdown error : State

pub data Event : Type 0 where
  init start pause resume stop shutdown error : Event

-- The message is a pointer, and may be NULL.
pub record Lifecycle : Type 0 where
  pub state : State
  pub shutdown_requested : Bool
  pub error_code : ℕ
  pub error_message : Option String

pub init_lifecycle : Lifecycle
init_lifecycle = record {
  state = State.uninitialized;
  shutdown_requested = false;
  error_code = 0;
  error_message = none;
}

-- `==` on the two enumerations.
abbrev pub is_event : Event → Event → Bool
is_event Event.init Event.init = true
is_event Event.start Event.start = true
is_event Event.pause Event.pause = true
is_event Event.resume Event.resume = true
is_event Event.stop Event.stop = true
is_event Event.shutdown Event.shutdown = true
is_event Event.error Event.error = true
is_event _ _ = false

abbrev pub is_state : State → State → Bool
is_state State.uninitialized State.uninitialized = true
is_state State.initializing State.initializing = true
is_state State.initialized State.initialized = true
is_state State.running State.running = true
is_state State.paused State.paused = true
is_state State.shutting_down State.shutting_down = true
is_state State.shutdown State.shutdown = true
is_state State.error State.error = true
is_state _ _ = false

-- The switch of `ShroomLifecycleCanTransition`.
allows : State → Event → Bool
allows State.uninitialized e = is_event e Event.init
allows State.initializing e = is_event e Event.start || is_event e Event.error
allows State.initialized e =
    is_event e Event.start || is_event e Event.shutdown || is_event e Event.error
allows State.running e =
    is_event e Event.pause
    || is_event e Event.stop
    || is_event e Event.shutdown
    || is_event e Event.error
allows State.paused e =
    is_event e Event.resume
    || is_event e Event.stop
    || is_event e Event.shutdown
    || is_event e Event.error
allows State.shutting_down e = is_event e Event.shutdown || is_event e Event.error
allows State.shutdown e = false
allows State.error e = is_event e Event.shutdown

pub can_transition : Lifecycle → Event → Bool
unfolding allows
can_transition l e = allows l.state e

-- The two tests under SHROOM_LIFECYCLE_EVENT_START.
start_from : State → State
start_from s =
    if is_state s State.initializing || is_state s State.initialized
    then State.running
    else if is_state s State.paused
    then State.running
    else s

-- The switch of `ShroomLifecycleTransition`.
target : State → Event → State
unfolding start_from
target s Event.init = State.initializing
target s Event.start = start_from s
target s Event.pause = State.paused
target s Event.resume = State.running
target s Event.stop = State.shutting_down
target s Event.shutdown = State.shutdown
target s Event.error = State.error

pub transition : Lifecycle → Event → Lifecycle × Bool
unfolding can_transition target
transition l e =
    if can_transition l e then (record l { state = target l.state e }, true) else (l, false)

pub request_shutdown : Lifecycle → Lifecycle
request_shutdown l = record l { shutdown_requested = true }

pub is_running : Lifecycle → Bool
is_running l = is_state l.state State.running || is_state l.state State.paused

pub is_shutdown_requested : Lifecycle → Bool
is_shutdown_requested l =
    l.shutdown_requested || is_state l.state State.shutting_down || is_state l.state State.shutdown

pub set_error : Lifecycle → ℕ → Option String → Lifecycle
set_error l code message = record l {
  error_code = code;
  error_message = message;
  state = State.error;
}

-- What a program can ask of a lifecycle.
pub data Call : Type 0 where
  initialize : Call
  transition_on : Event → Call
  request : Call
  fail : ℕ → Option String → Call

-- A call on a live object, and the answer of the function (`true` where it returns nothing).
pub apply : Lifecycle → Call → Lifecycle × Bool
unfolding init_lifecycle transition request_shutdown set_error
apply l initialize = (init_lifecycle, true)
apply l (transition_on e) = transition l e
apply l request = (request_shutdown l, true)
apply l (fail code message) = (set_error l code message, true)

-- A call through a pointer: on NULL nothing happens, and a transition is refused.
pub call : Option Lifecycle → Call → Option Lifecycle × Bool
call (some l) c = let (m, answer) = apply l c in (some m, answer)
call none (transition_on e) = (none, false)
call none c = (none, true)

-- `ShroomLifecycleIsShutdownRequested` answers yes for NULL, `ShroomLifecycleIsRunning` no.
pub is_shutdown_requested_at : Option Lifecycle → Bool
unfolding is_shutdown_requested
is_shutdown_requested_at none = true
is_shutdown_requested_at (some l) = is_shutdown_requested l

pub is_running_at : Option Lifecycle → Bool
unfolding is_running
is_running_at none = false
is_running_at (some l) = is_running l

pub run : Option Lifecycle → List Call → Option Lifecycle
run p [] = p
run p (c ∷ cs) = run (call p c).0 cs
