-- ===== src/Lifecycle/Diagram.antt =====
-- The diagram of the states, as a relation of its own, and the code against it.
use shroomio.Base.{◌≡◌, refl, Bool, true, false, Bool-cases, inl, inr}
use shroomio.Lifecycle.{State, Event, Lifecycle, allows, target, can_transition, transition}

-- The arrows that a lifecycle may take.
pub data Arrow : State → Event → State → Type 0 where
  begin : Arrow State.uninitialized Event.init State.initializing
  start : Arrow State.initializing Event.start State.running
  start_initialized : Arrow State.initialized Event.start State.running
  pause : Arrow State.running Event.pause State.paused
  resume : Arrow State.paused Event.resume State.running
  stop_running : Arrow State.running Event.stop State.shutting_down
  stop_paused : Arrow State.paused Event.stop State.shutting_down
  close_initialized : Arrow State.initialized Event.shutdown State.shutdown
  close_running : Arrow State.running Event.shutdown State.shutdown
  close_paused : Arrow State.paused Event.shutdown State.shutdown
  close_shutting_down : Arrow State.shutting_down Event.shutdown State.shutdown
  close_error : Arrow State.error Event.shutdown State.shutdown
  break_initializing : Arrow State.initializing Event.error State.error
  break_initialized : Arrow State.initialized Event.error State.error
  break_running : Arrow State.running Event.error State.error
  break_paused : Arrow State.paused Event.error State.error
  break_shutting_down : Arrow State.shutting_down Event.error State.error

Arrow-allows : {s t : State} {e : Event} → Arrow s e t → (allows s e ≡ true) × (target s e ≡ t)
unfolding allows target
Arrow-allows begin = (refl, refl)
Arrow-allows _ = (refl, refl)

allows-Arrow : (s : State) (e : Event) → allows s e ≡ true → Arrow s e (target s e)
unfolding allows target
allows-Arrow State.uninitialized Event.init h = begin
allows-Arrow State.initializing Event.start h = start
allows-Arrow State.initializing Event.error h = break_initializing
allows-Arrow State.initialized Event.start h = start_initialized
allows-Arrow State.initialized Event.shutdown h = close_initialized
allows-Arrow State.initialized Event.error h = break_initialized
allows-Arrow State.running Event.pause h = pause
allows-Arrow State.running Event.stop h = stop_running
allows-Arrow State.running Event.shutdown h = close_running
allows-Arrow State.running Event.error h = break_running
allows-Arrow State.paused Event.resume h = resume
allows-Arrow State.paused Event.stop h = stop_paused
allows-Arrow State.paused Event.shutdown h = close_paused
allows-Arrow State.paused Event.error h = break_paused
allows-Arrow State.shutting_down Event.shutdown h = close_shutting_down
allows-Arrow State.shutting_down Event.error h = break_shutting_down
allows-Arrow State.error Event.shutdown h = close_error
allows-Arrow _ _ h = cc

-- What the diagram asks of a transition: along an arrow the state alone changes and the answer is
-- yes; with no arrow for the event nothing changes and the answer is no.
pub data Follows (l : Lifecycle) (e : Event) (out : Lifecycle × Bool) : Type 0 where
  moves : (t : State) → Arrow l.state e t → out ≡ (record l { state = t }, true) → Follows l e out
  stays : ((t : State) → ¬ Arrow l.state e t) → out ≡ (l, false) → Follows l e out

-- `ShroomLifecycleTransition` follows the diagram on every state and event: it succeeds exactly
-- where there is an arrow, changes the state and nothing else, and a refusal changes nothing.
pub transition-Follows : (l : Lifecycle) (e : Event) → Follows l e (transition l e)
unfolding transition can_transition
transition-Follows l e = elim (Bool-cases (allows l.state e)) [
  | inl h ↦ moves (target l.state e) (allows-Arrow l.state e h) (rw h)
  | inr h ↦ stays (λ t a. cc ((Arrow-allows a).0)) (rw h)
]
