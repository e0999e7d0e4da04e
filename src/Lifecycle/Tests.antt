-- ===== src/Lifecycle/Tests.antt =====
-- Lifecycles at concrete inputs.
use shroomio.Base.{◌≡◌, refl, ◌≤◌, true, false, some, none, [], ◌∷◌, ◌++◌, List}
use shroomio.Lifecycle.{
  initialize, State, Event, Lifecycle, transition_on, request, init_lifecycle, transition, run,
  is_running, is_shutdown_requested_at,
}
use shroomio.Lifecycle.Diagram.{Follows, transition-Follows}
use shroomio.Lifecycle.Runs.{phase, transitions, phase-transitions, request_stays}

abbrev started : List Event
started = Event.init ∷ Event.start ∷ Event.pause ∷ []

paused_after_start : (transitions init_lifecycle started).state ≡ State.paused
unfolding transitions transition init_lifecycle
paused_after_start = refl

no_stop_before_start : (transition init_lifecycle Event.stop).1 ≡ false
unfolding transition init_lifecycle
no_stop_before_start = refl

pausing : is_running (transitions init_lifecycle started) ≡ true
unfolding transitions transition init_lifecycle is_running
pausing = refl

transition-Follows_example :
    Follows init_lifecycle Event.init (transition init_lifecycle Event.init)
transition-Follows_example = transition-Follows init_lifecycle Event.init

phase-transitions_example :
    phase init_lifecycle.state ≤ phase (transitions init_lifecycle started).state
phase-transitions_example = phase-transitions init_lifecycle started

abbrev crashed : Lifecycle
crashed = record {
  state = State.error;
  shutdown_requested = false;
  error_code = 7;
  error_message = none;
}

request_stays_example :
    is_shutdown_requested_at (
      run
        (some init_lifecycle)
        ((initialize ∷ transition_on Event.init ∷ []) ++ request ∷ transition_on Event.error ∷ []))
    ≡ true
request_stays_example =
    request_stays (some init_lifecycle) (initialize ∷ transition_on Event.init ∷ [])
      (transition_on Event.error ∷ []) ((λ e. cc), tt)
