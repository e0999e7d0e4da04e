-- ===== src/Lifecycle/Runs.antt =====
-- Whole histories of a lifecycle.
use shroomio.Base.{
  ℕ, ◌≤◌, ◌≡◌, refl, ◌≢◌, subst, ◌++◌, true, Option, none, some, List, [], ◌∷◌, arith, All,
}
use shroomio.Lifecycle.{
  State, Event, Lifecycle, Call, initialize, transition_on, request, fail, init_lifecycle,
  transition, apply, call, run, is_shutdown_requested_at, can_transition, allows, target,
}

-- How far a state is along the life of a process.
abbrev pub phase : State → ℕ
phase State.uninitialized = 0
phase State.initializing = 1
phase State.initialized = 1
phase State.running = 2
phase State.paused = 2
phase State.shutting_down = 3
phase State.error = 4
phase State.shutdown = 5

phase-target : (s : State) (e : Event) → allows s e ≡ true → phase s ≤ phase (target s e)
unfolding allows target
phase-target s e h = ground arith

-- The transitions of a history, in order.
unfoldable pub transitions : Lifecycle → List Event → Lifecycle
transitions l [] = l
transitions l (e ∷ es) = transitions (transition l e).0 es

phase-transition : (l : Lifecycle) (e : Event) → phase l.state ≤ phase (transition l e).0.state
unfolding transition can_transition
phase-transition l e = ground (arith, phase-target l.state e)

-- No sequence of events takes a process back to an earlier phase of its life.
pub phase-transitions :
    (l : Lifecycle) (es : List Event) → phase l.state ≤ phase (transitions l es).state
unfolding transitions
phase-transitions l [] = omega arith
phase-transitions l (e ∷ es) =
    omega (arith, phase-transition l e, phase-transitions (transition l e).0 es)

target-ne-initialized :
    (s : State) (e : Event) → s ≢ State.initialized → target s e ≢ State.initialized
unfolding target
target-ne-initialized s e h k = ground arith

apply-ne-initialized :
    (l : Lifecycle) (c : Call)
    → l.state ≢ State.initialized
    → (apply l c).0.state ≢ State.initialized
unfolding apply init_lifecycle can_transition
apply-ne-initialized l initialize h = λ k. cc
apply-ne-initialized l (transition_on e) h = ground (arith, target-ne-initialized l.state e h)
apply-ne-initialized l request h = h
apply-ne-initialized l (fail code message) h = λ k. cc

-- What holds of the object behind a pointer, if there is one.
abbrev Behind : (Lifecycle → Type 0) → Option Lifecycle → Type 0
Behind P none = Unit
Behind P (some l) = P l

run-ne-initialized_from :
    (l : Lifecycle) (cs : List Call)
    → l.state ≢ State.initialized
    → Behind (λ m. m.state ≢ State.initialized) (run (some l) cs)
unfolding run call
run-ne-initialized_from l [] h = h
run-ne-initialized_from l (c ∷ cs) h =
    run-ne-initialized_from (apply l c).0 cs (apply-ne-initialized l c h)

-- No history of calls on an initialised lifecycle reaches the state INITIALIZED: the start goes
-- from INITIALIZING straight to RUNNING.
pub run-ne-initialized :
    (cs : List Call) (l : Lifecycle)
    → run (some init_lifecycle) cs ≡ some l
    → l.state ≢ State.initialized
unfolding init_lifecycle
run-ne-initialized cs l e =
    subst (Behind (λ m. m.state ≢ State.initialized)) e
      (run-ne-initialized_from init_lifecycle cs (λ k. cc))

run-append : (p : Option Lifecycle) (cs ds : List Call) → run p (cs ++ ds) ≡ run (run p cs) ds
unfolding run
run-append p [] ds = refl
run-append p (c ∷ cs) ds = run-append (call p c).0 cs ds

abbrev IsRequested : Option Lifecycle → Type 0
IsRequested = Behind (λ l. l.shutdown_requested ≡ true)

-- A call other than `ShroomLifecycleInit`.
abbrev pub KeepsRequest : Call → Type 0
KeepsRequest c = c ≢ initialize

call-IsRequested :
    (p : Option Lifecycle) (c : Call) → KeepsRequest c → IsRequested p → IsRequested (call p c).0
unfolding call apply can_transition
call-IsRequested none initialize k h = tt
call-IsRequested (some l) initialize k h = absurd (k refl)
call-IsRequested none (transition_on e) k h = tt
call-IsRequested none request k h = tt
call-IsRequested none (fail code message) k h = tt
call-IsRequested (some l) (transition_on e) k h = ground arith
call-IsRequested (some l) request k h = refl
call-IsRequested (some l) (fail code message) k h = h

run-IsRequested :
    (p : Option Lifecycle) (cs : List Call)
    → All KeepsRequest cs
    → IsRequested p
    → IsRequested (run p cs)
unfolding run
run-IsRequested p [] k h = h
run-IsRequested p (c ∷ cs) k h = run-IsRequested (call p c).0 cs k.1 (call-IsRequested p c k.0 h)

IsRequested-answer : (p : Option Lifecycle) → IsRequested p → is_shutdown_requested_at p ≡ true
unfolding is_shutdown_requested_at
IsRequested-answer none h = refl
IsRequested-answer (some l) h = rw h

request-IsRequested : (p : Option Lifecycle) → IsRequested (call p request).0
unfolding call apply
request-IsRequested none = tt
request-IsRequested (some l) = refl

-- A request to shut down is not lost: whatever calls come before it, and through any pointer, the
-- lifecycle answers after it, and after any further calls that do not initialise it again, that a
-- shutdown is requested.
pub request_stays :
    (p : Option Lifecycle) (before after : List Call)
    → All KeepsRequest after
    → is_shutdown_requested_at (run p (before ++ request ∷ after)) ≡ true
unfolding run
request_stays p before after kept = rw (run-append p before (request ∷ after)) (
    IsRequested-answer _ (
      run-IsRequested (call (run p before) request).0 after kept
        (request-IsRequested (run p before))))
