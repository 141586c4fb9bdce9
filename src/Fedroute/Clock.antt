-- ===== src/Fedroute/Clock.antt =====
-- The registration clock of src/fedroute.rs: `FedState::tick` and `observe`.
use brew_server.Common.{ℕ, ◌+◌, ◌-◌, ◌^◌, ◌≤◌, ◌<◌, List, [], ◌∷◌, arith, min, max, All}
use brew_server.State.{FedState}

abbrev pub u64_max : ℕ
u64_max = 2 ^ 64 - 1

-- `saturating_add(1)`, and the wall clock in ms. The result is the new clock.
unfoldable pub tick : FedState → ℕ → FedState
tick fed now_ms = record fed { clock = max (min (fed.clock + 1) u64_max) now_ms }

unfoldable pub observe : FedState → ℕ → FedState
observe fed reg = record fed { clock = max fed.clock reg }

-- What moves the clock: a local registration at a time, or a remote one.
pub data Event : Type 0 where
  registers : ℕ → Event
  observes : ℕ → Event

unfoldable pub moves : FedState → Event → FedState
unfolding tick observe
moves fed (registers now_ms) = tick fed now_ms
moves fed (observes reg) = observe fed reg

unfoldable pub run : FedState → List Event → FedState
run fed [] = fed
run fed (e ∷ es) = run (moves fed e) es

-- The clock of the registration that an event makes or sees.
abbrev pub stamp : FedState → Event → ℕ
stamp fed (registers now_ms) = (tick fed now_ms).clock
stamp fed (observes reg) = reg

moves-le : (fed : FedState) (e : Event) → fed.clock ≤ u64_max → fed.clock ≤ (moves fed e).clock
unfolding moves
moves-le fed (registers now_ms) h = omega arith
moves-le fed (observes reg) h = omega arith

abbrev pub IsU64 : Event → Type 0
IsU64 (registers now_ms) = now_ms ≤ u64_max
IsU64 (observes reg) = reg ≤ u64_max

moves-u64 :
    (fed : FedState) (e : Event) → fed.clock ≤ u64_max → IsU64 e → (moves fed e).clock ≤ u64_max
unfolding moves
moves-u64 fed (registers now_ms) h i = omega arith
moves-u64 fed (observes reg) h i = omega arith

run-le :
    (fed : FedState) (es : List Event)
    → fed.clock ≤ u64_max
    → All IsU64 es
    → fed.clock ≤ (run fed es).clock
unfolding run
run-le fed [] h a = omega arith
run-le fed (e ∷ es) h a =
    omega (arith, moves-le fed e h, run-le (moves fed e) es (moves-u64 fed e h a.0) a.1)

stamp-le : (fed : FedState) (e : Event) → stamp fed e ≤ (moves fed e).clock
unfolding moves
stamp-le fed (registers now_ms) = omega arith
stamp-le fed (observes reg) = omega arith

-- A local registration gets a clock above that of every registration made or accepted before it,
-- whatever the wall clock says, until the clock reaches the end of u64.
pub tick_newest :
    (fed : FedState) (e : Event) (es : List Event) (now_ms : ℕ)
    → fed.clock ≤ u64_max
    → All IsU64 (e ∷ es)
    → (run fed (e ∷ es)).clock < u64_max
    → stamp fed e < (tick (run fed (e ∷ es)) now_ms).clock
unfolding run tick
tick_newest fed e es now_ms h a room =
    omega (arith, stamp-le fed e, run-le (moves fed e) es (moves-u64 fed e h a.0) a.1)
