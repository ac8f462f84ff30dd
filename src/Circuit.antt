-- ===== src/Circuit.antt =====
-- src/circuit.rs: the circuit breaker, one circuit for each endpoint. `Instant::now()` is the
-- argument `now`. The counters are `u32` and wrap, as in a release build.
pub mod Entries
pub mod Invariant
pub mod Traces
pub mod Trip
use xfiles.Prelude.{
  ℕ, ◌+◌, ◌%◌, ◌^◌, Bool, true, false, Option, none, some, List, [], ◌∷◌, map, ltb, leb,
  if◌then◌else◌, Text, text_eq, Map,
}
use xfiles.Prelude.Maps.{get, insert, modify}
use xfiles.Prelude.Time.{Nanos, from_secs, elapsed}

-- `Closed`, `Open` and `HalfOpen`
pub data CircuitState : Type 0 where
  closed opened half_open : CircuitState

pub record EndpointCircuit : Type 0 where
  pub state : CircuitState
  pub failures : ℕ
  pub last_failure : Option Nanos
  pub half_open_calls : ℕ

pub record CircuitBreaker : Type 0 where
  pub state : Map Text EndpointCircuit
  pub failure_threshold : ℕ
  pub recovery_timeout : Nanos
  pub half_open_max_calls : ℕ

-- `u32` arithmetic
abbrev pub u32 : ℕ → ℕ
u32 n = n % 2 ^ 32

-- `EndpointCircuit::default`
abbrev pub default_circuit : EndpointCircuit
default_circuit = record { state = closed; failures = 0; last_failure = none; half_open_calls = 0 }

-- `CircuitBreaker::new`
unfoldable pub new : ℕ → ℕ → ℕ → CircuitBreaker
new failure_threshold recovery_timeout_secs half_open_max_calls = record {
  state = [];
  failure_threshold = failure_threshold;
  recovery_timeout = from_secs recovery_timeout_secs;
  half_open_max_calls = half_open_max_calls;
}

abbrev pub or_default : Option EndpointCircuit → EndpointCircuit
or_default none = default_circuit
or_default (some e) = e

-- The circuit that `entry(id).or_default()` gives.
unfoldable pub entry : CircuitBreaker → Text → EndpointCircuit
entry c id = or_default (get c.state id)

-- The branch of `allow` for an open circuit.
after_timeout : Nanos → Nanos → Option Nanos → EndpointCircuit → EndpointCircuit × Bool
after_timeout timeout now none e = (e, false)
after_timeout timeout now (some last) e =
    if leb timeout (elapsed now last)
    then (record e { state = half_open; half_open_calls = 1 }, true)
    else (e, false)

-- The `match` of `allow`, on the circuit's state.
admit_in : CircuitState → CircuitBreaker → Nanos → EndpointCircuit → EndpointCircuit × Bool
unfolding after_timeout
admit_in closed c now e = (e, true)
admit_in opened c now e = after_timeout c.recovery_timeout now e.last_failure e
admit_in half_open c now e =
    if ltb e.half_open_calls c.half_open_max_calls
    then (record e { half_open_calls = u32 (e.half_open_calls + 1) }, true)
    else (e, false)

unfoldable pub admit : CircuitBreaker → Nanos → EndpointCircuit → EndpointCircuit × Bool
unfolding admit_in
admit c now e = admit_in e.state c now e

unfoldable pub allow : CircuitBreaker → Nanos → Text → CircuitBreaker × Bool
unfolding admit entry
allow c now id =
    let (e, answer) = admit c now (entry c id) in (record c { state = insert c.state id e }, answer)

-- The `match` of `record_success`.
succeed_in : CircuitState → EndpointCircuit → EndpointCircuit
succeed_in half_open e = record e { state = closed; failures = 0; last_failure = none }
succeed_in closed e = record e { failures = 0 }
succeed_in opened e = e

unfoldable pub succeed : EndpointCircuit → EndpointCircuit
unfolding succeed_in
succeed e = succeed_in e.state e

unfoldable pub record_success : CircuitBreaker → Text → CircuitBreaker
unfolding succeed
record_success c id = record c { state = modify c.state id succeed }

abbrev is_half_open : CircuitState → Bool
is_half_open half_open = true
is_half_open _ = false

-- `record_failure` on the circuit itself.
unfoldable pub fail : CircuitBreaker → Nanos → EndpointCircuit → EndpointCircuit
fail c now e =
    let e' = record e { failures = u32 (e.failures + 1); last_failure = some now } in
    if is_half_open e'.state
    then record e' { state = opened }
    else if leb c.failure_threshold e'.failures
    then record e' { state = opened }
    else e'

unfoldable pub record_failure : CircuitBreaker → Nanos → Text → CircuitBreaker
unfolding fail entry
record_failure c now id = record c { state = insert c.state id (fail c now (entry c id)) }

unfoldable pub get_state : CircuitBreaker → Text → CircuitState
get_state c id = elim (get c.state id) [ none ↦ closed | some e ↦ e.state ]

unfoldable pub diagnostics : CircuitBreaker → List (Text × CircuitState × ℕ)
diagnostics c = map (λ e. (e.0, e.1.state, e.1.failures)) c.state

-- What a component does with the breaker, at a time.
pub data CircuitOp : Type 0 where
  allows succeeds fails : Text → CircuitOp

unfoldable pub step : CircuitBreaker → Nanos × CircuitOp → CircuitBreaker
step c (now, allows id) = (allow c now id).0
step c (now, succeeds id) = record_success c id
step c (now, fails id) = record_failure c now id

unfoldable pub run : CircuitBreaker → List (Nanos × CircuitOp) → CircuitBreaker
run c [] = c
run c (o ∷ os) = run (step c o) os
