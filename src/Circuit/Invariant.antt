-- ===== src/Circuit/Invariant.antt =====
-- src/circuit.rs: what holds of every circuit between two calls.
use xfiles.Prelude.{
  ℕ, ◌^◌, ◌≤◌, ◌<◌, ◌≡◌, ◌≢◌, none, List, [], ◌∷◌, arith, max, ◌==◌, Text, text_eq, Bool-cases, inl,
  inr,
}
use xfiles.Prelude.Maps.{get}
use xfiles.Prelude.Time.{Nanos}
use xfiles.Circuit.{
  CircuitBreaker, EndpointCircuit, CircuitOp, allows, succeeds, fails, closed, opened, half_open,
  new, entry, admit, succeed, fail, step, run,
}
use xfiles.Circuit.Entries.{target, outcome, entry-step, SameSettings, step_settings}

-- The settings are `u32`.
pub record IsConfigured (c : CircuitBreaker) : Type 0 where
  pub threshold_fits : c.failure_threshold < 2 ^ 32
  pub max_calls_fits : c.half_open_max_calls < 2 ^ 32

-- An open circuit knows when it last failed, a half-open one has let through at least one call and
-- no more than it may, and a closed one has failed less often than the threshold.
pub record Inv (c : CircuitBreaker) (e : EndpointCircuit) : Type 0 where
  pub opened_dated : e.state ≡ opened → e.last_failure ≢ none
  pub probing : e.state ≡ half_open → 0 < e.half_open_calls
  pub probes_bounded : e.state ≡ half_open → e.half_open_calls ≤ max 1 c.half_open_max_calls
  pub closed_below : e.state ≡ closed → e.failures < max 1 c.failure_threshold

admit-Inv :
    (c : CircuitBreaker) (now : Nanos) (e : EndpointCircuit)
    → IsConfigured c
    → Inv c e
    → Inv c (admit c now e).0
unfolding admit
admit-Inv c now e s v = ground arith

succeed-Inv : (c : CircuitBreaker) (e : EndpointCircuit) → Inv c e → Inv c (succeed e)
unfolding succeed
succeed-Inv c e v = ground arith

fail-Inv :
    (c : CircuitBreaker) (now : Nanos) (e : EndpointCircuit)
    → IsConfigured c
    → Inv c e
    → Inv c (fail c now e)
unfolding fail
fail-Inv c now e s v = ground arith

outcome-Inv :
    (c : CircuitBreaker) (now : Nanos) (op : CircuitOp) (e : EndpointCircuit)
    → IsConfigured c
    → Inv c e
    → Inv c (outcome c now op e)
outcome-Inv c now (allows id) e s v = admit-Inv c now e s v
outcome-Inv c now (succeeds id) e s v = succeed-Inv c e v
outcome-Inv c now (fails id) e s v = fail-Inv c now e s v

-- The invariant at every endpoint.
pub record IsSound (c : CircuitBreaker) : Type 0 where
  pub configured : IsConfigured c
  pub circuits : (id : Text) → Inv c (entry c id)

Inv-settings : (c d : CircuitBreaker) (e : EndpointCircuit) → SameSettings c d → Inv c e → Inv d e
Inv-settings c d e s v = ground arith

step-circuits :
    (c : CircuitBreaker) (now : Nanos) (op : CircuitOp) (id : Text)
    → IsConfigured c
    → Inv c (entry c id)
    → Inv c (entry (step c (now, op)) id)
step-circuits c now op id s v = rw (entry-step c now op id) (elim (Bool-cases (target op == id)) [
  | inl e ↦ rw e (outcome-Inv c now op (entry c id) s v)
  | inr e ↦ rw e v
])

pub step-IsSound :
    (c : CircuitBreaker) (now : Nanos) (op : CircuitOp) → IsSound c → IsSound (step c (now, op))
step-IsSound c now op s =
    let same = step_settings c now op in
    record {
      configured = ground (arith, s.configured);
      circuits =
          λ id. Inv-settings c _ _ same (step-circuits c now op id s.configured (s.circuits id));
    }

run-IsSound : (c : CircuitBreaker) (os : List (Nanos × CircuitOp)) → IsSound c → IsSound (run c os)
unfolding run
run-IsSound c [] s = s
run-IsSound c ((now, op) ∷ os) s = run-IsSound (step c (now, op)) os (step-IsSound c now op s)

new-IsSound :
    (threshold timeout_secs max_calls : ℕ)
    → threshold < 2 ^ 32
    → max_calls < 2 ^ 32
    → IsSound (new threshold timeout_secs max_calls)
unfolding new entry get
new-IsSound threshold timeout_secs max_calls h k = record {
  configured = ground arith;
  circuits = λ id. ground arith;
}

-- After any calls at any times, on a breaker made with u32 settings, each circuit satisfies `Inv`:
-- an open circuit has the time of a failure, a half-open one has let through at least one call and
-- at most `max 1 half_open_max_calls`, and a closed one counts fewer failures than
-- `max 1 failure_threshold`.
pub run-new-IsSound :
    (threshold timeout_secs max_calls : ℕ) (os : List (Nanos × CircuitOp))
    → threshold < 2 ^ 32
    → max_calls < 2 ^ 32
    → IsSound (run (new threshold timeout_secs max_calls) os)
run-new-IsSound threshold timeout_secs max_calls os h k =
    run-IsSound _ os (new-IsSound threshold timeout_secs max_calls h k)
