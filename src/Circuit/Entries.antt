-- ===== src/Circuit/Entries.antt =====
-- src/circuit.rs, one endpoint at a time: what each call does to the circuit of one endpoint.
use xfiles.Prelude.{◌≡◌, arith, if◌then◌else◌, ◌==◌, eq_iff, Text, text_eq}
use xfiles.Prelude.Maps.{get, get-insert, get-modify}
use xfiles.Prelude.Time.{Nanos}
use xfiles.Circuit.{
  CircuitBreaker, EndpointCircuit, CircuitOp, allows, succeeds, fails, or_default, entry, admit,
  allow, succeed, record_success, fail, record_failure, step, get_state,
}

abbrev pub target : CircuitOp → Text
target (allows id) = id
target (succeeds id) = id
target (fails id) = id

-- The call's effect on the circuit that it is about.
abbrev pub outcome : CircuitBreaker → Nanos → CircuitOp → EndpointCircuit → EndpointCircuit
outcome c now (allows id) e = (admit c now e).0
outcome c now (succeeds id) e = succeed e
outcome c now (fails id) e = fail c now e

entry-record_success :
    (c : CircuitBreaker) (id j : Text)
    → entry (record_success c id) j ≡ (if id == j then succeed (entry c j) else entry c j)
unfolding entry record_success
entry-record_success c id j = ground (arith, get-modify c.state id j succeed, eq_iff id j)

-- A call changes the circuit of its own endpoint and no other.
pub entry-step :
    (c : CircuitBreaker) (now : Nanos) (op : CircuitOp) (j : Text)
    → entry (step c (now, op)) j
      ≡ (if target op == j then outcome c now op (entry c j) else entry c j)
unfolding entry step allow record_failure
entry-step c now (allows id) j =
    ground
      (arith, eq_iff id j, get-insert c.state id j (admit c now (or_default (get c.state id))).0)
entry-step c now (succeeds id) j = entry-record_success c id j
entry-step c now (fails id) j =
    ground (arith, eq_iff id j, get-insert c.state id j (fail c now (or_default (get c.state id))))

-- The settings stay.
pub record SameSettings (c d : CircuitBreaker) : Type 0 where
  pub threshold : d.failure_threshold ≡ c.failure_threshold
  pub timeout : d.recovery_timeout ≡ c.recovery_timeout
  pub max_calls : d.half_open_max_calls ≡ c.half_open_max_calls

pub step_settings :
    (c : CircuitBreaker) (now : Nanos) (op : CircuitOp) → SameSettings c (step c (now, op))
unfolding step allow record_success record_failure
step_settings c now (allows id) = ground arith
step_settings c now (succeeds id) = ground arith
step_settings c now (fails id) = ground arith

pub get_state-entry : (c : CircuitBreaker) (id : Text) → get_state c id ≡ (entry c id).state
unfolding get_state entry
get_state-entry c id = ground arith
