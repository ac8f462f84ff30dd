-- ===== src/Tests/Circuit.antt =====
-- src/circuit.rs on concrete calls.
use xfiles.Prelude.{◌≡◌, refl, true, false, some, List, [], ◌∷◌, arith, All, Text, text_eq, codes}
use xfiles.Prelude.Maps.{get, insert, modify}
use xfiles.Prelude.Texts.{text_beq}
use xfiles.Prelude.Time.{from_secs, Nanos}
use xfiles.Circuit.{
  CircuitBreaker, CircuitOp, allows, succeeds, fails, opened, half_open, new, entry, allow,
  record_failure, record_success, get_state, step, run,
}
use xfiles.Circuit.Invariant.{IsSound, run-new-IsSound}
use xfiles.Circuit.Traces.{answer, answers, opened_refuses, half_open_stuck}
use xfiles.Circuit.Trip.{failures_at, calls_at, count_true, failures_trip, recovery_budget}

abbrev ep : Text
ep = codes "ep-a"

abbrev other : Text
other = codes "ep-b"

-- Two failures open the circuit, and it recovers by one success after the timeout.
abbrev calls : List (Nanos × CircuitOp)
calls =
    (1, fails ep)
    ∷ (2, fails ep)
    ∷ (3, allows ep)
    ∷ (from_secs 40, allows ep)
    ∷ (from_secs 41, succeeds ep)
    ∷ (from_secs 42, allows ep)
    ∷ []

recovers : answers (new 2 30 1) ep calls ≡ false ∷ true ∷ true ∷ []
unfolding answers answer new allow step record_failure record_success entry get insert modify
    text_beq
recovers = refl

run-new-IsSound_example : IsSound (run (new 2 30 1) calls)
run-new-IsSound_example = run-new-IsSound 2 30 1 calls (omega arith) (omega arith)

failures_trip_example : get_state (run (new 2 30 1) (failures_at ep (1 ∷ 2 ∷ []))) ep ≡ opened
failures_trip_example = failures_trip 2 30 1 ep (1 ∷ 2 ∷ []) (omega arith)

abbrev tripped : CircuitBreaker
tripped = record {
  state =
      (ep, record { state = opened; failures = 2; last_failure = some 2; half_open_calls = 0 })
      ∷ [];
  failure_threshold = 2;
  recovery_timeout = from_secs 30;
  half_open_max_calls = 1;
}

abbrev probing : CircuitBreaker
probing = record tripped {
  state =
      (ep, record { state = half_open; failures = 2; last_failure = some 2; half_open_calls = 1 })
      ∷ [];
}

abbrev early : List (Nanos × CircuitOp)
early = (5, allows ep) ∷ (6, fails other) ∷ (from_secs 20, allows ep) ∷ []

opened_refuses_example :
    All (λ b. b ≡ false) (answers tripped ep early) × (get_state (run tripped early) ep ≡ opened)
unfolding entry get text_beq
opened_refuses_example = opened_refuses tripped ep 2 early refl refl (omega arith)

abbrev late : List (Nanos × CircuitOp)
late = (from_secs 1_000_000, allows ep) ∷ []

half_open_stuck_example :
    All (λ b. b ≡ false) (answers probing ep late) × (get_state (run probing late) ep ≡ half_open)
unfolding entry get text_beq
half_open_stuck_example = half_open_stuck probing ep late refl (omega arith) (tt, tt)

recovery_budget_example :
    count_true (answers tripped ep (calls_at ep (from_secs 40 ∷ from_secs 41 ∷ []))) ≡ 1
unfolding entry get text_beq
recovery_budget_example =
    recovery_budget tripped ep 2 (from_secs 40 ∷ from_secs 41 ∷ []) refl refl (omega arith)
      (omega arith)
