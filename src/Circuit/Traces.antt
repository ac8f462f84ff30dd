-- ===== src/Circuit/Traces.antt =====
-- src/circuit.rs: what a caller sees of one endpoint's circuit over a sequence of calls.
use xfiles.Prelude.{
  ◌+◌, ◌≤◌, ◌<◌, ◌≡◌, ◌≢◌, refl, ap, ◌∙◌, subst, Bool, false, some, List, [], ◌∷◌, ◌++◌, arith,
  if◌then◌else◌, ◌==◌, eq_iff, Text, text_eq, Bool-cases, inl, inr, All, All-append,
}
use xfiles.Prelude.Time.{Nanos}
use xfiles.Circuit.{
  CircuitBreaker, EndpointCircuit, CircuitOp, allows, succeeds, fails, opened, half_open, entry,
  admit, allow, succeed, fail, step, run, get_state,
}
use xfiles.Circuit.Entries.{
  target, outcome, entry-step, SameSettings, step_settings, get_state-entry,
}

-- The answers that `allow` gives for an endpoint along the calls.
unfoldable pub answer : CircuitBreaker → Text → Nanos × CircuitOp → List Bool
answer c id (now, allows j) = if j == id then (allow c now j).1 ∷ [] else []
answer c id (now, succeeds j) = []
answer c id (now, fails j) = []

unfoldable pub answers : CircuitBreaker → Text → List (Nanos × CircuitOp) → List Bool
answers c id [] = []
answers c id (o ∷ os) = answer c id o ++ answers (step c o) id os

pub SameSettings-trans :
    {c d f : CircuitBreaker} → SameSettings c d → SameSettings d f → SameSettings c f
SameSettings-trans s t = ground arith

pub SameSettings-refl : (c : CircuitBreaker) → SameSettings c c
SameSettings-refl c = ground arith

-- Only the settings of the breaker matter to the circuit of one endpoint.
pub outcome-settings :
    (c d : CircuitBreaker) (now : Nanos) (op : CircuitOp) (e : EndpointCircuit)
    → SameSettings c d
    → outcome d now op e ≡ outcome c now op e
unfolding admit fail
outcome-settings c d now (allows id) e s = ground arith
outcome-settings c d now (succeeds id) e s = refl
outcome-settings c d now (fails id) e s = ground arith

admit_answer-settings :
    (c d : CircuitBreaker) (now : Nanos) (e : EndpointCircuit)
    → SameSettings c d
    → (admit d now e).1 ≡ (admit c now e).1
unfolding admit
admit_answer-settings c d now e s = ground arith

pub allow_answer :
    (c : CircuitBreaker) (now : Nanos) (id : Text)
    → (allow c now id).1 ≡ (admit c now (entry c id)).1
unfolding allow
allow_answer c now id = refl

-- A property of the circuit that the calls keep, and under which `allow` refuses.
module _ (c₀ : CircuitBreaker) (id : Text) (P : EndpointCircuit → Type 0)
    (Fits : Nanos × CircuitOp → Type 0)
    (keep : (now : Nanos) (op : CircuitOp) (e : EndpointCircuit)
      → Fits (now, op)
      → target op ≡ id
      → P e
      → P (outcome c₀ now op e))
    (refuse : (now : Nanos) (e : EndpointCircuit)
      → Fits (now, allows id)
      → P e
      → (admit c₀ now e).1 ≡ false) where
  keep_step :
      (c : CircuitBreaker) (now : Nanos) (op : CircuitOp)
      → SameSettings c₀ c
      → Fits (now, op)
      → P (entry c id)
      → P (entry (step c (now, op)) id)
  keep_step c now op s f p = rw (entry-step c now op id) (elim (Bool-cases (target op == id)) [
    | inl e ↦ rw e (
        rw (outcome-settings c₀ c now op (entry c id) s)
          (keep now op (entry c id) f ((eq_iff (target op) id).0 e) p))
    | inr e ↦ rw e p
  ])

  refuse_step :
      (c : CircuitBreaker) (now : Nanos) (op : CircuitOp)
      → SameSettings c₀ c
      → Fits (now, op)
      → P (entry c id)
      → All (λ b. b ≡ false) (answer c id (now, op))
  unfolding answer
  refuse_step c now (allows j) s f p = elim (Bool-cases (j == id)) [
    | inl e ↦
        let q = (eq_iff j id).0 e in
        rw e (
          ap (λ k. (allow c now k).1) q
              ∙ allow_answer c now id
              ∙ admit_answer-settings c₀ c now (entry c id) s
              ∙ refuse now (entry c id) (subst (λ k. Fits (now, allows k)) q f) p,
          tt,
        )
    | inr e ↦ rw e tt
  ]
  refuse_step c now (succeeds j) s f p = tt
  refuse_step c now (fails j) s f p = tt

  refused :
      (c : CircuitBreaker) (os : List (Nanos × CircuitOp))
      → SameSettings c₀ c
      → All Fits os
      → P (entry c id)
      → All (λ b. b ≡ false) (answers c id os) × P (entry (run c os) id)
  unfolding answers run
  refused c [] s f p = (tt, p)
  refused c ((now, op) ∷ os) s f p =
      let (rest, end) =
        refused (step c (now, op)) os (SameSettings-trans s (step_settings c now op)) f.1
          (keep_step c now op s f.0 p) in
      (All-append _ (answer c id (now, op)) _ (refuse_step c now op s f.0 p) rest, end)

-- A call within the recovery timeout of time `t`, by a clock that does not go back.
abbrev pub Within : CircuitBreaker → Nanos → Nanos × CircuitOp → Type 0
Within c t o = (t ≤ o.0) × (o.0 < t + c.recovery_timeout)

-- Open, with the last failure at `t` or later.
abbrev OpenSince : Nanos → EndpointCircuit → Type 0
OpenSince t e = (e.state ≡ opened) × (last : Nanos) × (e.last_failure ≡ some last) × (t ≤ last)

OpenSince-outcome :
    (c : CircuitBreaker) (t now : Nanos) (op : CircuitOp) (e : EndpointCircuit)
    → Within c t (now, op)
    → OpenSince t e
    → OpenSince t (outcome c now op e)
unfolding admit succeed fail
OpenSince-outcome c t now (allows id) e w (o, last, l, h) = (ground arith, last, ground arith, h)
OpenSince-outcome c t now (succeeds id) e w (o, last, l, h) = (ground arith, last, ground arith, h)
OpenSince-outcome c t now (fails id) e w (o, last, l, h) = (ground arith, now, ground arith, w.0)

OpenSince-admit :
    (c : CircuitBreaker) (t now : Nanos) (id : Text) (e : EndpointCircuit)
    → Within c t (now, allows id)
    → OpenSince t e
    → (admit c now e).1 ≡ false
unfolding admit
OpenSince-admit c t now id e w (o, last, l, h) = ground arith

-- An endpoint whose circuit opened at time `t` is refused by every `allow` at the times from `t` to
-- before `t` plus the recovery timeout, whatever else is called on the breaker meanwhile, and its
-- circuit is still open afterwards.
pub opened_refuses :
    (c : CircuitBreaker) (id : Text) (t : Nanos) (os : List (Nanos × CircuitOp))
    → (entry c id).state ≡ opened
    → (entry c id).last_failure ≡ some t
    → All (Within c t) os
    → All (λ b. b ≡ false) (answers c id os) × (get_state (run c os) id ≡ opened)
opened_refuses c id t os o l w =
    let (refusals, end) =
      refused c id (OpenSince t) (Within c t) (λ now op e f _ p. OpenSince-outcome c t now op e f p)
        (λ now e f p. OpenSince-admit c t now id e f p) c os (SameSettings-refl c) w
        (o, t, l, omega arith) in
    (refusals, get_state-entry (run c os) id ∙ end.0)

-- A call that reports no outcome of the endpoint.
abbrev pub NoOutcome : Text → Nanos × CircuitOp → Type 0
NoOutcome id (now, allows j) = Unit
NoOutcome id (now, succeeds j) = j ≢ id
NoOutcome id (now, fails j) = j ≢ id

-- Half-open, with all its calls given away.
abbrev IsSpent : CircuitBreaker → EndpointCircuit → Type 0
IsSpent c e = (e.state ≡ half_open) × (c.half_open_max_calls ≤ e.half_open_calls)

IsSpent-outcome :
    (c : CircuitBreaker) (id : Text) (now : Nanos) (op : CircuitOp) (e : EndpointCircuit)
    → NoOutcome id (now, op)
    → target op ≡ id
    → IsSpent c e
    → IsSpent c (outcome c now op e)
unfolding admit
IsSpent-outcome c id now (allows j) e f q p = ground arith
IsSpent-outcome c id now (succeeds j) e f q p = absurd (f q)
IsSpent-outcome c id now (fails j) e f q p = absurd (f q)

IsSpent-admit :
    (c : CircuitBreaker) (now : Nanos) (e : EndpointCircuit)
    → IsSpent c e
    → (admit c now e).1 ≡ false
unfolding admit
IsSpent-admit c now e p = ground arith

-- A half-open circuit that has let through `half_open_max_calls` calls stays half-open and refuses
-- every later call, at any time, until an outcome of its endpoint is recorded: no timeout frees it.
pub half_open_stuck :
    (c : CircuitBreaker) (id : Text) (os : List (Nanos × CircuitOp))
    → (entry c id).state ≡ half_open
    → c.half_open_max_calls ≤ (entry c id).half_open_calls
    → All (NoOutcome id) os
    → All (λ b. b ≡ false) (answers c id os) × (get_state (run c os) id ≡ half_open)
half_open_stuck c id os h k w =
    let (refusals, end) =
      refused c id (IsSpent c) (NoOutcome id)
        (λ now op e f q p. IsSpent-outcome c id now op e f q p)
        (λ now e f p. IsSpent-admit c now e p) c os (SameSettings-refl c) w (h, k) in
    (refusals, get_state-entry (run c os) id ∙ end.0)
