-- ===== src/Circuit/Trip.antt =====
-- src/circuit.rs: how many failures open a circuit, and how many calls it lets through to recover.
use xfiles.Prelude.{
  ℕ, suc, ◌+◌, ◌-◌, ◌^◌, ◌≤◌, ◌<◌, ◌≡◌, ◌⊎◌, refl, ◌∙◌, Bool, true, false, some, List, [], ◌∷◌, map,
  arith, max, min, ltb, leb, if◌then◌else◌, eq_refl, Text, text_eq, Bool-cases, inl, inr, All,
  length,
}
use xfiles.Prelude.Time.{Nanos, elapsed}
use xfiles.Prelude.Maps.{get}
use xfiles.Circuit.{
  CircuitBreaker, EndpointCircuit, CircuitOp, allows, fails, closed, opened, half_open, new, entry,
  admit, fail, step, run, get_state,
}
use xfiles.Circuit.Entries.{entry-step, step_settings, get_state-entry}
use xfiles.Circuit.Traces.{answer, answers, allow_answer}

abbrev pub failures_at : Text → List Nanos → List (Nanos × CircuitOp)
failures_at id = map (λ t. (t, fails id))

abbrev pub calls_at : Text → List Nanos → List (Nanos × CircuitOp)
calls_at id = map (λ t. (t, allows id))

entry-fails :
    (c : CircuitBreaker) (t : Nanos) (id : Text)
    → entry (step c (t, fails id)) id ≡ fail c t (entry c id)
entry-fails c t id = entry-step c t (fails id) id ∙ simp (eq_refl {K = Text} id)

entry-allows :
    (c : CircuitBreaker) (t : Nanos) (id : Text)
    → entry (step c (t, allows id)) id ≡ (admit c t (entry c id)).0
entry-allows c t id = entry-step c t (allows id) id ∙ simp (eq_refl {K = Text} id)

fail_opened :
    (c : CircuitBreaker) (t : Nanos) (e : EndpointCircuit)
    → e.state ≡ opened
    → (fail c t e).state ≡ opened
unfolding fail
fail_opened c t e h = ground arith

fail_closed :
    (c : CircuitBreaker) (t : Nanos) (e : EndpointCircuit)
    → e.state ≡ closed
    → c.failure_threshold < 2 ^ 32
    → e.failures < max 1 c.failure_threshold
    → (((fail c t e).state ≡ closed)
        × ((fail c t e).failures ≡ e.failures + 1)
        × (e.failures + 1 < max 1 c.failure_threshold))
      ⊎ (((fail c t e).state ≡ opened) × (max 1 c.failure_threshold ≡ e.failures + 1))
unfolding fail
fail_closed c t e h k l = elim (Bool-cases (leb c.failure_threshold (e.failures + 1))) [
  | inl q ↦ inr (ground arith, ground arith)
  | inr q ↦ inl (ground arith, ground arith, ground arith)
]

opened-failures :
    (c : CircuitBreaker) (id : Text) (ts : List Nanos)
    → (entry c id).state ≡ opened
    → (entry (run c (failures_at id ts)) id).state ≡ opened
unfolding run
opened-failures c id [] h = h
opened-failures c id (t ∷ ts) h =
    opened-failures (step c (t, fails id)) id ts
      (rw (entry-fails c t id) (fail_opened c t (entry c id) h))

closed-failures :
    (threshold : ℕ) (c : CircuitBreaker) (id : Text) (ts : List Nanos)
    → c.failure_threshold ≡ threshold
    → (entry c id).state ≡ closed
    → threshold < 2 ^ 32
    → (entry c id).failures < max 1 threshold
    → (entry (run c (failures_at id ts)) id).state
      ≡ (if ltb ((entry c id).failures + length ts) (max 1 threshold) then closed else opened)
unfolding run
closed-failures threshold c id [] e h k l = ground arith
closed-failures threshold c id (t ∷ ts) e h k l =
    let c' = step c (t, fails id) in
    let same = step_settings c t (fails id) in
    elim (fail_closed c t (entry c id) h (ground arith) (ground arith)) [
      | inl (s, f, g) ↦
          ground
            (arith, entry-fails c t id, closed-failures threshold c' id ts (same.threshold ∙ e))
      | inr (s, m) ↦ ground (arith, entry-fails c t id, opened-failures c' id ts)
    ]

-- On a new breaker, after failures of one endpoint alone, at any times, the endpoint's circuit is
-- closed while there were fewer than `max 1 failure_threshold` of them, and open from then on.
pub failures_trip :
    (threshold timeout_secs max_calls : ℕ) (id : Text) (ts : List Nanos)
    → threshold < 2 ^ 32
    → get_state (run (new threshold timeout_secs max_calls) (failures_at id ts)) id
      ≡ (if ltb (length ts) (max 1 threshold) then closed else opened)
unfolding new entry get
failures_trip threshold timeout_secs max_calls id ts h =
    let c = new threshold timeout_secs max_calls in
    get_state-entry (run c (failures_at id ts)) id
    ∙ ground (arith, closed-failures threshold c id ts refl refl h (omega arith))

abbrev pub count_true : List Bool → ℕ
count_true [] = 0
count_true (true ∷ bs) = suc (count_true bs)
count_true (false ∷ bs) = count_true bs

answers-calls :
    (c : CircuitBreaker) (t : Nanos) (id : Text) (ts : List Nanos)
    → answers c id (calls_at id (t ∷ ts))
      ≡ (admit c t (entry c id)).1 ∷ answers (step c (t, allows id)) id (calls_at id ts)
unfolding answers answer
answers-calls c t id ts = rw (eq_refl {K = Text} id) (rw (allow_answer c t id) refl)

admit_half_open :
    (c : CircuitBreaker) (t : Nanos) (e : EndpointCircuit)
    → e.state ≡ half_open
    → c.half_open_max_calls < 2 ^ 32
    → ((e.half_open_calls < c.half_open_max_calls)
        × ((admit c t e).1 ≡ true)
        × ((admit c t e).0 ≡ record e { half_open_calls = e.half_open_calls + 1 }))
      ⊎ ((c.half_open_max_calls ≤ e.half_open_calls) × (admit c t e ≡ (e, false)))
unfolding admit
admit_half_open c t e h k = elim (Bool-cases (ltb e.half_open_calls c.half_open_max_calls)) [
  | inl q ↦ inl (ground arith, ground arith, ground arith)
  | inr q ↦ inr (ground arith, ground arith)
]

admit_timed_out :
    (c : CircuitBreaker) (t last : Nanos) (e : EndpointCircuit)
    → e.state ≡ opened
    → e.last_failure ≡ some last
    → c.recovery_timeout ≤ elapsed t last
    → admit c t e ≡ (record e { state = half_open; half_open_calls = 1 }, true)
unfolding admit
admit_timed_out c t last e h l k = ground arith

half_open-calls :
    (n : ℕ) (c : CircuitBreaker) (id : Text) (ts : List Nanos)
    → c.half_open_max_calls ≡ n
    → n < 2 ^ 32
    → (entry c id).state ≡ half_open
    → count_true (answers c id (calls_at id ts))
      ≡ min (length ts) (n - (entry c id).half_open_calls)
unfolding answers
half_open-calls n c id [] e k h = omega arith
half_open-calls n c id (t ∷ ts) e k h =
    let c' = step c (t, allows id) in
    let same = step_settings c t (allows id) in
    let rest = half_open-calls n c' id ts (same.max_calls ∙ e) k in
    elim (admit_half_open c t (entry c id) h (ground arith)) [
      | inl (l, a, q) ↦ ground (arith, answers-calls c t id ts, entry-allows c t id, rest)
      | inr (l, q) ↦ ground (arith, answers-calls c t id ts, entry-allows c t id, rest)
    ]

-- Once the recovery timeout of an open circuit is over, the calls that come before any outcome is
-- recorded are let through until `max 1 half_open_max_calls` of them have been, and refused after.
pub recovery_budget :
    (c : CircuitBreaker) (id : Text) (last : Nanos) (ts : List Nanos)
    → (entry c id).state ≡ opened
    → (entry c id).last_failure ≡ some last
    → c.half_open_max_calls < 2 ^ 32
    → All (λ t. c.recovery_timeout ≤ elapsed t last) ts
    → count_true (answers c id (calls_at id ts)) ≡ min (length ts) (max 1 c.half_open_max_calls)
unfolding answers
recovery_budget c id last [] o l k w = omega arith
recovery_budget c id last (t ∷ ts) o l k w =
    let same = step_settings c t (allows id) in
    ground (
      arith,
      answers-calls c t id ts,
      entry-allows c t id,
      admit_timed_out c t last (entry c id) o l w.0,
      half_open-calls c.half_open_max_calls (step c (t, allows id)) id ts same.max_calls k,
    )
