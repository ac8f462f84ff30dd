-- ===== src/Ai/Probe/History.antt =====
-- src/ai/probe.rs: what a sequence of probes makes of an endpoint's health.
use xfiles.Prelude.{
  ℕ, ◌+◌, ◌<◌, ◌≤◌, ◌^◌, ◌≡◌, refl, Bool, true, false, Option, none, some, List, [], ◌∷◌, arith,
  length, leb, nat_beq, if◌then◌else◌,
}
use xfiles.Prelude.Time.{Nanos}
use xfiles.Ai.Endpoints.{HealthStatus, healthy, degraded, offline, EndpointHealth, default_health}
use xfiles.Ai.Probe.{Answer, success, failure_status, failed, judge, fail, recover}

-- A probe: when it came, its latency and its answer.
abbrev pub Probed : Type 0
Probed = Nanos × ℕ × Answer

abbrev pub is_success : Answer → Bool
is_success success = true
is_success _ = false

-- The health after some probes of a new endpoint; the latest stands first.
unfoldable pub history : Nanos → List Probed → EndpointHealth
history start [] = default_health start
history start ((now, latency, answer) ∷ ps) = judge now latency answer (history start ps)

-- The failures since the last success.
unfoldable pub streak : List Probed → ℕ
streak [] = 0
streak (p ∷ ps) = let rest = streak ps in if is_success p.2 then 0 else rest + 1

-- The time of the third of these failures.
unfoldable pub third_failure : List Probed → Option Nanos
unfolding streak
third_failure [] = none
third_failure (p ∷ ps) =
    let rest = third_failure ps in
    if is_success p.2 then none else if nat_beq (streak ps) 2 then some p.0 else rest

abbrev pub status_of : ℕ → HealthStatus
status_of n = if nat_beq n 0 then healthy else if leb 3 n then offline else degraded

streak-le : (ps : List Probed) → streak ps ≤ length ps
unfolding streak
streak-le [] = omega arith
streak-le (p ∷ ps) = ground (arith, streak-le ps)

-- After fewer than 2^32 probes of a new endpoint its count of failures is the number of failures since
-- the last success; it is healthy at none, degraded at one or two and offline from three on; and
-- `offline_since` is the time of the third of them.
pub history_lem :
    (start : Nanos) (ps : List Probed)
    → length ps < 2 ^ 32
    → ((history start ps).consecutive_failures ≡ streak ps)
      × ((history start ps).status ≡ status_of (streak ps))
      × ((history start ps).offline_since ≡ third_failure ps)
unfolding history streak third_failure judge fail recover
history_lem start [] h = (refl, refl, refl)
history_lem start ((now, latency, success) ∷ ps) h = (refl, refl, refl)
history_lem start ((now, latency, failure_status s) ∷ ps) h =
    ground (arith, streak-le ps, history_lem start ps (omega arith))
history_lem start ((now, latency, failed s) ∷ ps) h =
    ground (arith, streak-le ps, history_lem start ps (omega arith))
