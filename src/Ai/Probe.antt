-- ===== src/Ai/Probe.antt =====
-- src/ai/probe.rs: one pass of probes and the removal of endpoints that stay offline. The answers of
-- the endpoints and the clock are arguments; between the probes of a pass nothing else writes.
pub mod History
pub mod Pruning
use xfiles.Prelude.{
  ℕ, ◌+◌, ◌%◌, ◌^◌, Bool, true, false, ◌&&◌, Option, none, some, List, [], ◌∷◌, ◌++◌, map, length,
  filter, leb, if◌then◌else◌, Text, text_eq, codes, Map,
}
use xfiles.Prelude.Maps.{get, modify, remove_where}
use xfiles.Prelude.Texts.{trim_end_slashes}
use xfiles.Prelude.Ints.{ℤ, ltb_ℤ}
use xfiles.Prelude.Time.{Nanos, num_seconds}
use xfiles.Message.{Opaque}
use xfiles.Ai.Endpoints.{HealthStatus, healthy, degraded, offline, EndpointHealth, AiEndpoint}

-- What the request for `/health` gives: a status that is a success, another status as it is displayed,
-- or the error's text.
pub data Answer : Type 0 where
  success : Answer
  failure_status : Text → Answer
  failed : Text → Answer

abbrev pub is_offline : HealthStatus → Bool
is_offline offline = true
is_offline _ = false

-- The branch for a failure, with the text of the error.
unfoldable pub fail : Nanos → Text → EndpointHealth → EndpointHealth
fail now text h =
    let failures = (h.consecutive_failures + 1) % 2 ^ 32 in
    if leb 3 failures
    then record h {
      consecutive_failures = failures;
      offline_since = if is_offline h.status then h.offline_since else some now;
      status = offline;
      last_error = some text;
    }
    else record h { consecutive_failures = failures; status = degraded; last_error = some text }

unfoldable pub recover : EndpointHealth → EndpointHealth
recover h = record h {
  consecutive_failures = 0;
  status = healthy;
  offline_since = none;
  last_error = none;
}

-- What a probe writes to an endpoint's health.
unfoldable pub judge : Nanos → ℕ → Answer → EndpointHealth → EndpointHealth
unfolding fail recover
judge now latency success h = recover (record h { last_checked = now; probe_latency_ms = latency })
judge now latency (failure_status s) h =
    fail now (codes "HTTP " ++ s) (record h { last_checked = now; probe_latency_ms = latency })
judge now latency (failed text) h =
    fail now text (record h { last_checked = now; probe_latency_ms = latency })

-- `unwrap_or`
abbrev pub or_else : Nanos → Option Nanos → Nanos
or_else t none = t
or_else t (some s) = s

module _ {x : Opaque} where
  -- `probe url` is the answer, the latency in milliseconds and the time at which it came.
  unfoldable pub probe_targets :
      (Text → Answer × ℕ × Nanos)
      → Map Text (AiEndpoint x)
      → List (Text × Text)
      → Map Text (AiEndpoint x)
  unfolding judge
  probe_targets probe endpoints [] = endpoints
  probe_targets probe endpoints ((id, url) ∷ targets) =
      let (answer, latency, now) = probe (trim_end_slashes url ++ codes "/health") in
      probe_targets probe
        (modify endpoints id (λ e. record e { health = judge now latency answer e.health })) targets

  unfoldable pub probe_all :
      (Text → Answer × ℕ × Nanos) → Map Text (AiEndpoint x) → Map Text (AiEndpoint x)
  probe_all probe endpoints = probe_targets probe endpoints (map (λ e. (e.0, e.1.url)) endpoints)

  unfoldable pub is_stale : Nanos → ℤ → AiEndpoint x → Bool
  is_stale now max_offline_secs e =
      is_offline e.health.status
      && ltb_ℤ max_offline_secs
          (num_seconds now (or_else e.health.last_checked e.health.offline_since))

  -- The endpoints that stay, and how many were removed.
  unfoldable pub prune_offline : Map Text (AiEndpoint x) → Nanos → ℤ → Map Text (AiEndpoint x) × ℕ
  prune_offline endpoints now max_offline_secs =
      let stale : Text × AiEndpoint x → Bool = λ e. is_stale now max_offline_secs e.1 in
      (remove_where stale endpoints, length (filter stale endpoints))
