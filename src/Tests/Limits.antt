-- ===== src/Tests/Limits.antt =====
-- src/ratelimit.rs, src/agent.rs and src/ai on small tables.
use xfiles.Prelude.{
  ℕ, ◌+◌, ◌-◌, ◌*◌, ◌/◌, ◌≤◌, ◌≡◌, refl, none, some, List, [], ◌∷◌, arith, if◌then◌else◌, Text,
  text_eq, codes,
}
use xfiles.Prelude.Maps.{IsMap, get as get_entry}
use xfiles.Prelude.Ints.{pos}
use xfiles.Prelude.Time.{Nanos, from_secs}
use xfiles.RateLimit.{RateLimiter, new}
use xfiles.RateLimit.Budget.{admitted, instants, burst}
use xfiles.RateLimit.Capped.{checks}
use xfiles.RateLimit.Rate.{admitted-checks}
use xfiles.Agent.{Agent, AgentRegistry}
use xfiles.Ai.Endpoints.{AiEndpoint, memory, default_health, offline}
use xfiles.Ai.Probe.{failed, success, failure_status, prune_offline}
use xfiles.Ai.Probe.History.{Probed, history, streak, third_failure, status_of, history_lem}
use xfiles.Ai.Probe.Pruning.{has_expired, get-prune_offline}
use xfiles.Tests.Samples.{opaque}

-- The refill, with whole numbers.
abbrev refill : Nanos → Nanos → ℕ → ℕ
refill elapsed window most = elapsed * most / window

abbrev client : Text
client = codes "10.0.0.1:4000"

-- Two requests a second, after a burst of three and a pause: what is let through in the second that starts
-- five seconds later.
abbrev before : List (Text × Nanos)
before = (client, 0) ∷ (client, 1) ∷ (client, 2) ∷ []

admitted-checks_example :
    admitted refill
        (checks refill (new 2 1) before)
        client
        (from_secs 5 ∷ from_secs 5 ∷ from_secs 5 ∷ from_secs 6 ∷ [])
      * from_secs 1
    ≤ 2 * from_secs 1 + (from_secs 1 + (from_secs 6 - from_secs 5)) * 2
unfolding new
admitted-checks_example =
    admitted-checks refill 2 (from_secs 1) (from_secs 1) 2 1 before client (from_secs 5)
      (from_secs 6) (from_secs 5 ∷ from_secs 5 ∷ from_secs 6 ∷ []) (omega arith) (λ d. omega arith)
      (λ d h. omega arith) (omega arith) (omega arith)

abbrev fresh : RateLimiter
fresh = record { buckets = []; max_requests = 2; window_secs = 1 }

burst_example : admitted refill fresh client (instants 3 5) ≡ 2
unfolding get_entry
burst_example = burst refill fresh 5 client 3 refl refl

abbrev bob : Agent opaque ℕ
bob = record {
  id = codes "bob";
  uuid = 4;
  hostname = codes "h";
  namespace = codes "/net/bob";
  manifest = record {
    agent_id = codes "bob";
    hostname = codes "h";
    capabilities = [];
    preferred_namespace = none;
  };
  connected_at = 0;
  last_heartbeat = from_secs 10;
  tx = some 1;
}

abbrev agents : AgentRegistry opaque ℕ
agents = record { agents = (codes "bob", bob) ∷ [] }

abbrev probes : List Probed
probes =
    (9, 20, failed (codes "timeout"))
    ∷ (7, 20, failure_status (codes "503"))
    ∷ (5, 20, failed (codes "timeout"))
    ∷ (3, 20, success)
    ∷ []

history_lem_example :
    ((history 1 probes).consecutive_failures ≡ streak probes)
    × ((history 1 probes).status ≡ status_of (streak probes))
    × ((history 1 probes).offline_since ≡ third_failure probes)
history_lem_example = history_lem 1 probes (omega arith)

falls_offline : (streak probes ≡ 3) × (third_failure probes ≡ some 9)
unfolding streak third_failure
falls_offline = (refl, refl)

abbrev pub store : AiEndpoint opaque
store = record {
  id = codes "ep-a";
  name = codes "a";
  url = codes "http://a/";
  endpoint_type = memory;
  weight = 1;
  tags = [];
  headers = [];
  health = record (default_health 0) { status = offline; offline_since = some 9 };
}

get-prune_offline_example :
    (get_entry (prune_offline ((codes "ep-a", store) ∷ []) (from_secs 99) (pos 60)).0 (codes "ep-a")
      ≡ (elim (get_entry ((codes "ep-a", store) ∷ []) (codes "ep-a")) [
        | none ↦ none
        | some e ↦ if has_expired (from_secs 99) 60 e then none else some e
      ]))
    × IsMap (prune_offline ((codes "ep-a", store) ∷ []) (from_secs 99) (pos 60)).0
unfolding get_entry
get-prune_offline_example =
    get-prune_offline ((codes "ep-a", store) ∷ []) (from_secs 99) 60 (codes "ep-a") (refl, tt)
