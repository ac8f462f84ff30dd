-- ===== src/Discovery.antt =====
-- src/ai/discovery.rs: the endpoints that a scan of ports finds. What the network answers is an argument,
-- and the weight 1.0 too.
pub mod Scans
use xfiles.Prelude.{
  ℕ, ◌&&◌, Bool, false, not, Option, none, some, List, [], ◌∷◌, ◌++◌, contains, if◌then◌else◌, leb,
  ltb, Text, text_eq, codes, Map,
}
use xfiles.Prelude.Maps.{insert, contains_key, remove_where, keys}
use xfiles.Prelude.Numbers.{show_u16, contains_text}
use xfiles.Prelude.Time.{Nanos}
use xfiles.Message.{Opaque}
use xfiles.Ai.Endpoints.{AiEndpoint, EndpointType, router, inference, api, default_health}

abbrev pub auto_discovered : Text
auto_discovered = codes "auto-discovered"

abbrev pub docker : Text
docker = codes "docker"

-- The ports, searched for in the URL in this order.
unfoldable pub service_at : Text → Text × EndpointType
service_at url =
    if contains_text (codes ":8080") url
    then (codes "routage", router)
    else if contains_text (codes ":7777") url
    then (codes "merlin", router)
    else if contains_text (codes ":8000") url
    then (codes "local-ai", inference)
    else if contains_text (codes ":11434") url
    then (codes "ollama", inference)
    else if contains_text (codes ":3000") url
    then (codes "tensorzero", router)
    else (codes "unknown", api)

abbrev pub local : ℕ → Text
local port = codes "http://127.0.0.1:" ++ show_u16 port

-- A GET gives the status of the answer, if there is one.
module _ (fetch : Text → Option ℕ) where
  unfoldable pub answers : Text → Bool
  answers url = elim (fetch url) [ none ↦ false | some status ↦ leb 200 status && ltb status 300 ]

  unfoldable pub identify_service : Text → Option (Text × EndpointType)
  unfolding answers service_at
  identify_service url =
      if answers (url ++ codes "/health")
      then some (service_at url)
      else if answers (url ++ codes "/v1/health")
      then some (service_at url)
      else if answers (url ++ codes "/api/health")
      then some (service_at url)
      else none

module _ {x : Opaque} where
  -- `if !endpoints.contains_key(&id) { endpoints.insert(id, ep) }`
  unfoldable pub add_found :
      Map Text (AiEndpoint x) → Map Text (AiEndpoint x) → Map Text (AiEndpoint x)
  add_found endpoints [] = endpoints
  add_found endpoints ((id, ep) ∷ found) =
      add_found (if contains_key endpoints id then endpoints else insert endpoints id ep) found

  unfoldable pub is_stale : List Text → Text × AiEndpoint x → Bool
  is_stale found_ids e =
      contains e.1.tags auto_discovered
      && not (contains e.1.tags docker)
      && not (contains found_ids e.0)

  unfoldable pub prune_stale : Map Text (AiEndpoint x) → List Text → Map Text (AiEndpoint x)
  unfolding is_stale
  prune_stale endpoints found_ids = remove_where (is_stale found_ids) endpoints

module _ {x : Opaque} (one : x.F64) where
  -- The endpoint as a scan makes it.
  abbrev pub discovered : Text → Text → Text → EndpointType → List Text → Nanos → AiEndpoint x
  discovered id name url endpoint_type tags now = record {
    id = id;
    name = name;
    url = url;
    endpoint_type = endpoint_type;
    weight = one;
    tags = tags;
    headers = [];
    health = default_health now;
  }

  -- What the loop over the ports finds, the keys being `found_ids`.
  unfoldable pub found_at : (Text → Option ℕ) → Nanos → List ℕ → Map Text (AiEndpoint x)
  unfolding identify_service
  found_at fetch now [] = []
  found_at fetch now (port ∷ ports) = elim (identify_service fetch (local port)) [
    | none ↦ found_at fetch now ports
    | some service ↦
        let id = service.0 ++ codes "-" ++ show_u16 port in
        (id, discovered id service.0 (local port) service.1 (auto_discovered ∷ []) now)
        ∷ found_at fetch now ports
  ]

  unfoldable pub scan :
      (Text → Option ℕ) → Map Text (AiEndpoint x) → Nanos → List ℕ → Map Text (AiEndpoint x)
  unfolding add_found found_at prune_stale
  scan fetch endpoints now ports =
      let found = found_at fetch now ports in prune_stale (add_found endpoints found) (keys found)
