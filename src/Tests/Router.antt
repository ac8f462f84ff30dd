-- ===== src/Tests/Router.antt =====
-- src/router.rs, src/mcp.rs and src/quantum on a small hub.
use xfiles.Prelude.{
  not, if◌then◌else◌, Map, refl, ℕ, ◌≡◌, ◌⊎◌, inr, true, not, none, some, List, [], ◌∷◌, In, filter,
  contains, if◌then◌else◌, ◌==◌, Text, text_eq, nat_eq, pair_eq, codes,
}
use xfiles.Prelude.Texts.{text_beq}
use xfiles.Prelude.Maps.{insert, get}
use xfiles.Prelude.Ints.{pos}
use xfiles.Plumber.{Plumber}
use xfiles.Mcp.{Json, McpRegistry, McpManifest, find_endpoint_for_tool, discover_and_index}
use xfiles.Mcp.Index.{first_provider, find_endpoint_for_tool-discover_and_index}
use xfiles.Quantum.Router.{QuantumRouter, route as route_by_weight}
use xfiles.Quantum.Router.Choice.{route_lem}
use xfiles.Quantum.Entanglement.{EntanglementTable}
use xfiles.Ai.Endpoints.{AiEndpoint}
use xfiles.Circuit.{CircuitBreaker, opened, allow, admit, entry}
use xfiles.Router.{retain, is_down, Shared, Moment, route, default_pipeline}
use xfiles.Router.Filter.{stays, retain_lem}
use xfiles.Router.Pipeline.{mcp_endpoint, offered, route-default_pipeline}
use xfiles.Tests.Samples.{opaque, prefixes, sample}
use xfiles.Tests.Floats.{thousandths, steady}
use xfiles.Tests.Limits.{store}

abbrev json : Json opaque
json = record { get = λ v k. some v; as_str = λ v. some v; null = codes "null" }

abbrev tools : McpRegistry opaque
tools = record { clients = (codes "ep-a", record { endpoint = store }) ∷ []; tool_index = [] }

-- The server has one tool, `grep`.
abbrev fetch : Text → Text ⊎ McpManifest opaque
fetch url = inr (record {
  tools = record { name = codes "grep"; description = []; input_schema = [] } ∷ [];
  resources = [];
  prompts = [];
})

find_endpoint_for_tool-discover_and_index_example :
    find_endpoint_for_tool (discover_and_index fetch tools) (codes "grep")
    ≡ first_provider fetch tools.clients (codes "grep")
find_endpoint_for_tool-discover_and_index_example =
    find_endpoint_for_tool-discover_and_index fetch tools (codes "grep")

abbrev quantum : QuantumRouter thousandths
quantum = record {
  state = record { conversations = [] };
  entanglement = record { correlations = [] };
  config = record {
    enabled = true;
    decoherence_rate = 10;
    exploration_rate = 100;
    entanglement_window = 300;
    min_samples_before_exploit = 5;
  };
  last_endpoint = [];
}

abbrev choices : List Text
choices = codes "ep-a" ∷ codes "ep-b" ∷ []

route_lem_example :
    ((choices ≡ [])
      × (route_by_weight thousandths steady quantum 5 0 sample choices ≡ (quantum, none)))
    ⊎ ((c : Text) × (q' : QuantumRouter thousandths) × (route_by_weight thousandths steady quantum 5
            0 sample choices
          ≡ (q', some c))
        × In c choices
        × ((id : ℕ)
            → get q'.last_endpoint id
              ≡ (if sample.conversation_id == id then some c else get quantum.last_endpoint id)))
route_lem_example = route_lem thousandths steady quantum 5 0 sample choices

abbrev conversation : ℕ
conversation = 7

abbrev pairs : EntanglementTable thousandths
pairs = record { correlations = [] }

abbrev plumber : Plumber prefixes
plumber = record {
  rules =
      record {
        name = codes "ai";
        pattern = codes "type:";
        destination = codes "ep-a";
        priority = pos 1;
        header_match = none;
      }
      ∷ [];
}

abbrev hub : Shared prefixes thousandths steady json
hub = record {
  circuit = record {
    state = [];
    failure_threshold = 5;
    recovery_timeout = 60;
    half_open_max_calls = 3;
  };
  quantum = quantum;
}

abbrev moment : Moment prefixes thousandths steady json
moment = record { instant = 5; utc = 5; rng = 0 }

route-default_pipeline_example :
    let stages = default_pipeline prefixes thousandths steady json tools plumber true true [] in
    let decision = (route prefixes thousandths steady json stages hub moment sample).1 in
    let (kept, rejected) =
      offered prefixes thousandths steady json plumber true [] hub moment sample in
    let valid = filter (λ c. not (contains rejected c)) kept in
    ((e : Text) × (mcp_endpoint prefixes thousandths steady json tools sample ≡ some e)
      × (decision.selected ≡ some e)
      × (decision.candidates ≡ []))
    ⊎ ((mcp_endpoint prefixes thousandths steady json tools sample ≡ none)
        × (decision.candidates ≡ kept)
        × (((valid ≡ []) × (decision.selected ≡ none))
            ⊎ ((c : Text) × (decision.selected ≡ some c) × In c valid)))
route-default_pipeline_example =
    route-default_pipeline prefixes thousandths steady json tools plumber true true [] hub moment
      sample

abbrev down : Map Text (AiEndpoint opaque)
down = (codes "ep-a", store) ∷ []

-- The circuit of `ep-b` has just tripped.
abbrev tripped : CircuitBreaker
tripped = record hub.circuit {
  state =
      (
        codes "ep-b",
        record { state = opened; failures = 5; last_failure = some 4; half_open_calls = 0 },
      )
      ∷ [];
}

abbrev three : List Text
three = codes "ep-a" ∷ codes "ep-b" ∷ codes "ep-c" ∷ []

retain_lem_example :
    let (circuit', kept, rejected) = retain prefixes thousandths steady json down 5 tripped three in
    let keeps = stays prefixes thousandths steady json down 5 tripped in
    (kept ≡ filter keeps three)
    × (rejected ≡ filter (λ id. not (keeps id)) three)
    × ((id : Text)
        → get circuit'.state id ≡ (
            if contains three id
            then get (allow tripped 5 id).0.state id
            else get tripped.state id))
unfolding text_beq
retain_lem_example =
    retain_lem prefixes thousandths steady json down 5 tripped three
      ((refl, (refl, tt)), ((refl, tt), (tt, tt)))

filters_three : (retain prefixes thousandths steady json down 5 tripped three).1 ≡ codes "ep-c" ∷ []
unfolding retain is_down allow admit entry get insert text_beq
filters_three = refl

filters : (retain prefixes thousandths steady json down 5 hub.circuit choices).1 ≡ codes "ep-b" ∷ []
unfolding retain is_down allow admit entry get insert text_beq
filters = refl
