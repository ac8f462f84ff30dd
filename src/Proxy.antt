-- ===== src/Proxy.antt =====
-- src/proxy.rs: the proxy for chat completions. The HTTP client and the JSON library are an interface;
-- the clocks, the random numbers and the random ids of a request are arguments.
pub mod Choice
pub mod Stream
use xfiles.Prelude.{
  ℕ, ◌⊎◌, inl, inr, Bool, true, false, not, ◌&&◌, Option, none, some, List, [], ◌∷◌, ◌++◌, map,
  first, is_empty, leb, ltb, filter, if◌then◌else◌, Text, text_eq, codes, Map,
}
use xfiles.Prelude.Maps.{get}
use xfiles.Prelude.Texts.{trim_end_slashes}
use xfiles.Prelude.Time.{Nanos}
use xfiles.Message.{Opaque, Message, Uuid, new as new_message}
use xfiles.Floats.{Floats, Random}
use xfiles.Circuit.{CircuitBreaker, allow, record_success, record_failure}
use xfiles.Quantum.Router.{QuantumRouter, route, observe}
use xfiles.Ai.Endpoints.{AiEndpoint, display, HealthStatus, healthy, degraded, offline}

pub record ChatMessage : Type 0 where
  pub role : Text
  pub content : Text
  pub name : Option Text

pub record ChatCompletionRequest (x : Opaque) : Type 0 where
  pub model : Text
  pub messages : List ChatMessage
  pub stream : Bool
  pub temperature : Option x.F32
  pub max_tokens : Option ℕ
  pub tools : Option (List x.Value)
  pub extra : x.Value

-- The POST of a text with headers gives an error or a status with the body as it decodes.
pub record Upstream (x : Opaque) : Type 0 where
  pub post : Text → Map Text Text → Text → Text ⊎ (ℕ × (Text ⊎ x.Value))
  pub to_string : ChatCompletionRequest x → Text
  pub to_value : ChatCompletionRequest x → x.Value
  pub null : x.Value
  pub with_text : x.Value → Text → Text → x.Value  -- `insert` on an object, nothing on other values
  pub with_nat : x.Value → Text → ℕ → x.Value

abbrev pub is_offline : HealthStatus → Bool
is_offline healthy = false
is_offline degraded = false
is_offline offline = true

abbrev pub is_success : ℕ → Bool
is_success status = leb 200 status && ltb status 300

abbrev pub health_name : HealthStatus → Text
health_name healthy = codes "healthy"
health_name degraded = codes "degraded"
health_name offline = codes "offline"

-- `StatusCode::from_u16`, and 502 for no status.
abbrev pub status_of : ℕ → ℕ
status_of status = if leb 100 status && ltb status 1000 then status else 502

-- The state of `ObservingStream` besides the stream itself and the router, which is shared.
pub record ObservingStream : Type 0 where
  pub conversation_id : Uuid
  pub endpoint_id : Text
  pub observed : Bool
  pub success : Bool

pub data Answer (x : Opaque) : Type 0 where
  unavailable : Text → Answer x
  bad_gateway : Text → Answer x
  streamed : ℕ → ObservingStream → Answer x
  decoded : ℕ → x.Value → Answer x

abbrev pub no_endpoints : Text
no_endpoints = codes "no healthy AI endpoints available"

abbrev pub endpoint_gone : Text
endpoint_gone = codes "selected endpoint no longer exists"

-- What the inner stream gives to a poll.
pub data Poll : Type 0 where
  pending : Poll
  chunk : List ℕ → Poll
  failed : Text → Poll
  finished : Poll

-- The circuits, where there is a breaker.
unfoldable pub allow_in : Option CircuitBreaker → Nanos → Text → Option CircuitBreaker × Bool
allow_in none now id = (none, true)
allow_in (some c) now id = let (c', answer) = allow c now id in (some c', answer)

unfoldable pub record_in : Option CircuitBreaker → Nanos → Text → Bool → Option CircuitBreaker
record_in none now id success = none
record_in (some c) now id success =
    some (if success then record_success c id else record_failure c now id)

-- The test of the filter; the breaker is asked only about an endpoint that is not offline.
unfoldable pub is_candidate :
    {x : Opaque} → Option CircuitBreaker → Nanos → AiEndpoint x → Option CircuitBreaker × Bool
unfolding allow_in
is_candidate c now e = if is_offline e.health.status then (c, false) else allow_in c now e.id

unfoldable pub candidates :
    {x : Opaque}
    → Option CircuitBreaker
    → Nanos
    → Map Text (AiEndpoint x)
    → Option CircuitBreaker × List Text
unfolding is_candidate
candidates c now [] = (c, [])
candidates c now ((k, e) ∷ es) =
    let (c', ok) = is_candidate c now e in
    let (c'', ids) = candidates c' now es in (c'', if ok then e.id ∷ ids else ids)

module _ (fl : Floats) (rand : Random fl) where
  pub record ProxyState (x : Opaque) : Type 0 where
    pub endpoints : Map Text (AiEndpoint x)
    pub quantum : Option (QuantumRouter fl)
    pub default_model : Text
    pub model_aliases : Map Text Text
    pub circuit : Option CircuitBreaker

  -- When a request comes, when its outcome is known, and how many milliseconds that took.
  pub record Moment : Type 0 where
    pub instant : Nanos
    pub utc : Nanos
    pub rng : rand.Rng
    pub id : Uuid
    pub conversation_id : Uuid
    pub instant_after : Nanos
    pub utc_after : Nanos
    pub latency_ms : ℕ

  unfoldable pub resolve_model :
      {x : Opaque} → ProxyState x → ChatCompletionRequest x → ChatCompletionRequest x
  resolve_model {x = x} s req =
      let aliased : ChatCompletionRequest x = elim (get s.model_aliases req.model) [
        | none ↦ req
        | some model ↦ record req { model = model }
      ] in
      if is_empty req.model then record req { model = s.default_model } else aliased

  unfoldable pub choose :
      {x : Opaque}
      → Option (QuantumRouter fl)
      → Moment
      → Message x
      → List Text
      → Option (QuantumRouter fl) × Option Text
  choose none t msg ids = (none, first ids)
  choose (some q) t msg ids =
      let (q', selected) = route fl rand q t.utc t.rng msg ids in (some q', selected)

  unfoldable pub observe_in :
      Option (QuantumRouter fl) → Nanos → Uuid → Text → Bool → ℕ → Option (QuantumRouter fl)
  observe_in none now conversation_id endpoint_id success latency_ms = none
  observe_in (some q) now conversation_id endpoint_id success latency_ms =
      some (observe fl q now conversation_id endpoint_id success latency_ms).0

  -- The wrapper passes on what the stream gives.
  unfoldable pub observe_end :
      Option (QuantumRouter fl)
      → Nanos
      → ℕ
      → ObservingStream
      → Bool
      → Option (QuantumRouter fl) × ObservingStream
  observe_end q now latency_ms s success = if s.observed then (q, s) else (
    observe_in q now s.conversation_id s.endpoint_id success latency_ms,
    record s { observed = true },
  )

  unfoldable pub poll_next :
      Option (QuantumRouter fl)
      → Nanos
      → ℕ
      → ObservingStream
      → Poll
      → Option (QuantumRouter fl) × ObservingStream
  unfolding observe_end
  poll_next q now latency_ms s finished = observe_end q now latency_ms s s.success
  poll_next q now latency_ms s (failed e) = observe_end q now latency_ms s false
  poll_next q now latency_ms s (chunk bytes) = (q, s)
  poll_next q now latency_ms s pending = (q, s)

  module _ {x : Opaque} (up : Upstream x) where
    -- `Message::new(..).with_data(&req)`
    abbrev pub message_of : Moment → ChatCompletionRequest x → Message x
    message_of t req =
        record (new_message x t.id t.conversation_id t.utc up.null (codes "proxy")
          (codes "/ai/inference") (codes "llm_request")) { payload = up.to_value req }

    abbrev pub send : AiEndpoint x → ChatCompletionRequest x → Text ⊎ (ℕ × (Text ⊎ x.Value))
    send e req =
        up.post (trim_end_slashes e.url ++ codes "/v1/chat/completions") e.headers
          (up.to_string req)

    abbrev pub inject : AiEndpoint x → Text → ℕ → x.Value → x.Value
    inject e endpoint_id latency_ms json =
        up.with_nat
          (up.with_text (up.with_text json (codes "xfiles_routed_to") e.name)
            (codes "xfiles_endpoint_id") endpoint_id)
          (codes "xfiles_latency_ms") latency_ms

    abbrev pub buffered : AiEndpoint x → Text → ℕ → ℕ → Text ⊎ x.Value → Answer x
    buffered e endpoint_id latency_ms status (inl error) =
        bad_gateway (codes "failed to decode upstream response: " ++ error)
    buffered e endpoint_id latency_ms status (inr json) =
        decoded (status_of status) (inject e endpoint_id latency_ms json)

    -- The part of the handler after the answer of the endpoint.
    unfoldable pub respond :
        ProxyState x
        → Moment
        → ChatCompletionRequest x
        → Text
        → AiEndpoint x
        → ℕ
        → Text ⊎ x.Value
        → ProxyState x × Answer x
    unfolding observe_in
    respond s t req endpoint_id e status body =
        let success = is_success status in
        (
          record s {
            quantum =
                if req.stream
                then s.quantum
                else observe_in s.quantum t.utc_after t.conversation_id endpoint_id success
                    t.latency_ms;
            circuit = record_in s.circuit t.instant_after endpoint_id success;
          },
          if req.stream
              then streamed status (record {
                conversation_id = t.conversation_id;
                endpoint_id = endpoint_id;
                observed = false;
                success = success;
              })
              else buffered e endpoint_id t.latency_ms status body,
        )

    unfoldable pub forward :
        ProxyState x
        → Moment
        → ChatCompletionRequest x
        → Text
        → AiEndpoint x
        → ProxyState x × Answer x
    unfolding respond
    forward s t req endpoint_id e = elim (send e req) [
      | inl error ↦ (
        record s {
          quantum =
              observe_in s.quantum t.utc_after t.conversation_id endpoint_id false t.latency_ms;
          circuit = record_in s.circuit t.instant_after endpoint_id false;
        },
        bad_gateway (codes "upstream error: " ++ error),
      )
      | inr answer ↦ respond s t req endpoint_id e answer.0 answer.1
    ]

    unfoldable pub dispatch :
        ProxyState x → Moment → ChatCompletionRequest x → Option Text → ProxyState x × Answer x
    unfolding forward
    dispatch s t req none = (s, unavailable no_endpoints)
    dispatch s t req (some endpoint_id) = elim (get s.endpoints endpoint_id) [
      | none ↦ (s, unavailable endpoint_gone)
      | some e ↦ forward s t req endpoint_id e
    ]

    unfoldable pub chat_completions_handler :
        ProxyState x → Moment → ChatCompletionRequest x → ProxyState x × Answer x
    unfolding resolve_model candidates choose dispatch
    chat_completions_handler s t req =
        let req' = resolve_model s req in
        let (circuit', ids) = candidates s.circuit t.instant s.endpoints in
        let (quantum', selected) = choose s.quantum t (message_of t req') ids in
        dispatch (record s { circuit = circuit'; quantum = quantum' }) t req' selected

  -- GET /v1/models: the id, the owner, the url, the type and the health of each model.
  unfoldable pub list_models_handler :
      {x : Opaque} → ProxyState x → List (Text × Text × Text × Text × Text)
  list_models_handler s =
      map
        (λ e. (
          e.1.name ++ codes "/" ++ e.1.id,
          e.1.name,
          e.1.url,
          display e.1.endpoint_type,
          health_name e.1.health.status,
        ))
        (filter (λ e. not (is_offline e.1.health.status)) s.endpoints)
