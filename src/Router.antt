-- ===== src/Router.antt =====
-- src/router.rs: the pipeline that picks the destination of a message. The circuit breaker and the
-- quantum router are shared with the rest of the hub, so that a stage passes them on; the two clocks and
-- the random numbers are arguments.
pub mod Filter
pub mod Pipeline
use xfiles.Prelude.{
  ℕ, zero, suc, ◌+◌, ◌-◌, ◌/◌, ◌%◌, Bool, true, false, not, Option, none, some, List, [], ◌∷◌, ◌++◌,
  length, is_empty, filter, first, contains, ltb, if◌then◌else◌, ◌==◌, Text, text_eq, codes, Map,
}
use xfiles.Prelude.Maps.{get}
use xfiles.Prelude.Time.{Nanos}
use xfiles.Message.{Opaque, Message}
use xfiles.Floats.{Floats, Random}
use xfiles.Plumber.{Patterns, Plumber, route as route_by_rules}
use xfiles.Circuit.{CircuitBreaker, allow}
use xfiles.Quantum.Router.{QuantumRouter, route as route_by_weight}
use xfiles.Ai.Endpoints.{AiEndpoint}
use xfiles.Ai.Probe.{is_offline}
use xfiles.Mcp.{Json, McpRegistry, find_endpoint_for_tool, tool_of}

pub record RoutingDecision : Type 0 where
  pub selected : Option Text
  pub candidates : List Text
  pub explanation : Text

pub record RoutingContext : Type 0 where
  pub candidates : List Text
  pub selected : Option Text
  pub explanation : List Text
  pub rejected : List Text

abbrev pub new_context : List Text → RoutingContext
new_context candidates = record {
  candidates = candidates;
  selected = none;
  explanation = [];
  rejected = [];
}

-- `explanation.join("; ")`
abbrev pub join : List Text → Text
join [] = []
join (t ∷ []) = t
join (t ∷ u ∷ ts) = t ++ codes "; " ++ join (u ∷ ts)

abbrev pub into_decision : RoutingContext → RoutingDecision
into_decision ctx = record {
  selected = ctx.selected;
  candidates = ctx.candidates;
  explanation = join ctx.explanation;
}

-- The decimal digits of a number; fuel above the number is enough.
abbrev digits : ℕ → ℕ → Text → Text
digits zero n t = t
digits (suc fuel) n t =
    let t' = (0x30 + n % 10) ∷ t in
    let more = digits fuel (n / 10) t' in if ltb 9 n then more else t'

abbrev pub decimal : ℕ → Text
decimal n = digits (suc n) n []

abbrev pub explain : RoutingContext → Text → RoutingContext
explain ctx text = record ctx { explanation = ctx.explanation ++ text ∷ [] }

-- What a filter of the stages keeps.
unfoldable pub valid_candidates : RoutingContext → List Text
valid_candidates ctx = filter (λ c. not (contains ctx.rejected c)) ctx.candidates

module _ {x : Opaque} (re : Patterns x) (fl : Floats) (rand : Random fl) (json : Json x) where
  pub record Shared : Type 0 where
    pub circuit : CircuitBreaker
    pub quantum : QuantumRouter fl

  pub data RouterStage : Type 0 where
    mcp_routing : McpRegistry x → RouterStage
    plumber_routing : Plumber re → RouterStage
    quantum_routing : RouterStage
    fallback_routing : RouterStage
    circuit_aware : Map Text (AiEndpoint x) → RouterStage

  -- The clocks of the breaker and of the conversations, and the random numbers.
  pub record Moment : Type 0 where
    pub instant : Nanos
    pub utc : Nanos
    pub rng : rand.Rng

  apply_mcp : McpRegistry x → Message x → RoutingContext → RoutingContext × Bool
  apply_mcp mcp msg ctx =
      if msg.msg_type == codes "mcp_tool_call"
      then (elim (find_endpoint_for_tool mcp (tool_of json msg)) [
        | none ↦ (ctx, false)
        | some endpoint ↦
            let text = codes "mcp tool '" ++ tool_of json msg ++ codes "' → " ++ endpoint in
            (record (explain ctx text) { selected = some endpoint }, true)
      ])
      else (ctx, false)

  apply_plumber : Plumber re → Message x → RoutingContext → RoutingContext
  apply_plumber plumber msg ctx =
      let destinations = route_by_rules re plumber msg in
      let text = codes "plumber matched " ++ decimal (length destinations) ++ codes " rule(s)" in
      record (explain ctx text) { candidates = destinations }

  -- The `match` on the quantum router's choice.
  apply_choice : Option Text → RoutingContext → RoutingContext × Bool
  apply_choice none ctx = (explain ctx (codes "quantum: no selection"), false)
  apply_choice (some selected) ctx = (
    record (explain ctx (codes "quantum selected " ++ selected)) { selected = some selected },
    true,
  )

  apply_quantum : Shared → Moment → Message x → RoutingContext → Shared × RoutingContext × Bool
  unfolding apply_choice
  apply_quantum s t msg ctx =
      let valid = valid_candidates ctx in
      let (quantum', choice) = route_by_weight fl rand s.quantum t.utc t.rng msg valid in
      if is_empty ctx.candidates
      then (s, ctx, false)
      else if is_empty valid
      then (s, explain ctx (codes "quantum: no valid candidates"), false)
      else (
        record s { quantum = quantum' },
        (apply_choice choice ctx).0,
        (apply_choice choice ctx).1,
      )

  apply_fallback : RoutingContext → RoutingContext × Bool
  apply_fallback ctx = elim (first (valid_candidates ctx)) [
    | none ↦ (explain ctx (codes "fallback: no candidates available"), false)
    | some c ↦ (record (explain ctx (codes "fallback selected " ++ c)) { selected = some c }, true)
  ]

  unfoldable pub is_down : Map Text (AiEndpoint x) → Text → Bool
  is_down endpoints ep_id = elim (get endpoints ep_id) [
    | none ↦ false
    | some ep ↦ is_offline ep.health.status
  ]

  -- The `retain` of the circuit stage: the breaker, the candidates that stay, and those rejected.
  unfoldable pub retain :
      Map Text (AiEndpoint x)
      → Nanos
      → CircuitBreaker
      → List Text
      → CircuitBreaker × List Text × List Text
  retain endpoints now circuit [] = (circuit, [], [])
  retain endpoints now circuit (ep_id ∷ ids) =
      let (circuit', allowed) = allow circuit now ep_id in
      let (circuit'', kept, rejected) = retain endpoints now circuit' ids in
      if not allowed
      then (circuit'', kept, ep_id ∷ rejected)
      else if is_down endpoints ep_id
      then (circuit'', kept, ep_id ∷ rejected)
      else (circuit'', ep_id ∷ kept, rejected)

  apply_circuit :
      Map Text (AiEndpoint x) → Shared → Moment → RoutingContext → Shared × RoutingContext
  unfolding retain
  apply_circuit endpoints s t ctx =
      let (circuit', kept, rejected) = retain endpoints t.instant s.circuit ctx.candidates in
      let ctx' : RoutingContext = record ctx {
        candidates = kept;
        rejected = ctx.rejected ++ rejected;
      } in
      let lost = length ctx.candidates - length kept in
      (
        record s { circuit = circuit' },
        if ltb (length kept) (length ctx.candidates)
            then explain ctx'
                (codes "circuit breaker filtered " ++ decimal lost ++ codes " endpoint(s)")
            else ctx',
      )

  -- One stage, and whether it is final.
  unfoldable pub apply :
      RouterStage → Shared → Moment → Message x → RoutingContext → Shared × RoutingContext × Bool
  unfolding apply_mcp apply_plumber apply_quantum apply_fallback apply_circuit
  apply (mcp_routing mcp) s t msg ctx = let (ctx', done) = apply_mcp mcp msg ctx in (s, ctx', done)
  apply (plumber_routing p) s t msg ctx = (s, apply_plumber p msg ctx, false)
  apply quantum_routing s t msg ctx = apply_quantum s t msg ctx
  apply fallback_routing s t msg ctx = let (ctx', done) = apply_fallback ctx in (s, ctx', done)
  apply (circuit_aware endpoints) s t msg ctx =
      let (s', ctx') = apply_circuit endpoints s t ctx in (s', ctx', false)

  unfoldable pub run_stages :
      List RouterStage → Shared → Moment → Message x → RoutingContext → Shared × RoutingContext
  unfolding apply
  run_stages [] s t msg ctx = (s, ctx)
  run_stages (stage ∷ stages) s t msg ctx =
      let (s', ctx', is_final) = apply stage s t msg ctx in
      let rest = run_stages stages s' t msg ctx' in if is_final then (s', ctx') else rest

  unfoldable pub route : List RouterStage → Shared → Moment → Message x → Shared × RoutingDecision
  unfolding run_stages
  route stages s t msg =
      let (s', ctx) = run_stages stages s t msg (new_context []) in (s', into_decision ctx)

  -- A flag says whether there is a quantum router, and whether there is a breaker.
  unfoldable pub default_pipeline :
      McpRegistry x → Plumber re → Bool → Bool → Map Text (AiEndpoint x) → List RouterStage
  default_pipeline mcp plumber quantum circuit endpoints =
      mcp_routing mcp
        ∷ plumber_routing plumber
        ∷ (if circuit then circuit_aware endpoints ∷ [] else [])
      ++ (if quantum then quantum_routing ∷ [] else [])
      ++ fallback_routing ∷ []
