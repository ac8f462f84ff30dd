-- ===== src/Router/Pipeline.antt =====
-- src/router.rs: what the default pipeline decides.
use xfiles.Prelude.{
  ◌≡◌, ◌⊎◌, inl, inr, refl, ap, ◌∙◌, subst, Bool, true, false, not, ltb, length, Option, none, some,
  List, [], ◌∷◌, ◌++◌, In, In-filter, filter, first, is_empty, contains, if◌then◌else◌, ◌==◌, Text,
  text_eq, codes, Map, Bool-cases, Option-cases,
}
use xfiles.Message.{Opaque, Message}
use xfiles.Floats.{Floats, Random}
use xfiles.Plumber.{Patterns, Plumber, route as route_by_rules}
use xfiles.Quantum.Router.Choice.{route_lem}
use xfiles.Ai.Endpoints.{AiEndpoint}
use xfiles.Mcp.{Json, McpRegistry, find_endpoint_for_tool, tool_of}
use xfiles.Router.{
  RoutingContext, new_context, Shared, plumber_routing, circuit_aware, apply_plumber, apply_circuit,
  Moment, quantum_routing, fallback_routing, valid_candidates, apply_mcp, apply_choice,
  apply_quantum, apply_fallback, apply, run_stages, retain, route, default_pipeline,
}

first-In :
    (l : List Text) → ((l ≡ []) × (first l ≡ none)) ⊎ ((c : Text) × (first l ≡ some c) × In c l)
first-In [] = inl (refl, refl)
first-In (c ∷ l) = inr (c, refl, inl refl)

In-some : {A : Type 0} (a : A) (l : List A) → In a l → is_empty l ≡ false
In-some a [] h = absurd h
In-some a (b ∷ l) h = refl

-- Whether a context keeps the candidates of another and selects a valid one of them, or none if no
-- candidate is valid.
IsSettled : RoutingContext → RoutingContext → Type 0
IsSettled ctx ctx' =
    (ctx'.candidates ≡ ctx.candidates)
    × (((valid_candidates ctx ≡ []) × (ctx'.selected ≡ none))
        ⊎ ((c : Text) × (ctx'.selected ≡ some c) × In c (valid_candidates ctx)))

-- What a stage that selects makes of a context, and whether it is final.
Outcome : RoutingContext → RoutingContext → Bool → Type 0
Outcome ctx ctx' done =
    ((done ≡ false)
      × (valid_candidates ctx ≡ [])
      × (ctx'.candidates ≡ ctx.candidates)
      × (ctx'.rejected ≡ ctx.rejected)
      × (ctx'.selected ≡ ctx.selected))
    ⊎ ((c : Text) × (done ≡ true)
        × In c (valid_candidates ctx)
        × (ctx'.candidates ≡ ctx.candidates)
        × (ctx'.selected ≡ some c))

valid_candidates-same :
    (ctx ctx' : RoutingContext)
    → ctx'.candidates ≡ ctx.candidates
    → ctx'.rejected ≡ ctx.rejected
    → valid_candidates ctx' ≡ valid_candidates ctx
unfolding valid_candidates
valid_candidates-same ctx ctx' e f =
    ap (λ l. filter (λ c. not (contains ctx'.rejected c)) l) e
    ∙ ap (λ r. filter (λ c. not (contains r c)) ctx.candidates) f

module _ {x : Opaque} (re : Patterns x) (fl : Floats) (rand : Random fl) (json : Json x) where
  fallback-Outcome :
      (ctx : RoutingContext)
      → Outcome ctx (apply_fallback re fl rand json ctx).0 (apply_fallback re fl rand json ctx).1
  unfolding apply_fallback Outcome
  fallback-Outcome ctx = elim (first-In (valid_candidates ctx)) [
    | inl (e, f) ↦ rw (f, apply_fallback) (inl (refl, e, refl, refl, refl))
    | inr (c, f, i) ↦ rw (f, apply_fallback) (inr (c, refl, i, refl, refl))
  ]

  quantum-Outcome :
      (s : Shared re fl rand json) (t : Moment re fl rand json) (msg : Message x)
      (ctx : RoutingContext)
      → Outcome ctx
          (apply_quantum re fl rand json s t msg ctx).1
          (apply_quantum re fl rand json s t msg ctx).2
  unfolding apply_quantum apply_choice Outcome filter valid_candidates
  quantum-Outcome s t msg ctx =
      elim (route_lem fl rand s.quantum t.utc t.rng msg (valid_candidates ctx)) [
        | inl (e, f) ↦ elim (Bool-cases (is_empty ctx.candidates)) [
          | inl p ↦ rw (p, apply_quantum) (inl (refl, e, refl, refl, refl))
          | inr p ↦ inl (rw (p, e, apply_quantum) (refl, refl, refl, refl, refl))
        ]
        | inr (c, q', f, i, _) ↦
            let v = In-some c (valid_candidates ctx) i in
            let p = In-some c ctx.candidates (valid-In ctx c i) in
            rw (p, v, f, apply_quantum) (inr (c, refl, i, refl, refl))
      ]
    where
      valid-In :
          (ctx : RoutingContext) (c : Text) → In c (valid_candidates ctx) → In c ctx.candidates
      valid-In ctx c i = ((In-filter (λ c. not (contains ctx.rejected c)) c ctx.candidates).0 i).0

  settle_fallback :
      (s : Shared re fl rand json) (t : Moment re fl rand json) (msg : Message x)
      (ctx : RoutingContext)
      → ctx.selected ≡ none
      → IsSettled ctx (run_stages re fl rand json (fallback_routing ∷ []) s t msg ctx).1
  unfolding run_stages apply IsSettled Outcome
  settle_fallback s t msg ctx h = elim (fallback-Outcome ctx) [
    | inl (b, e, c, r, n) ↦ rw b (c, inl (e, n ∙ h))
    | inr (d, b, i, c, n) ↦ rw b (c, inr (d, n, i))
  ]

  settle_quantum :
      (s : Shared re fl rand json) (t : Moment re fl rand json) (msg : Message x)
      (ctx : RoutingContext)
      → ctx.selected ≡ none
      → IsSettled ctx
          (run_stages re fl rand json (quantum_routing ∷ fallback_routing ∷ []) s t msg ctx).1
  unfolding run_stages apply IsSettled Outcome
  settle_quantum s t msg ctx h = elim (quantum-Outcome s t msg ctx) [
    | inl (b, e, c, r, n) ↦
        let (s', ctx', done) = apply_quantum re fl rand json s t msg ctx in
        let v = valid_candidates-same ctx ctx' c r in
        let (k, o) = settle_fallback s' t msg ctx' (n ∙ h) in
        rw b
          (k ∙ c, elim o [ inl (_, q) ↦ inl (e, q) | inr (d, q, i) ↦ inr (d, q, subst (In d) v i) ])
    | inr (d, b, i, c, n) ↦ rw b (c, inr (d, n, i))
  ]

  settle :
      (quantum : Bool) (s : Shared re fl rand json) (t : Moment re fl rand json) (msg : Message x)
      (ctx : RoutingContext)
      → ctx.selected ≡ none
      → IsSettled ctx
          (run_stages re fl rand json
            ((if quantum then quantum_routing ∷ [] else []) ++ fallback_routing ∷ [])
            s
            t
            msg
            ctx).1
  settle true s t msg ctx h = settle_quantum s t msg ctx h
  settle false s t msg ctx h = settle_fallback s t msg ctx h

  -- The endpoint of a message that calls a tool.
  abbrev pub mcp_endpoint : McpRegistry x → Message x → Option Text
  mcp_endpoint mcp msg =
      if msg.msg_type == codes "mcp_tool_call"
      then find_endpoint_for_tool mcp (tool_of json msg)
      else none

  -- The candidates that come to the selecting stages, and those that the breaker rejected.
  abbrev pub offered :
      Plumber re
      → Bool
      → Map Text (AiEndpoint x)
      → Shared re fl rand json
      → Moment re fl rand json
      → Message x
      → List Text × List Text
  offered plumber circuit endpoints s t msg =
      let destinations = route_by_rules re plumber msg in
      let (_, kept, rejected) = retain re fl rand json endpoints t.instant s.circuit destinations in
      if circuit then (kept, rejected) else (destinations, [])

  -- What the breaker's stage makes of a context that has rejected nothing.
  circuit_fields :
      (endpoints : Map Text (AiEndpoint x)) (s : Shared re fl rand json)
      (t : Moment re fl rand json) (ctx : RoutingContext)
      → ctx.rejected ≡ []
      → let ctx' = (apply_circuit re fl rand json endpoints s t ctx).1 in
        let r = retain re fl rand json endpoints t.instant s.circuit ctx.candidates in
        (ctx'.candidates ≡ r.1) × (ctx'.rejected ≡ r.2) × (ctx'.selected ≡ ctx.selected)
  unfolding apply_circuit
  circuit_fields endpoints s t ctx h =
      let r = retain re fl rand json endpoints t.instant s.circuit ctx.candidates in
      elim (Bool-cases (ltb (length r.1) (length ctx.candidates))) [
        | inl e ↦ rw (e, apply_circuit) (refl, ap (λ l. l ++ r.2) h, refl)
        | inr e ↦ rw (e, apply_circuit) (refl, ap (λ l. l ++ r.2) h, refl)
      ]

  -- The candidates are those of the list that the second does not hold; one of them is selected.
  IsDecided : List Text × List Text → RoutingContext → Type 0
  IsDecided (kept, rejected) ctx =
      (ctx.candidates ≡ kept)
      × (((filter (λ c. not (contains rejected c)) kept ≡ []) × (ctx.selected ≡ none))
          ⊎ ((c : Text) × (ctx.selected ≡ some c)
              × In c (filter (λ c. not (contains rejected c)) kept)))

  IsDecided-of_IsSettled :
      (kept rejected : List Text) (ctx ctx' : RoutingContext)
      → ctx.candidates ≡ kept
      → ctx.rejected ≡ rejected
      → IsSettled ctx ctx'
      → IsDecided (kept, rejected) ctx'
  unfolding IsDecided IsSettled valid_candidates
  IsDecided-of_IsSettled kept rejected ctx ctx' e f (c, h) =
      subst (λ k. IsDecided (k, rejected) ctx') e
        (subst (λ r. IsDecided (ctx.candidates, r) ctx') f (c, h))

  decide :
      (plumber : Plumber re) (quantum circuit : Bool) (endpoints : Map Text (AiEndpoint x))
      (s : Shared re fl rand json) (t : Moment re fl rand json) (msg : Message x)
      → IsDecided
          (offered plumber circuit endpoints s t msg)
          (run_stages re fl rand json
            (plumber_routing plumber ∷ (if circuit then circuit_aware endpoints ∷ [] else [])
              ++ (if quantum then quantum_routing ∷ [] else [])
              ++ fallback_routing ∷ [])
            s
            t
            msg
            (new_context [])).1
  unfolding run_stages apply apply_plumber
  decide plumber quantum false endpoints s t msg =
      let ctx = apply_plumber re fl rand json plumber msg (new_context []) in
      IsDecided-of_IsSettled (route_by_rules re plumber msg) [] ctx _ refl refl
        (settle quantum s t msg ctx refl)
  decide plumber quantum true endpoints s t msg =
      let ctx = apply_plumber re fl rand json plumber msg (new_context []) in
      let (s', ctx') = apply_circuit re fl rand json endpoints s t ctx in
      let (c, r, n) = circuit_fields endpoints s t ctx refl in
      IsDecided-of_IsSettled _ _ ctx' _ c r (settle quantum s' t msg ctx' n)

  -- The default pipeline sends a tool call to the endpoint of its tool, if that is known. Any other
  -- message goes to one of the destinations that the rules give, that the breaker lets through, if there
  -- is one, and that it did not also reject at another place of the list; where there is none, nothing
  -- is selected.
  pub route-default_pipeline :
      (mcp : McpRegistry x) (plumber : Plumber re) (quantum circuit : Bool)
      (endpoints : Map Text (AiEndpoint x)) (s : Shared re fl rand json)
      (t : Moment re fl rand json) (msg : Message x)
      → let stages = default_pipeline re fl rand json mcp plumber quantum circuit endpoints in
        let decision = (route re fl rand json stages s t msg).1 in
        let (kept, rejected) = offered plumber circuit endpoints s t msg in
        let valid = filter (λ c. not (contains rejected c)) kept in
        ((e : Text) × (mcp_endpoint mcp msg ≡ some e)
          × (decision.selected ≡ some e)
          × (decision.candidates ≡ []))
        ⊎ ((mcp_endpoint mcp msg ≡ none)
            × (decision.candidates ≡ kept)
            × (((valid ≡ []) × (decision.selected ≡ none))
                ⊎ ((c : Text) × (decision.selected ≡ some c) × In c valid)))
  unfolding route default_pipeline run_stages apply apply_mcp IsDecided
  route-default_pipeline mcp plumber quantum circuit endpoints s t msg =
      let (c, h) = decide plumber quantum circuit endpoints s t msg in
      elim (Bool-cases (msg.msg_type == codes "mcp_tool_call")) [
        | inl e ↦ elim (Option-cases (find_endpoint_for_tool mcp (tool_of json msg))) [
          | inl f ↦ rw (e, f) (inr (refl, c, h))
          | inr (d, f) ↦ rw (e, f) (inl (d, refl, refl, refl))
        ]
        | inr e ↦ rw e (inr (refl, c, h))
      ]
