-- ===== src/Proxy/Choice.antt =====
-- src/proxy.rs: which endpoint a request is sent to, and what is recorded of its outcome.
use xfiles.Prelude.{
  ℕ, ◌≡◌, ◌⊎◌, inl, inr, refl, sym, ap, ◌∙◌, subst, Bool, true, false, Option, none, some, List, [],
  ◌∷◌, arith, In, All, All-In, if◌then◌else◌, Text, text_eq, Map, Bool-cases,
}
use xfiles.Prelude.Maps.{get, IsMap, get_of_In}
use xfiles.Prelude.Time.{Nanos}
use xfiles.Message.{Opaque, Message}
use xfiles.Floats.{Floats, Random}
use xfiles.Circuit.{CircuitBreaker}
use xfiles.Quantum.Router.{QuantumRouter}
use xfiles.Quantum.Router.Choice.{route_lem}
use xfiles.Ai.Endpoints.{AiEndpoint}
use xfiles.Proxy.{
  ChatCompletionRequest, Upstream, Answer, unavailable, bad_gateway, streamed, decoded,
  no_endpoints, is_offline, is_success, record_in, is_candidate, candidates, ProxyState, Moment,
  resolve_model, choose, observe_in, message_of, send, buffered, respond, forward, dispatch,
  chat_completions_handler,
}

is_candidate-online :
    {x : Opaque} (c : Option CircuitBreaker) (now : Nanos) (e : AiEndpoint x)
    → (is_candidate c now e).1 ≡ true
    → is_offline e.health.status ≡ false
unfolding is_candidate
is_candidate-online c now e h = elim (Bool-cases (is_offline e.health.status)) [
  | inl o ↦ absurd (ground (arith, o, h))
  | inr o ↦ o
]

-- A candidate is the id of an endpoint that is not offline.
In-candidates :
    {x : Opaque} (c : Option CircuitBreaker) (now : Nanos) (es : Map Text (AiEndpoint x))
    (id : Text)
    → In id (candidates c now es).1
    → (k : Text) × (e : AiEndpoint x) × In (k, e) es
      × (e.id ≡ id)
      × (is_offline e.health.status ≡ false)
unfolding candidates
In-candidates c now [] id i = absurd i
In-candidates c now ((k, e) ∷ es) id i =
    let rest = candidates (is_candidate c now e).0 now es in
    elim (Bool-cases (is_candidate c now e).1) [
      | inl a ↦ elim (subst (λ b. In id (if b then e.id ∷ rest.1 else rest.1)) a i) [
        | inl h ↦ (k, e, inl refl, sym h, is_candidate-online c now e a)
        | inr j ↦
            let (k', e', l, h, o) = In-candidates (is_candidate c now e).0 now es id j in
            (k', e', inr l, h, o)
      ]
      | inr a ↦
          let (k', e', l, h, o) =
            In-candidates (is_candidate c now e).0 now es id
              (subst (λ b. In id (if b then e.id ∷ rest.1 else rest.1)) a i) in
          (k', e', inr l, h, o)
    ]

-- The upstream took the request and answered with a status of success.
abbrev pub succeeded : {A : Type 0} → Text ⊎ (ℕ × A) → Bool
succeeded (inl error) = false
succeeded (inr (status, body)) = is_success status

abbrev pub is_streaming : {A : Type 0} → Bool → Text ⊎ (ℕ × A) → Bool
is_streaming stream (inl error) = false
is_streaming stream (inr answer) = stream

abbrev pub IsUnavailable : {x : Opaque} → Answer x → Type 0
IsUnavailable (unavailable error) = Unit
IsUnavailable (bad_gateway error) = ⊥
IsUnavailable (streamed status stream) = ⊥
IsUnavailable (decoded status json) = ⊥

module _ (fl : Floats) (rand : Random fl) where
  choose_lem :
      {x : Opaque} (q : Option (QuantumRouter fl)) (t : Moment fl rand) (msg : Message x)
      (ids : List Text)
      → ((ids ≡ []) × (choose fl rand q t msg ids ≡ (q, none)))
        ⊎ ((id : Text) × (q' : Option (QuantumRouter fl)) × (choose fl rand q t msg ids
              ≡ (q', some id))
            × In id ids)
  unfolding choose
  choose_lem none t msg [] = inl (refl, refl)
  choose_lem none t msg (id ∷ ids) = inr (id, none, refl, inl refl)
  choose_lem (some q) t msg ids = elim (route_lem fl rand q t.utc t.rng msg ids) [
    | inl (n, e) ↦ inl (n, rw e refl)
    | inr (id, q', e, i, h) ↦ inr (id, some q', rw e refl, i)
  ]

  module _ {x : Opaque} (up : Upstream x) where
    buffered-available :
        (e : AiEndpoint x) (id : Text) (latency status : ℕ) (body : Text ⊎ x.Value)
        → ¬ IsUnavailable (buffered fl rand up e id latency status body)
    buffered-available e id latency status (inl error) h = h
    buffered-available e id latency status (inr json) h = h

    respond-available :
        (s : ProxyState fl rand x) (t : Moment fl rand) (req : ChatCompletionRequest x) (id : Text)
        (e : AiEndpoint x) (status : ℕ) (body : Text ⊎ x.Value)
        → ¬ IsUnavailable (respond fl rand up s t req id e status body).1
    unfolding respond
    respond-available s t req id e status body = elim (Bool-cases req.stream) [
      | inl h ↦ rw (h, respond) (λ k. k)
      | inr h ↦ rw (h, respond) (buffered-available e id t.latency_ms status body)
    ]

    -- What is recorded when the request was sent to an endpoint.
    forward_lem :
        (s : ProxyState fl rand x) (t : Moment fl rand) (req : ChatCompletionRequest x) (id : Text)
        (e : AiEndpoint x)
        → let (s', answer) = forward fl rand up s t req id e in
          let reply = send fl rand up e req in
          (s'.circuit ≡ record_in s.circuit t.instant_after id (succeeded reply))
          × (s'.quantum ≡ (
              if is_streaming req.stream reply
              then s.quantum
              else observe_in fl rand s.quantum t.utc_after t.conversation_id id
                  (succeeded reply)
                  t.latency_ms))
          × (¬ IsUnavailable answer)
    unfolding forward respond
    forward_lem s t req id e = replied (send fl rand up e req) refl
      where
        replied :
            (reply : Text ⊎ (ℕ × (Text ⊎ x.Value)))
            → send fl rand up e req ≡ reply
            → let (s', answer) = forward fl rand up s t req id e in
              (s'.circuit ≡ record_in s.circuit t.instant_after id (succeeded reply))
              × (s'.quantum ≡ (
                  if is_streaming req.stream reply
                  then s.quantum
                  else observe_in fl rand s.quantum t.utc_after t.conversation_id id
                      (succeeded reply)
                      t.latency_ms))
              × (¬ IsUnavailable answer)
        replied (inl error) h = rw (h, forward) (refl, refl, λ k. k)
        replied (inr (status, body)) h =
            rw (h, forward) (refl, refl, respond-available s t req id e status body)

    -- The table holds each endpoint under its id. Then a request is refused with 503 exactly where there
    -- is no candidate, and nothing is recorded; otherwise it is sent to one of the candidates, which is
    -- an endpoint of the table that is not offline, and one outcome is recorded for this endpoint with
    -- the circuit breaker: a success exactly if it answered with a status of success. With the quantum
    -- router the same outcome is observed, unless the answer is streamed.
    pub chat_completions_handler_lem :
        (s : ProxyState fl rand x) (t : Moment fl rand) (req : ChatCompletionRequest x)
        → IsMap s.endpoints
        → All (λ e. e.1.id ≡ e.0) s.endpoints
        → let (s', answer) = chat_completions_handler fl rand up s t req in
          let (circuit', ids) = candidates s.circuit t.instant s.endpoints in
          let req' = resolve_model fl rand s req in
          ((ids ≡ [])
            × (s' ≡ record s { circuit = circuit' })
            × (answer ≡ unavailable no_endpoints))
          ⊎ ((id : Text) × (e : AiEndpoint x) × (q : Option (QuantumRouter fl)) × In id ids
              × (get s.endpoints id ≡ some e)
              × (is_offline e.health.status ≡ false)
              × (choose fl rand s.quantum t (message_of fl rand up t req') ids ≡ (q, some id))
              × (s'.circuit
                  ≡ record_in circuit' t.instant_after id (succeeded (send fl rand up e req')))
              × (s'.quantum ≡ (
                  if is_streaming req'.stream (send fl rand up e req')
                  then q
                  else observe_in fl rand q t.utc_after t.conversation_id id
                      (succeeded (send fl rand up e req'))
                      t.latency_ms))
              × (¬ IsUnavailable answer))
    unfolding chat_completions_handler dispatch
    chat_completions_handler_lem s t req m keyed =
        let req' = resolve_model fl rand s req in
        let c = candidates s.circuit t.instant s.endpoints in
        elim (choose_lem s.quantum t (message_of fl rand up t req') c.1) [
          | inl (n, e) ↦ inl (n, rw e refl, rw e refl)
          | inr (id, q, h, i) ↦
              let (k, e, j, same, o) = In-candidates s.circuit t.instant s.endpoints id i in
              let found : get s.endpoints id ≡ some e =
                ap (get s.endpoints)
                  (sym same ∙ All-In (λ e. e.1.id ≡ e.0) (k, e) s.endpoints keyed j)
                ∙ get_of_In s.endpoints k e m j in
              let s₁ = record s { circuit = c.0; quantum = q } in
              let run : chat_completions_handler fl rand up s t req
                  ≡ forward fl rand up s₁ t req' id e =
                ap (λ p. dispatch fl rand up (record s { circuit = c.0; quantum = p.0 }) t req' p.1)
                  h
                ∙ rw (found, dispatch) refl in
              let f = forward_lem s₁ t req' id e in
              rw run (inr (id, e, q, i, found, o, h, f.0, f.1, f.2))
        ]
