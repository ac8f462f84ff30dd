-- ===== src/Quantum/Router.antt =====
-- src/quantum/router.rs: the choice of a destination, and what is learned from its outcome. The clock
-- is the argument `now`, and random numbers are an interface.
pub mod Choice
pub mod Fresh
pub mod Learning
use xfiles.Prelude.{
  ℕ, ◌*◌, Bool, true, false, Option, none, some, List, [], ◌∷◌, map, length, is_empty, filter,
  get_elem?, nat_beq, if◌then◌else◌, Text, text_eq, nat_eq, Map,
}
use xfiles.Prelude.Maps.{get, insert, contains_key}
use xfiles.Prelude.Ints.{pos}
use xfiles.Prelude.Time.{Nanos}
use xfiles.Message.{Opaque, Uuid, Message}
use xfiles.Floats.{Floats, Random}
use xfiles.Quantum.State.{
  EndpointState, ConversationState, QuantumStateManager, get_or_insert, get_or_create, probability,
  renormalize, update_conversation, endpoint_diagnostics, prune_old as prune_conversations,
}
use xfiles.Quantum.Entanglement.{EntanglementTable, apply_entanglement, prune_old as prune_pairs}

module _ (fl : Floats) where
  open fl use {F64, dec, of_nat, sub, mul, div, clamp, min, lt}

  -- src/config.rs
  pub record QuantumConfig : Type 0 where
    pub enabled : Bool
    pub decoherence_rate : F64
    pub exploration_rate : F64
    pub entanglement_window : ℕ
    pub min_samples_before_exploit : ℕ

  -- The handle on the endpoints is left out, which no method reads; what is saved to the store is a
  -- result of `observe`.
  pub record QuantumRouter : Type 0 where
    pub state : QuantumStateManager fl
    pub entanglement : EntanglementTable fl
    pub config : QuantumConfig
    pub last_endpoint : Map Uuid Text

  unfoldable pub new : QuantumConfig → QuantumRouter
  new config = record {
    state = record { conversations = [] };
    entanglement = record { correlations = [] };
    config = config;
    last_endpoint = [];
  }

  -- The weights of the candidates, with an entry made for each; `n` is the number of candidates.
  unfoldable pub distribute :
      ConversationState fl → Nanos → ℕ → List Text → ConversationState fl × List (Text × F64)
  distribute conv now n [] = (conv, [])
  distribute conv now n (c ∷ cs) =
      let (conv', s) = get_or_insert fl conv now c in
      let prob =
        if nat_beq s.pulls 0 then div (dec 1 0) (of_nat n) else probability fl s.amplitude in
      let (conv'', d) = distribute conv' now n cs in (conv'', (c, prob) ∷ d)

  -- The writes that `get_or_insert` makes reach the conversation in the table.
  store_conversation : QuantumRouter → Uuid → ConversationState fl → QuantumRouter
  store_conversation q id conv = record q {
    state = record { conversations = insert q.state.conversations id conv };
  }

  module _ (rand : Random fl) where
    open rand use {Rng, gen, choose, weighted_index, sample}

    -- `candidates.choose(&mut rng).cloned()`
    unfoldable pub explore : List Text → Rng → Option Text
    explore candidates g = get_elem? candidates (choose g (length candidates)).0

    unfoldable pub exploit : List Text → List (Text × F64) → Rng → Option Text
    unfolding explore
    exploit candidates distribution g = elim (weighted_index (map (λ e. e.1) distribution)) [
      | none ↦ explore candidates g
      | some dist ↦ get_elem? (map (λ e. e.0) distribution) (sample dist g).0
    ]

    unfoldable pub select : F64 → List Text → List (Text × F64) → Rng → Option Text
    unfolding exploit
    select exploration_rate candidates distribution g =
        let (r, g') = gen g in
        if lt r exploration_rate then explore candidates g' else exploit candidates distribution g'

    -- The weights of the candidates after the entanglement with the last endpoint, and the router with
    -- the entries that they took.
    unfoldable pub weigh :
        QuantumRouter → Nanos → Uuid → List Text → QuantumRouter × List (Text × F64)
    unfolding distribute store_conversation
    weigh q now id candidates =
        let (state', conv) = get_or_create fl q.state now id in
        let (conv', d) = distribute conv now (length candidates) candidates in
        (
          store_conversation (record q { state = state' }) id conv',
          apply_entanglement fl q.entanglement id (get q.last_endpoint id) (renormalize fl d)
              (dec 2 1),
        )

    remember : QuantumRouter → Uuid → Option Text → QuantumRouter
    remember q id none = q
    remember q id (some ep_id) = record q { last_endpoint = insert q.last_endpoint id ep_id }

    unfoldable pub route_conversation :
        QuantumRouter → Nanos → Rng → Uuid → List Text → QuantumRouter × Option Text
    unfolding weigh select remember
    route_conversation q now g id candidates =
        let (q', distribution) = weigh q now id candidates in
        let selected = select q.config.exploration_rate candidates distribution g in
        if is_empty candidates then (q, none) else (remember q' id selected, selected)

    -- `route` reads the message's conversation and nothing else of it.
    unfoldable pub route :
        {x : Opaque}
        → QuantumRouter
        → Nanos
        → Rng
        → Message x
        → List Text
        → QuantumRouter × Option Text
    unfolding route_conversation
    route q now g msg candidates = route_conversation q now g msg.conversation_id candidates

  unfoldable pub reward_of : Bool → ℕ → F64
  reward_of success latency_ms =
      let latency_penalty = min (div (of_nat latency_ms) (dec 5000 0)) (dec 1 0) in
      if success then sub (dec 1 0) (mul latency_penalty (dec 3 1)) else dec 0 0

  abbrev pub states_of : Option (ConversationState fl) → Map Text (EndpointState fl)
  states_of none = []
  states_of (some c) = c.endpoint_states

  -- The second part of the result is what is saved to the store for the conversation and the endpoint.
  unfoldable pub observe :
      QuantumRouter → Nanos → Uuid → Text → Bool → ℕ → QuantumRouter × Option (EndpointState fl)
  unfolding reward_of
  observe q now id endpoint_id success latency_ms =
      let state' =
        update_conversation fl q.state now id endpoint_id (reward_of success latency_ms)
          q.config.decoherence_rate in
      (record q { state = state' }, get (states_of (get state'.conversations id)) endpoint_id)

  -- `quality_score as f64` is the argument.
  unfoldable pub feedback : QuantumRouter → Nanos → Uuid → Text → F64 → QuantumRouter
  feedback q now id endpoint_id quality_score = record q {
    state =
        update_conversation fl q.state now id endpoint_id (clamp quality_score (dec 0 0) (dec 1 0))
          q.config.decoherence_rate;
  }

  unfoldable pub diagnostics :
      QuantumRouter → Nanos → Uuid → QuantumRouter × List (Text × F64 × ℕ × F64)
  diagnostics q now id =
      let (state', conv) = get_or_create fl q.state now id in
      (record q { state = state' }, endpoint_diagnostics fl conv)

  unfoldable pub tick : QuantumRouter → Nanos → QuantumRouter
  tick q now =
      let state' = prune_conversations fl q.state now (pos 3600) in
      record q {
        state = state';
        entanglement = prune_pairs fl q.entanglement now (pos (q.config.entanglement_window * 2));
        last_endpoint = filter (λ e. contains_key state'.conversations e.0) q.last_endpoint;
      }
