-- ===== src/Quantum/Router/Learning.antt =====
-- src/quantum/router.rs and src/quantum/state.rs: what an observed result changes.
use xfiles.Prelude.{
  ℕ, ◌+◌, ◌%◌, ◌^◌, ◌≡◌, refl, ap, ◌∙◌, Bool, true, false, Option, none, some, is_empty,
  if◌then◌else◌, ◌==◌, eq_iff, eq_refl, Text, text_eq, nat_eq, Map, Bool-cases, ◌⊎◌, inl, inr,
}
use mathlib.Core.Option
use xfiles.Prelude.Maps.{get, get-insert, insert, map_values, get-map_values}
use xfiles.Prelude.Time.{Nanos}
use xfiles.Message.{Uuid}
use xfiles.Floats.{Floats}
use xfiles.Quantum.State.{
  EndpointState, ConversationState, QuantumStateManager, or_state, or_conversation, rewarded,
  apply_decoherence, update, get_or_create, update_conversation,
}
use xfiles.Quantum.Router.{QuantumRouter, states_of, observe, reward_of}

module _ (fl : Floats) where
  open fl use {F64, add, dec}

  -- How often an endpoint was chosen, and the rewards that it has earned.
  abbrev pub tally : Option (EndpointState fl) → ℕ × F64
  tally none = (0, dec 0 0)
  tally (some s) = (s.pulls, s.total_reward)

  -- The tally of an endpoint in a conversation.
  abbrev pub tally_of : QuantumRouter fl → Uuid → Text → ℕ × F64
  tally_of q id ep = tally (get (states_of fl (get q.state.conversations id)) ep)

  -- A tally after one more reward.
  abbrev pub more : F64 → ℕ × F64 → ℕ × F64
  more reward (pulls, total) = ((pulls + 1) % 2 ^ 64, add total reward)

  tally-map :
      (f : EndpointState fl → EndpointState fl) (s : Option (EndpointState fl))
      → ((s : EndpointState fl) → tally (some (f s)) ≡ tally (some s))
      → tally (Option.map f s) ≡ tally s
  tally-map f none h = refl
  tally-map f (some s) h = h s

  tally-map_values :
      (f : EndpointState fl → EndpointState fl) (m : Map Text (EndpointState fl)) (ep : Text)
      → ((s : EndpointState fl) → tally (some (f s)) ≡ tally (some s))
      → tally (get (map_values f m) ep) ≡ tally (get m ep)
  tally-map_values f m ep h = ap tally (get-map_values f m ep) ∙ tally-map f (get m ep) h

  -- The decay of a conversation touches no tally.
  tally-apply_decoherence :
      (c : ConversationState fl) (rate : F64) (ep : Text)
      → tally (get (apply_decoherence fl c rate).endpoint_states ep)
        ≡ tally (get c.endpoint_states ep)
  unfolding apply_decoherence
  tally-apply_decoherence c rate ep = elim (Bool-cases (is_empty c.endpoint_states)) [
    | inl e ↦ rw e refl
    | inr e ↦ rw e (tally-map_values _ c.endpoint_states ep (λ s. refl))
  ]

  tally-or_state :
      (now : Nanos) (reward : F64) (s : Option (EndpointState fl))
      → tally (some (rewarded fl now reward (or_state fl now s))) ≡ more reward (tally s)
  unfolding rewarded
  tally-or_state now reward none = refl
  tally-or_state now reward (some s) = refl

  tally-update :
      (c : ConversationState fl) (now : Nanos) (ep other : Text) (reward rate : F64)
      → tally (get (update fl c now ep reward rate).endpoint_states other) ≡ (
          if ep == other
          then more reward (tally (get c.endpoint_states other))
          else tally (get c.endpoint_states other))
  unfolding update
  tally-update c now ep other reward rate =
      let s = rewarded fl now reward (or_state fl now (get c.endpoint_states ep)) in
      tally-apply_decoherence
        (record c { endpoint_states = insert c.endpoint_states ep s; last_active = now }) rate other
      ∙ ap tally (get-insert c.endpoint_states ep other s)
      ∙ one (Bool-cases (ep == other))
    where
      one :
          ((ep == other) ≡ true) ⊎ ((ep == other) ≡ false)
          → tally (
              if ep == other
              then some (rewarded fl now reward (or_state fl now (get c.endpoint_states ep)))
              else get c.endpoint_states other)
            ≡ (if ep == other
                then more reward (tally (get c.endpoint_states other))
                else tally (get c.endpoint_states other))
      one (inl e) = rw e (
          tally-or_state now reward (get c.endpoint_states ep)
          ∙ ap (λ k. more reward (tally (get c.endpoint_states k))) ((eq_iff ep other).0 e))
      one (inr e) = rw e refl

  tally-or_conversation :
      (id : Uuid) (now : Nanos) (c : Option (ConversationState fl)) (ep : Text)
      → tally (get (or_conversation fl id now c).endpoint_states ep)
        ≡ tally (get (states_of fl c) ep)
  unfolding get
  tally-or_conversation id now none ep = refl
  tally-or_conversation id now (some c) ep = refl

  get-update_conversation :
      (m : QuantumStateManager fl) (now : Nanos) (id other : Uuid) (ep : Text) (reward rate : F64)
      → get (update_conversation fl m now id ep reward rate).conversations other ≡ (
          if id == other
          then some
              (update fl (or_conversation fl id now (get m.conversations id)) now ep reward rate)
          else get m.conversations other)
  unfolding update_conversation get_or_create
  get-update_conversation m now id other ep reward rate = elim (Bool-cases (id == other)) [
    | inl e ↦ get-insert _ id other _ ∙ rw e refl
    | inr e ↦ get-insert _ id other _ ∙ rw e (get-insert m.conversations id other _ ∙ rw e refl)
  ]

  -- What is observed counts for its endpoint in its conversation, and for nothing else.
  pub observe_lem :
      (q : QuantumRouter fl) (now : Nanos) (id : Uuid) (ep : Text) (success : Bool) (latency_ms : ℕ)
      → let q' = (observe fl q now id ep success latency_ms).0 in
        ((other : Text)
          → tally_of q' id other ≡ (
              if ep == other
              then more (reward_of fl success latency_ms) (tally_of q id other)
              else tally_of q id other))
        × ((other : Uuid)
            → (id == other) ≡ false
            → get q'.state.conversations other ≡ get q.state.conversations other)
  unfolding observe
  observe_lem q now id ep success latency_ms = (
    λ other.
        let reward = reward_of fl success latency_ms in
        let c = or_conversation fl id now (get q.state.conversations id) in
        let rate = q.config.decoherence_rate in
        let stored : get (update_conversation fl q.state now id ep reward rate).conversations id
            ≡ some (update fl c now ep reward rate) =
          get-update_conversation q.state now id id ep reward rate ∙ rw (eq_refl id) refl in
        ap (λ c. tally (get (states_of fl c) other)) stored
        ∙ tally-update c now ep other reward rate
        ∙ ap (λ t. if ep == other then more reward t else t)
            (tally-or_conversation id now (get q.state.conversations id) other),
    λ other h. get-update_conversation q.state now id other ep _ _ ∙ rw h refl,
  )
