-- ===== src/Quantum/Router/Fresh.antt =====
-- src/quantum/router.rs: the choice in a conversation that the router does not know.
use xfiles.Prelude.{
  ◌≡◌, refl, sym, ap, ◌∙◌, Option, none, List, [], ◌∷◌, length, if◌then◌else◌, Text, nat_eq,
  is_empty,
}
use xfiles.Prelude.Maps.{get}
use xfiles.Prelude.Time.{Nanos}
use xfiles.Message.{Opaque, Uuid, Message}
use xfiles.Floats.{Floats, Random}
use xfiles.Quantum.State.{ConversationState, get_or_create, or_conversation, renormalize}
use xfiles.Quantum.Entanglement.{apply_entanglement}
use xfiles.Quantum.Router.{QuantumRouter, new, distribute, select, weigh, route, route_conversation}

module _ (fl : Floats) (rand : Random fl) where
  -- The choice by what is stored of the conversation and of its last endpoint.
  choice_by :
      QuantumRouter fl
      → Nanos
      → rand.Rng
      → Uuid
      → List Text
      → Option (ConversationState fl)
      → Option Text
      → Option Text
  choice_by q now g id cs conv last =
      let d = (distribute fl (or_conversation fl id now conv) now (length cs) cs).1 in
      let selected =
        select fl rand q.config.exploration_rate cs
          (apply_entanglement fl q.entanglement id last (renormalize fl d) (fl.dec 2 1)) g in
      if is_empty cs then none else selected

  route_by :
      {x : Opaque} (q : QuantumRouter fl) (now : Nanos) (g : rand.Rng) (msg : Message x)
      (cs : List Text)
      → (route fl rand q now g msg cs).1
        ≡ choice_by q now g msg.conversation_id cs
            (get q.state.conversations msg.conversation_id)
            (get q.last_endpoint msg.conversation_id)
  unfolding route route_conversation weigh get_or_create choice_by
  route_by q now g msg [] = refl
  route_by q now g msg (c ∷ cs) = refl

  -- The choice in a conversation that is new to the router, with the numbers of the generator, is the
  -- choice of a router that has just been made from the same configuration: nothing that was learned
  -- in other conversations has a part in it.
  pub route_fresh :
      {x : Opaque} (q : QuantumRouter fl) (now : Nanos) (g : rand.Rng) (msg : Message x)
      (cs : List Text)
      → get q.state.conversations msg.conversation_id ≡ none
      → get q.last_endpoint msg.conversation_id ≡ none
      → (route fl rand q now g msg cs).1 ≡ (route fl rand (new fl q.config) now g msg cs).1
  unfolding choice_by apply_entanglement new get
  route_fresh q now g msg cs h k =
      let id = msg.conversation_id in
      route_by q now g msg cs
      ∙ ap (λ conv. choice_by q now g id cs conv (get q.last_endpoint id)) h
      ∙ ap (choice_by q now g id cs none) k
      ∙ sym (route_by (new fl q.config) now g msg cs)
