-- ===== src/Transport/Delivery.antt =====
-- src/net/transport.rs: the way of a message to an agent, over its channel or through its queue.
use mathlib.Core.List.{append-nil, append_assoc}
use xfiles.Prelude.{
  ◌≡◌, refl, sym, ap, ◌∙◌, true, false, none, some, List, [], ◌∷◌, ◌++◌, eq_refl, Text, text_eq,
}
use xfiles.Prelude.Maps.{get-insert}
use xfiles.Prelude.Texts.{starts_with}
use xfiles.Prelude.Time.{Nanos}
use xfiles.Message.{Opaque, Message, ProtocolOp, CapabilityManifest, message}
use xfiles.Channel.{Channels}
use xfiles.Floats.{Floats, Random}
use xfiles.Agent.{Agent, register, get as get_agent}
use xfiles.Plumber.{Patterns}
use xfiles.Queue.{QueuedMessage, waiting, enqueue, drain_to}
use xfiles.Queue.Delivery.{ops, waiting-enqueue, drain_to-Delivers, drain_to_complete}
use xfiles.Vfs.Paths.{split, extend_first}
use xfiles.Vfs.Paths.Split.{has_slash, split_part}
use xfiles.Vfs.Vnode.{Utf8}
use xfiles.Vfs.Registry.{net_prefix}
use xfiles.Transport.{Hub, Moment, target_agent, deliver, deliver_to, new_agent, handle_hello}

-- A namespace leads back to its agent.
pub target_agent-namespace :
    (id : Text) → has_slash id ≡ false → target_agent (net_prefix ++ id) ≡ some id
unfolding target_agent split extend_first starts_with
target_agent-namespace id h = rw (split_part id h) refl

-- What `enqueue` puts into the queue.
abbrev pub queued_at : {x : Opaque} → Nanos → Message x → QueuedMessage x
queued_at now msg = record { msg = msg; enqueued_at = now; retries = 0 }

ops-append : {x : Opaque} (l m : List (QueuedMessage x)) → ops (l ++ m) ≡ ops l ++ ops m
ops-append [] m = refl
ops-append (qm ∷ l) m = ap (λ k. message qm.msg ∷ k) (ops-append l m)

module _ {x : Opaque} (re : Patterns x) (fl : Floats) (rand : Random fl)
    (ch : Channels (ProtocolOp x)) (u : Utf8) where
  -- A message for the namespace of an agent that is not registered waits; once the agent says hello over
  -- a channel whose receiver stays alive, the channel is given what waited before, in order, and then
  -- the message; nothing waits any more, and the agent is registered with this channel. The agent's id
  -- has no slash.
  pub handle_hello-deliver :
      (h : Hub re fl rand ch u) (t t' : Moment re fl rand ch u) (id : Text) (msg : Message x)
      (tx : ch.Sender) (manifest : CapabilityManifest x)
      → has_slash id ≡ false
      → get_agent h.agents id ≡ none
      → ((n : ch.Net) (o : ProtocolOp x) → (ch.send n tx o).1 ≡ true)
      → let h₁ = deliver re fl rand ch u h t (some (net_prefix ++ id)) msg in
        let h₂ = handle_hello re fl rand ch u h₁ t' id tx manifest in
        (ch.sent h₂.net tx ≡ (ch.sent h.net tx ++ ops (waiting h.queue id)) ++ message msg ∷ [])
        × (waiting h₂.queue id ≡ [])
        × ((a : Agent x ch.Sender) × (get_agent h₂.agents id ≡ some a) × (a.tx ≡ some tx))
  unfolding deliver deliver_to handle_hello register get_agent
  handle_hello-deliver h t t' id msg tx manifest s e live =
      let q = enqueue h.queue t.utc id msg in
      let d = drain_to-Delivers ch q h.net id tx in
      let none_left = (drain_to_complete ch q h.net id tx live).0 in
      let queued : waiting q id ≡ waiting h.queue id ++ queued_at t.utc msg ∷ [] =
        waiting-enqueue h.queue t.utc id id msg ∙ rw (eq_refl id) refl in
      let agent = new_agent re fl rand ch u t' id tx manifest in
      let registered : get_agent (register h.agents agent) id ≡ some agent =
        get-insert h.agents.agents id id agent ∙ rw (eq_refl id) refl in
      rw (target_agent-namespace id s, e, deliver, deliver_to)
        (
          sym (append-nil (ch.sent (drain_to ch q h.net id tx).1 tx))
              ∙ sym (ap (λ l. ch.sent (drain_to ch q h.net id tx).1 tx ++ ops l) none_left)
              ∙ d.conserved
              ∙ ap (λ l. ch.sent h.net tx ++ ops l) queued
              ∙ ap (λ l. ch.sent h.net tx ++ l)
                  (ops-append (waiting h.queue id) (queued_at t.utc msg ∷ []))
              ∙ sym (append_assoc (ch.sent h.net tx) (ops (waiting h.queue id)) (message msg ∷ [])),
          none_left,
          (agent, registered, refl),
        )
