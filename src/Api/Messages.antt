-- ===== src/Api/Messages.antt =====
-- src/api.rs and src/daemon.rs: the two handlers that take a message over HTTP.
use xfiles.Prelude.{
  ◌≡◌, refl, ap, Bool, true, Option, none, some, Text, text_eq, [], ◌∷◌, ◌++◌, Option-cases, inl,
  inr,
}
use xfiles.Prelude.Time.{Nanos}
use xfiles.Message.{Opaque, Message, ProtocolOp, message}
use xfiles.Channel.{Channels}
use xfiles.Floats.{Floats, Random}
use xfiles.Agent.{get as get_agent}
use xfiles.Plumber.{Patterns}
use xfiles.Mcp.{Json}
use xfiles.Vfs.Vnode.{Utf8}
use xfiles.Transport.{Hub, Moment, target_agent, deliver, deliver_to, send_to, send_op}
use xfiles.Daemon.{
  AppState, msg_handler, route_message, deliver_selected, deliver_or_queue, send_or_queue,
}
use xfiles.Api.{send_message}

module _ {x : Opaque} (re : Patterns x) (fl : Floats) (rand : Random fl)
    (ch : Channels (ProtocolOp x)) (u : Utf8) (json : Json x) where
  -- The channels take every message, or they take none.
  abbrev pub Takes : Bool → Type 0
  Takes b = (n : ch.Net) (tx : ch.Sender) (o : ProtocolOp x) → (ch.send n tx o).1 ≡ b

  send_to_live :
      (h : Hub re fl rand ch u) (t : Moment re fl rand ch u) (id : Text) (tx : Option ch.Sender)
      (msg : Message x)
      → Takes true
      → send_to re fl rand ch u h tx msg ≡ send_or_queue re fl rand ch u json h t id tx msg
  unfolding send_to send_op send_or_queue
  send_to_live h t id none msg live = refl
  send_to_live h t id (some tx) msg live = rw (live h.net tx (message msg)) refl

  deliver_live :
      (h : Hub re fl rand ch u) (t : Moment re fl rand ch u) (dest : Option Text) (msg : Message x)
      → Takes true
      → deliver re fl rand ch u h t dest msg ≡ deliver_selected re fl rand ch u json h t dest msg
  unfolding deliver deliver_to deliver_selected deliver_or_queue
  deliver_live h t none msg live = refl
  deliver_live h t (some dest) msg live = elim (Option-cases (target_agent dest)) [
    | inl e ↦ rw (e, deliver, deliver_selected) refl
    | inr (id, e) ↦ elim (Option-cases (get_agent h.agents id)) [
      | inl g ↦ rw (e, deliver, deliver_selected, g, deliver_to, deliver_or_queue) refl
      | inr (a, g) ↦
          rw (e, deliver, deliver_selected, g, deliver_to, deliver_or_queue)
            (send_to_live h t id a.tx msg live)
    ]
  ]

  -- Where the channels of the agents take every message, the REST interface and `/msg` do the same with
  -- a message and answer the same.
  pub send_message-msg_handler :
      (s : AppState re fl rand ch u json) (now : Nanos) (t : Moment re fl rand ch u)
      (msg : Message x)
      → Takes true
      → send_message re fl rand ch u json s now t msg ≡ msg_handler re fl rand ch u json s now t msg
  unfolding send_message msg_handler
  send_message-msg_handler s now t msg live =
      let r =
        route_message re fl rand ch u json (record s { messages = s.messages ++ msg ∷ [] }) now t
          msg in
      ap (λ h. (record r.0 { hub = h }, (send_message re fl rand ch u json s now t msg).1))
        (deliver_live r.0.hub t r.1.selected msg live)
