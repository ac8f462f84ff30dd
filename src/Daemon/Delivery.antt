-- ===== src/Daemon/Delivery.antt =====
-- src/daemon.rs: no message for an agent is lost by the handlers, and a file that is written is read.
use xfiles.Prelude.{
  ◌≡◌, ◌⊎◌, inl, inr, refl, ap, ◌∙◌, false, none, some, [], ◌∷◌, ◌++◌, if◌then◌else◌, eq_refl, Text,
  text_eq, Option-cases, Bool-cases,
}
use xfiles.Message.{Opaque, Message, ProtocolOp, message}
use xfiles.Channel.{Channels}
use xfiles.Floats.{Floats, Random}
use xfiles.Agent.{Agent, get as get_agent}
use xfiles.Plumber.{Patterns}
use xfiles.Queue.{waiting, enqueue}
use xfiles.Queue.Delivery.{waiting-enqueue}
use xfiles.Mcp.{Json}
use xfiles.Vfs.Paths.Split.{has_slash}
use xfiles.Vfs.Vnode.{Utf8}
use xfiles.Vfs.Registry.{net_prefix}
use xfiles.Transport.{Hub, Moment}
use xfiles.Transport.Delivery.{target_agent-namespace, queued_at}
use xfiles.Daemon.{
  send_or_queue, deliver_or_queue, deliver_selected, try_send, tx_of, channel_of, grpc_deliver,
  grpc_deliver_to,
}

module _ {x : Opaque} (re : Patterns x) (fl : Floats) (rand : Random fl)
    (ch : Channels (ProtocolOp x)) (u : Utf8) (json : Json x) where
  -- The message was given to the agent's channel, behind what it was given before, or it waits for the
  -- agent, behind what waits already.
  pub record IsKept (h h' : Hub re fl rand ch u) (t : Moment re fl rand ch u) (id : Text)
      (msg : Message x) : Type 0 where
    pub agents_same : h'.agents ≡ h.agents
    pub kept :
        ((tx : ch.Sender) × (channel_of re fl rand ch u json h id ≡ some tx)
          × (ch.sent h'.net tx ≡ ch.sent h.net tx ++ message msg ∷ [])
          × (h'.queue ≡ h.queue))
        ⊎ ((waiting h'.queue id ≡ waiting h.queue id ++ queued_at t.utc msg ∷ [])
            × (h'.net ≡ h.net))

  queue_IsKept :
      (h : Hub re fl rand ch u) (n : ch.Net) (t : Moment re fl rand ch u) (id : Text)
      (msg : Message x)
      → n ≡ h.net
      → IsKept h (record h { net = n; queue = enqueue h.queue t.utc id msg }) t id msg
  queue_IsKept h n t id msg e = record {
    agents_same = refl;
    kept = inr (waiting-enqueue h.queue t.utc id id msg ∙ rw (eq_refl id) refl, e);
  }

  send_IsKept :
      (h : Hub re fl rand ch u) (t : Moment re fl rand ch u) (id : Text) (msg : Message x)
      (tx : ch.Sender)
      → channel_of re fl rand ch u json h id ≡ some tx
      → let (n, sent) = ch.send h.net tx (message msg) in
        IsKept h
          (if sent
            then record h { net = n }
            else record h { net = n; queue = enqueue h.queue t.utc id msg })
          t
          id
          msg
  send_IsKept h t id msg tx c = elim (Bool-cases (ch.send h.net tx (message msg)).1) [
    | inl e ↦ rw e (record {
      agents_same = refl;
      kept = inl (tx, c, ch.sent-send_ok h.net tx (message msg) e, refl);
    })
    | inr e ↦ rw e (queue_IsKept h _ t id msg (ch.send_err h.net tx (message msg) e))
  ]

  grpc_deliver-IsKept :
      (h : Hub re fl rand ch u) (t : Moment re fl rand ch u) (id : Text) (msg : Message x)
      → IsKept h (grpc_deliver re fl rand ch u json h t id msg) t id msg
  unfolding grpc_deliver try_send
  grpc_deliver-IsKept h t id msg = elim (Option-cases (channel_of re fl rand ch u json h id)) [
    | inl e ↦ rw (e, grpc_deliver) (queue_IsKept h h.net t id msg refl)
    | inr (tx, e) ↦ rw (e, grpc_deliver) (send_IsKept h t id msg tx e)
  ]

  deliver_or_queue-IsKept :
      (h : Hub re fl rand ch u) (t : Moment re fl rand ch u) (id : Text) (msg : Message x)
      → IsKept h (deliver_or_queue re fl rand ch u json h t id msg) t id msg
        ⊎ ((a : Agent x ch.Sender) × (get_agent h.agents id ≡ some a)
            × (a.tx ≡ none)
            × (deliver_or_queue re fl rand ch u json h t id msg ≡ h))
  unfolding deliver_or_queue send_or_queue
  deliver_or_queue-IsKept h t id msg = elim (Option-cases (get_agent h.agents id)) [
    | inl e ↦ inl (rw (e, deliver_or_queue) (queue_IsKept h h.net t id msg refl))
    | inr (a, e) ↦ elim (Option-cases a.tx) [
      | inl k ↦ inr (a, e, k, rw (e, k, deliver_or_queue) refl)
      | inr (tx, k) ↦ inl (
          rw (e, k, deliver_or_queue)
            (send_IsKept h t id msg tx (ap (tx_of re fl rand ch u json) e ∙ k)))
    ]
  ]

  -- A message for the namespace of an agent is kept by the handler of the binary protocol: the agent's
  -- channel takes it, or it waits in the agent's queue. The handler of `/msg` keeps it too, unless the
  -- agent is registered without a channel: then it changes nothing. The agent's id has no slash.
  pub handlers-IsKept :
      (h : Hub re fl rand ch u) (t : Moment re fl rand ch u) (id : Text) (msg : Message x)
      → has_slash id ≡ false
      → IsKept h (grpc_deliver_to re fl rand ch u json h t (net_prefix ++ id) msg) t id msg
        × (IsKept h
              (deliver_selected re fl rand ch u json h t (some (net_prefix ++ id)) msg)
              t
              id
              msg
            ⊎ ((a : Agent x ch.Sender) × (get_agent h.agents id ≡ some a)
                × (a.tx ≡ none)
                × (deliver_selected re fl rand ch u json h t (some (net_prefix ++ id)) msg ≡ h)))
  unfolding grpc_deliver_to deliver_selected
  handlers-IsKept h t id msg s =
      rw (target_agent-namespace id s, grpc_deliver_to, deliver_selected)
        (grpc_deliver-IsKept h t id msg, deliver_or_queue-IsKept h t id msg)
