-- ===== src/System/Visibility.antt =====
-- What the operations of connections and the handlers do to the nodes of src/fs/registry.rs.
use xfiles.Prelude.{
  ℕ, ◌≡◌, inl, inr, refl, ap, ◌∙◌, Option, none, some, List, Text, text_eq, Option-cases,
  Bool-cases,
}
use xfiles.Prelude.Maps.{get}
use xfiles.Message.{
  Opaque, Message, ProtocolOp, hello, heartbeat, message, response, feedback, fs_read, fs_write,
  fs_result, ack, nak, error,
}
use xfiles.Channel.{Channels}
use xfiles.Floats.{Floats, Random}
use xfiles.Agent.{get as get_agent}
use xfiles.Plumber.{Patterns}
use xfiles.Mcp.{Json}
use xfiles.Vfs.Vnode.{Utf8, is_dir}
use xfiles.Vfs.Registry.{VfsRegistry, get_node, write}
use xfiles.Transport.{
  Hub, Moment, target_agent, send_to, send_op, choose, deliver, deliver_to, handle_hello,
  handle_message, handle_fs_read, handle_fs_write, handle_op, from_agent, teardown, teardown_of,
}
use xfiles.Daemon.{
  send_or_queue, deliver_or_queue, deliver_selected, try_send, channel_of, grpc_deliver,
  grpc_deliver_to, grpc_send, write_file, fs_write_handler,
}
use xfiles.System.Nodes.{IsShrunk, write-IsShrunk}

module _ {x : Opaque} (re : Patterns x) (fl : Floats) (rand : Random fl)
    (ch : Channels (ProtocolOp x)) (u : Utf8) where
  pub vfs-deliver :
      (h : Hub re fl rand ch u) (t : Moment re fl rand ch u) (dest : Option Text) (msg : Message x)
      → (deliver re fl rand ch u h t dest msg).vfs ≡ h.vfs
  unfolding deliver deliver_to
  vfs-deliver h t none msg = refl
  vfs-deliver h t (some dest) msg = elim (Option-cases (target_agent dest)) [
    | inl e ↦ rw (e, deliver) refl
    | inr (id, e) ↦ elim (Option-cases (get_agent h.agents id)) [
      | inl g ↦ rw (e, deliver, g, deliver_to) refl
      | inr (a, g) ↦ rw (e, deliver, g, deliver_to) (to_channel a.tx)
    ]
  ]
    where
      to_channel : (tx : Option ch.Sender) → (send_to re fl rand ch u h tx msg).vfs ≡ h.vfs
      to_channel none = unfold send_to in refl
      to_channel (some tx) = unfold send_to in unfold send_op in refl

  handle_fs_read-same :
      (h : Hub re fl rand ch u) (tx : ch.Sender) (path : Text)
      → (handle_fs_read re fl rand ch u h tx path).vfs ≡ h.vfs
  unfolding handle_fs_read send_op
  handle_fs_read-same h tx path = elim (Option-cases (get_node h.vfs path)) [
    | inl e ↦ rw (e, handle_fs_read) refl
    | inr (node, e) ↦ rw (e, handle_fs_read) refl
  ]

  handle_fs_write-IsShrunk :
      (h : Hub re fl rand ch u) (tx : ch.Sender) (path : Text) (bytes : List ℕ)
      → IsShrunk h.vfs (handle_fs_write re fl rand ch u h tx path bytes).vfs
  unfolding handle_fs_write send_op
  handle_fs_write-IsShrunk h tx path bytes = elim (Option-cases (write u h.vfs path bytes)) [
    | inl e ↦ rw (e, handle_fs_write) (λ key n. n)
    | inr (r, e) ↦ rw (e, handle_fs_write) (write-IsShrunk u h.vfs r.0 path bytes r.1 e)
  ]

  pub same-IsShrunk : (r r' : VfsRegistry) → r' ≡ r → IsShrunk r r'
  same-IsShrunk r r' e key n = ap (λ v. get v.nodes key) e ∙ n

  pub handle_op-IsShrunk :
      (h : Hub re fl rand ch u) (t : Moment re fl rand ch u) (id : Text) (tx : ch.Sender)
      (op : ProtocolOp x)
      → IsShrunk h.vfs (handle_op re fl rand ch u h t id tx op).vfs
  unfolding handle_op handle_hello handle_message choose
  handle_op-IsShrunk h t id tx (hello manifest) = λ key n. n
  handle_op-IsShrunk h t id tx heartbeat = λ key n. n
  handle_op-IsShrunk h t id tx (message msg) =
      let c = choose re fl rand ch u h t (from_agent re fl rand ch u id msg) in
      same-IsShrunk h.vfs _ (vfs-deliver c.0 t c.1 (from_agent re fl rand ch u id msg))
  handle_op-IsShrunk h t id tx (fs_read path) =
      same-IsShrunk h.vfs _ (handle_fs_read-same h tx path)
  handle_op-IsShrunk h t id tx (fs_write path bytes) = handle_fs_write-IsShrunk h tx path bytes
  handle_op-IsShrunk h t id tx (ack j) = λ key n. n
  handle_op-IsShrunk h t id tx (nak j reason) = λ key n. n
  handle_op-IsShrunk h t id tx (response r) = λ key n. n
  handle_op-IsShrunk h t id tx (feedback f) = λ key n. n
  handle_op-IsShrunk h t id tx (fs_result path bytes err) = λ key n. n
  handle_op-IsShrunk h t id tx (error code text) = λ key n. n

  pub vfs-teardown :
      (h : Hub re fl rand ch u) (id : Text) (tx : ch.Sender)
      → (teardown re fl rand ch u h id tx).vfs ≡ h.vfs
  unfolding teardown teardown_of
  vfs-teardown h id tx = elim (Option-cases (get_agent h.agents id)) [
    | inl e ↦ rw (e, teardown) refl
    | inr (a, e) ↦ elim (Option-cases a.tx) [
      | inl k ↦ rw (e, teardown, k, teardown_of) refl
      | inr (stored, k) ↦ elim (Bool-cases (ch.same_channel stored tx)) [
        | inl s ↦ rw (e, teardown, k, teardown_of, s) refl
        | inr s ↦ rw (e, teardown, k, teardown_of, s) refl
      ]
    ]
  ]

  module _ (json : Json x) where
    vfs-send_or_queue :
        (h : Hub re fl rand ch u) (t : Moment re fl rand ch u) (id : Text) (tx : Option ch.Sender)
        (msg : Message x)
        → (send_or_queue re fl rand ch u json h t id tx msg).vfs ≡ h.vfs
    unfolding send_or_queue
    vfs-send_or_queue h t id none msg = refl
    vfs-send_or_queue h t id (some tx) msg = elim (Bool-cases (ch.send h.net tx (message msg)).1) [
      | inl e ↦ rw e refl
      | inr e ↦ rw e refl
    ]

    pub vfs-deliver_selected :
        (h : Hub re fl rand ch u) (t : Moment re fl rand ch u) (dest : Option Text)
        (msg : Message x)
        → (deliver_selected re fl rand ch u json h t dest msg).vfs ≡ h.vfs
    unfolding deliver_selected deliver_or_queue
    vfs-deliver_selected h t none msg = refl
    vfs-deliver_selected h t (some dest) msg = elim (Option-cases (target_agent dest)) [
      | inl e ↦ rw (e, deliver_selected) refl
      | inr (id, e) ↦ elim (Option-cases (get_agent h.agents id)) [
        | inl g ↦ rw (e, deliver_selected, g, deliver_or_queue) refl
        | inr (a, g) ↦
            rw (e, deliver_selected, g, deliver_or_queue) (vfs-send_or_queue h t id a.tx msg)
      ]
    ]

    vfs-grpc_deliver :
        (h : Hub re fl rand ch u) (t : Moment re fl rand ch u) (id : Text) (msg : Message x)
        → (grpc_deliver re fl rand ch u json h t id msg).vfs ≡ h.vfs
    unfolding grpc_deliver
    vfs-grpc_deliver h t id msg =
        elim (Bool-cases
          (try_send re fl rand ch u json h (channel_of re fl rand ch u json h id) msg).1) [
            | inl e ↦ rw (e, grpc_deliver) refl
            | inr e ↦ rw (e, grpc_deliver) refl
          ]

    pub vfs-grpc_send :
        (h : Hub re fl rand ch u) (t : Moment re fl rand ch u) (msg : Message x)
        → (grpc_send re fl rand ch u json h t msg).0.vfs ≡ h.vfs
    unfolding grpc_send grpc_deliver_to choose
    vfs-grpc_send h t msg =
        let c = choose re fl rand ch u h t msg in
        elim (Option-cases c.1) [
          | inl e ↦ rw (e, grpc_send) refl
          | inr (dest, e) ↦ elim (Option-cases (target_agent dest)) [
            | inl k ↦ rw (e, grpc_send, k, grpc_deliver_to) refl
            | inr (id, k) ↦ rw (e, grpc_send, k, grpc_deliver_to) (vfs-grpc_deliver c.0 t id msg)
          ]
        ]

    write_file-IsShrunk :
        (h : Hub re fl rand ch u) (path body : Text)
        → IsShrunk h.vfs (write_file re fl rand ch u json h path body).0.vfs
    unfolding write_file
    write_file-IsShrunk h path body = elim (Option-cases (write u h.vfs path (u.as_bytes body))) [
      | inl e ↦ rw (e, write_file) (λ key n. n)
      | inr (r, e) ↦ rw (e, write_file) (write-IsShrunk u h.vfs r.0 path (u.as_bytes body) r.1 e)
    ]

    pub fs_write_handler-IsShrunk :
        (h : Hub re fl rand ch u) (path body : Text)
        → IsShrunk h.vfs (fs_write_handler re fl rand ch u json h path body).0.vfs
    unfolding fs_write_handler
    fs_write_handler-IsShrunk h path body = elim (Option-cases (get_node h.vfs path)) [
      | inl e ↦ rw (e, fs_write_handler) (λ key n. n)
      | inr (node, e) ↦ elim (Bool-cases (is_dir node)) [
        | inl d ↦ rw (e, fs_write_handler, d) (λ key n. n)
        | inr d ↦ rw (e, fs_write_handler, d) (write_file-IsShrunk h path body)
      ]
    ]
