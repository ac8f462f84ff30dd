-- ===== src/System/Hubs.antt =====
-- src/net/transport.rs and src/daemon.rs: the tables of the hub have one entry for a key, and no queue is
-- empty.
use xfiles.Prelude.{
  ℕ, ◌≡◌, inl, inr, subst, Bool, true, false, Option, none, some, List, if◌then◌else◌, Text,
  text_eq, Option-cases, Bool-cases,
}
use xfiles.Prelude.Maps.{get, IsMap, insert-IsMap, remove-IsMap, modify-IsMap}
use xfiles.Prelude.Time.{Nanos}
use xfiles.Message.{
  Opaque, Message, ProtocolOp, hello, heartbeat, message, response, feedback, fs_read, fs_write,
  fs_result, ack, nak, error,
}
use xfiles.Channel.{Channels}
use xfiles.Floats.{Floats, Random}
use xfiles.Agent.{AgentRegistry, register, unregister, heartbeat as beat, get as get_agent}
use xfiles.Plumber.{Patterns}
use xfiles.Queue.{enqueue}
use xfiles.Queue.Pruning.{IsClean, enqueue-IsClean, drain_to-IsClean}
use xfiles.Mcp.{Json}
use xfiles.Vfs.Paths.{normalize}
use xfiles.Vfs.Vnode.{Utf8, is_dir}
use xfiles.Vfs.Registry.{VfsRegistry, get_node, write}
use xfiles.Transport.{
  Hub, Moment, target_agent, send_to, send_op, choose, deliver, deliver_to, handle_hello,
  handle_message, handle_fs_read, handle_fs_write, handle_op, from_agent, teardown, teardown_of,
}
use xfiles.Daemon.{
  send_or_queue, deliver_or_queue, deliver_selected, try_send, channel_of, grpc_deliver,
  grpc_deliver_to, grpc_send, write_file, fs_write_handler,
}

abbrev IsMapped : Option (VfsRegistry × Option Text) → Type 0
IsMapped none = Unit
IsMapped (some (r, err)) = IsMap r.nodes

write-IsMapped :
    (u : Utf8) (r : VfsRegistry) (path : Text) (bytes : List ℕ)
    → IsMap r.nodes
    → IsMapped (write u r path bytes)
unfolding write
write-IsMapped u r path bytes m = elim (Option-cases (get r.nodes (normalize path))) [
  | inl e ↦ rw (e, write) tt
  | inr (node, e) ↦ rw (e, write) (modify-IsMap r.nodes (normalize path) _ m)
]

-- A write keeps one entry for a path.
write-IsMap :
    (u : Utf8) (r r' : VfsRegistry) (path : Text) (bytes : List ℕ) (err : Option Text)
    → write u r path bytes ≡ some (r', err)
    → IsMap r.nodes
    → IsMap r'.nodes
write-IsMap u r r' path bytes err h m = subst IsMapped h (write-IsMapped u r path bytes m)

module _ {x : Opaque} (re : Patterns x) (fl : Floats) (rand : Random fl)
    (ch : Channels (ProtocolOp x)) (u : Utf8) where
  pub record IsHub (h : Hub re fl rand ch u) : Type 0 where
    pub agents_map : IsMap h.agents.agents
    pub nodes_map : IsMap h.vfs.nodes
    pub clean : IsClean h.queue

  -- The parts that the channels, the rules and the weights do not touch.
  enqueue-IsHub :
      (h : Hub re fl rand ch u) (n : ch.Net) (now : Nanos) (id : Text) (msg : Message x)
      → IsHub h
      → IsHub (record h { net = n; queue = enqueue h.queue now id msg })
  enqueue-IsHub h n now id msg i = record {
    agents_map = i.agents_map;
    nodes_map = i.nodes_map;
    clean = enqueue-IsClean h.queue now id msg i.clean;
  }

  net-IsHub : (h : Hub re fl rand ch u) (n : ch.Net) → IsHub h → IsHub (record h { net = n })
  net-IsHub h n i = record { agents_map = i.agents_map; nodes_map = i.nodes_map; clean = i.clean }

  send_to-IsHub :
      (h : Hub re fl rand ch u) (tx : Option ch.Sender) (msg : Message x)
      → IsHub h
      → IsHub (send_to re fl rand ch u h tx msg)
  unfolding send_to send_op
  send_to-IsHub h none msg i = i
  send_to-IsHub h (some tx) msg i = net-IsHub h _ i

  pub deliver-IsHub :
      (h : Hub re fl rand ch u) (t : Moment re fl rand ch u) (dest : Option Text) (msg : Message x)
      → IsHub h
      → IsHub (deliver re fl rand ch u h t dest msg)
  unfolding deliver deliver_to
  deliver-IsHub h t none msg i = i
  deliver-IsHub h t (some dest) msg i = elim (Option-cases (target_agent dest)) [
    | inl e ↦ rw (e, deliver) i
    | inr (id, e) ↦ elim (Option-cases (get_agent h.agents id)) [
      | inl g ↦ rw (e, deliver, g, deliver_to) (enqueue-IsHub h h.net t.utc id msg i)
      | inr (a, g) ↦ rw (e, deliver, g, deliver_to) (send_to-IsHub h a.tx msg i)
    ]
  ]

  handle_fs_read-IsHub :
      (h : Hub re fl rand ch u) (tx : ch.Sender) (path : Text)
      → IsHub h
      → IsHub (handle_fs_read re fl rand ch u h tx path)
  unfolding handle_fs_read send_op
  handle_fs_read-IsHub h tx path i = elim (Option-cases (get_node h.vfs path)) [
    | inl e ↦ rw (e, handle_fs_read) (net-IsHub h _ i)
    | inr (node, e) ↦ rw (e, handle_fs_read) (net-IsHub h _ i)
  ]

  vfs-IsHub :
      (h : Hub re fl rand ch u) (vfs' : VfsRegistry)
      → IsHub h
      → IsMap vfs'.nodes
      → IsHub (record h { vfs = vfs' })
  vfs-IsHub h vfs' i m = record { agents_map = i.agents_map; nodes_map = m; clean = i.clean }

  handle_fs_write-IsHub :
      (h : Hub re fl rand ch u) (tx : ch.Sender) (path : Text) (bytes : List ℕ)
      → IsHub h
      → IsHub (handle_fs_write re fl rand ch u h tx path bytes)
  unfolding handle_fs_write send_op
  handle_fs_write-IsHub h tx path bytes i = elim (Option-cases (write u h.vfs path bytes)) [
    | inl e ↦ rw (e, handle_fs_write) (net-IsHub h _ i)
    | inr (r, e) ↦
        rw (e, handle_fs_write)
          (net-IsHub (record h { vfs = r.0 }) _
            (vfs-IsHub h r.0 i (write-IsMap u h.vfs r.0 path bytes r.1 e i.nodes_map)))
  ]

  agents-IsHub :
      (h : Hub re fl rand ch u) (r : AgentRegistry x ch.Sender)
      → IsHub h
      → IsMap r.agents
      → IsHub (record h { agents = r })
  agents-IsHub h r i m = record { agents_map = m; nodes_map = i.nodes_map; clean = i.clean }

  pub handle_op-IsHub :
      (h : Hub re fl rand ch u) (t : Moment re fl rand ch u) (id : Text) (tx : ch.Sender)
      (op : ProtocolOp x)
      → IsHub h
      → IsHub (handle_op re fl rand ch u h t id tx op)
  unfolding handle_op handle_hello handle_message choose register beat
  handle_op-IsHub h t id tx (hello manifest) i = record {
    agents_map = insert-IsMap h.agents.agents id _ i.agents_map;
    nodes_map = i.nodes_map;
    clean = drain_to-IsClean ch h.queue h.net id tx i.clean;
  }
  handle_op-IsHub h t id tx heartbeat i =
      agents-IsHub h _ i (modify-IsMap h.agents.agents id _ i.agents_map)
  handle_op-IsHub h t id tx (message msg) i =
      let c = choose re fl rand ch u h t (from_agent re fl rand ch u id msg) in
      deliver-IsHub c.0 t c.1 (from_agent re fl rand ch u id msg)
        (record { agents_map = i.agents_map; nodes_map = i.nodes_map; clean = i.clean })
  handle_op-IsHub h t id tx (fs_read path) i = handle_fs_read-IsHub h tx path i
  handle_op-IsHub h t id tx (fs_write path bytes) i = handle_fs_write-IsHub h tx path bytes i
  handle_op-IsHub h t id tx (ack j) i = i
  handle_op-IsHub h t id tx (nak j reason) i = i
  handle_op-IsHub h t id tx (response r) i = i
  handle_op-IsHub h t id tx (feedback f) i = i
  handle_op-IsHub h t id tx (fs_result path bytes err) i = i
  handle_op-IsHub h t id tx (error code text) i = i

  pub teardown-IsHub :
      (h : Hub re fl rand ch u) (id : Text) (tx : ch.Sender)
      → IsHub h
      → IsHub (teardown re fl rand ch u h id tx)
  unfolding teardown teardown_of unregister
  teardown-IsHub h id tx i = elim (Option-cases (get_agent h.agents id)) [
    | inl e ↦ rw (e, teardown) i
    | inr (a, e) ↦ elim (Option-cases a.tx) [
      | inl k ↦ rw (e, teardown, k, teardown_of) i
      | inr (stored, k) ↦ elim (Bool-cases (ch.same_channel stored tx)) [
        | inl s ↦
            rw (e, teardown, k, teardown_of, s)
              (agents-IsHub h (unregister h.agents id).0 i
                (remove-IsMap h.agents.agents id i.agents_map))
        | inr s ↦ rw (e, teardown, k, teardown_of, s) i
      ]
    ]
  ]

  module _ (json : Json x) where
    queued-IsHub :
        (h : Hub re fl rand ch u) (b : Bool) (n : ch.Net) (now : Nanos) (id : Text)
        (msg : Message x)
        → IsHub h
        → IsHub (
            if b
            then record h { net = n }
            else record h { net = n; queue = enqueue h.queue now id msg })
    queued-IsHub h true n now id msg i = net-IsHub h n i
    queued-IsHub h false n now id msg i = enqueue-IsHub h n now id msg i

    send_or_queue-IsHub :
        (h : Hub re fl rand ch u) (t : Moment re fl rand ch u) (id : Text) (tx : Option ch.Sender)
        (msg : Message x)
        → IsHub h
        → IsHub (send_or_queue re fl rand ch u json h t id tx msg)
    unfolding send_or_queue
    send_or_queue-IsHub h t id none msg i = i
    send_or_queue-IsHub h t id (some tx) msg i =
        queued-IsHub h (ch.send h.net tx (message msg)).1 (ch.send h.net tx (message msg)).0 t.utc
          id msg i

    pub deliver_selected-IsHub :
        (h : Hub re fl rand ch u) (t : Moment re fl rand ch u) (dest : Option Text)
        (msg : Message x)
        → IsHub h
        → IsHub (deliver_selected re fl rand ch u json h t dest msg)
    unfolding deliver_selected deliver_or_queue
    deliver_selected-IsHub h t none msg i = i
    deliver_selected-IsHub h t (some dest) msg i = elim (Option-cases (target_agent dest)) [
      | inl e ↦ rw (e, deliver_selected) i
      | inr (id, e) ↦ elim (Option-cases (get_agent h.agents id)) [
        | inl g ↦
            rw (e, deliver_selected, g, deliver_or_queue) (enqueue-IsHub h h.net t.utc id msg i)
        | inr (a, g) ↦
            rw (e, deliver_selected, g, deliver_or_queue) (send_or_queue-IsHub h t id a.tx msg i)
      ]
    ]

    grpc_deliver-IsHub :
        (h : Hub re fl rand ch u) (t : Moment re fl rand ch u) (dest : Text) (msg : Message x)
        → IsHub h
        → IsHub (grpc_deliver_to re fl rand ch u json h t dest msg)
    unfolding grpc_deliver_to grpc_deliver
    grpc_deliver-IsHub h t dest msg i = elim (Option-cases (target_agent dest)) [
      | inl e ↦ rw (e, grpc_deliver_to) i
      | inr (id, e) ↦
          rw (e, grpc_deliver_to)
            (queued-IsHub h
              (try_send re fl rand ch u json h (channel_of re fl rand ch u json h id) msg).1
              (try_send re fl rand ch u json h (channel_of re fl rand ch u json h id) msg).0 t.utc
              id msg i)
    ]

    pub grpc_send-IsHub :
        (h : Hub re fl rand ch u) (t : Moment re fl rand ch u) (msg : Message x)
        → IsHub h
        → IsHub (grpc_send re fl rand ch u json h t msg).0
    unfolding grpc_send choose
    grpc_send-IsHub h t msg i =
        let h' = (choose re fl rand ch u h t msg).0 in
        let i' : IsHub h' = record {
          agents_map = i.agents_map;
          nodes_map = i.nodes_map;
          clean = i.clean;
        } in
        elim (Option-cases (choose re fl rand ch u h t msg).1) [
          | inl e ↦ rw (e, grpc_send) i'
          | inr (dest, e) ↦ rw (e, grpc_send) (grpc_deliver-IsHub h' t dest msg i')
        ]

    write_file-IsHub :
        (h : Hub re fl rand ch u) (path body : Text)
        → IsHub h
        → IsHub (write_file re fl rand ch u json h path body).0
    unfolding write_file
    write_file-IsHub h path body i = elim (Option-cases (write u h.vfs path (u.as_bytes body))) [
      | inl e ↦ rw (e, write_file) i
      | inr (r, e) ↦
          rw (e, write_file)
            (vfs-IsHub h r.0 i (write-IsMap u h.vfs r.0 path (u.as_bytes body) r.1 e i.nodes_map))
    ]

    pub fs_write_handler-IsHub :
        (h : Hub re fl rand ch u) (path body : Text)
        → IsHub h
        → IsHub (fs_write_handler re fl rand ch u json h path body).0
    unfolding fs_write_handler
    fs_write_handler-IsHub h path body i = elim (Option-cases (get_node h.vfs path)) [
      | inl e ↦ rw (e, fs_write_handler) i
      | inr (node, e) ↦ elim (Bool-cases (is_dir node)) [
        | inl d ↦ rw (e, fs_write_handler, d) i
        | inr d ↦ rw (e, fs_write_handler, d) (write_file-IsHub h path body i)
      ]
    ]
