-- ===== src/Transport.antt =====
-- src/net/transport.rs: what an agent's WebSocket connection does to the hub. The frames that come are a
-- sequence, each with the moment at which it is handled; the parser of frames is a parameter.
pub mod Delivery
pub mod Frames
pub mod Sessions
use xfiles.Prelude.{
  ℕ, ◌++◌, ◌⊎◌, inl, inr, Option, none, some, List, [], ◌∷◌, first, get_elem?, if◌then◌else◌, Text,
  text_eq, codes,
}
use xfiles.Prelude.Texts.{starts_with}
use xfiles.Prelude.Time.{Nanos}
use xfiles.Message.{
  Opaque, Message, Uuid, ProtocolOp, CapabilityManifest, hello, heartbeat, message, response,
  feedback, fs_read, fs_write, fs_result, ack, nak, error,
}
use xfiles.Channel.{Channels}
use xfiles.Floats.{Floats, Random}
use xfiles.Agent.{Agent, AgentRegistry, register, unregister, heartbeat as beat, get as get_agent}
use xfiles.Plumber.{Patterns, Plumber, route as route_by_rules}
use xfiles.Quantum.Router.{QuantumRouter, route as route_by_weight}
use xfiles.Queue.{MessageQueue, enqueue, drain_to}
use xfiles.Vfs.Paths.{split}
use xfiles.Vfs.Vnode.{Utf8, read}
use xfiles.Vfs.Registry.{VfsRegistry, get_node, write, net_prefix}

-- The agent that a destination names: its third part, if it is a path below `/net/`.
unfoldable pub target_agent : Text → Option Text
target_agent dest =
    let third = get_elem? (split dest) 2 in if starts_with net_prefix dest then third else none

abbrev pub not_found : Text
not_found = codes "not found"

abbrev pub mcp_tool_call : Text
mcp_tool_call = codes "mcp_tool_call"

module _ {x : Opaque} (re : Patterns x) (fl : Floats) (rand : Random fl)
    (ch : Channels (ProtocolOp x)) (u : Utf8) where
  open ch use {Sender, Net, send, same_channel}

  -- `TransportState`, and the channels to the agents.
  pub record Hub : Type 0 where
    pub agents : AgentRegistry x Sender
    pub vfs : VfsRegistry
    pub plumber : Plumber re
    pub quantum : Option (QuantumRouter fl)
    pub queue : MessageQueue x
    pub net : Net

  -- The clock, the random numbers and the random id of a step.
  pub record Moment : Type 0 where
    pub utc : Nanos
    pub rng : rand.Rng
    pub uuid : Uuid

  -- `let _ = tx.send(op)`
  unfoldable pub send_op : Hub → Sender → ProtocolOp x → Hub
  send_op h tx op = record h { net = (send h.net tx op).0 }

  -- The quantum router's choice, and without one the first destination.
  unfoldable pub choose_by :
      Option (QuantumRouter fl)
      → Moment
      → Message x
      → List Text
      → Option (QuantumRouter fl) × Option Text
  choose_by none t msg destinations = (none, first destinations)
  choose_by (some q) t msg destinations =
      let (q', choice) = route_by_weight fl rand q t.utc t.rng msg destinations in (some q', choice)

  unfoldable pub choose : Hub → Moment → Message x → Hub × Option Text
  unfolding choose_by
  choose h t msg =
      let (q', choice) = choose_by h.quantum t msg (route_by_rules re h.plumber msg) in
      (record h { quantum = q' }, choice)

  unfoldable pub send_to : Hub → Option Sender → Message x → Hub
  unfolding send_op
  send_to h none msg = h
  send_to h (some tx) msg = send_op h tx (message msg)

  -- The write to an agent's channel, or to its queue where it is not registered.
  unfoldable pub deliver_to : Hub → Moment → Text → Message x → Hub
  unfolding send_to
  deliver_to h t agent_id msg = elim (get_agent h.agents agent_id) [
    | none ↦ record h { queue = enqueue h.queue t.utc agent_id msg }
    | some target ↦ send_to h target.tx msg
  ]

  unfoldable pub deliver : Hub → Moment → Option Text → Message x → Hub
  unfolding deliver_to
  deliver h t none msg = h
  deliver h t (some dest) msg = elim (target_agent dest) [
    | none ↦ h
    | some agent_id ↦ deliver_to h t agent_id msg
  ]

  -- The agent that `Hello` registers.
  abbrev pub new_agent : Moment → Text → Sender → CapabilityManifest x → Agent x Sender
  new_agent t agent_id tx manifest = record {
    id = agent_id;
    uuid = t.uuid;
    hostname = manifest.hostname;
    namespace = net_prefix ++ agent_id;
    manifest = manifest;
    connected_at = t.utc;
    last_heartbeat = t.utc;
    tx = some tx;
  }

  -- The branch for `Hello`.
  unfoldable pub handle_hello : Hub → Moment → Text → Sender → CapabilityManifest x → Hub
  handle_hello h t agent_id tx manifest =
      let (queue', net', _) = drain_to ch h.queue h.net agent_id tx in
      record h {
        agents = register h.agents (new_agent t agent_id tx manifest);
        queue = queue';
        net = net';
      }

  -- The message with the sender that the connection stands for.
  abbrev pub from_agent : Text → Message x → Message x
  from_agent agent_id msg = record msg { sender = agent_id; sender_ns = net_prefix ++ agent_id }

  -- The branch for `Message`; the two arms of the source's test for tool calls are the same.
  unfoldable pub handle_message : Hub → Moment → Text → Message x → Hub
  unfolding choose deliver
  handle_message h t agent_id msg =
      let (h', final_dest) = choose h t (from_agent agent_id msg) in
      deliver h' t final_dest (from_agent agent_id msg)

  unfoldable pub handle_fs_read : Hub → Sender → Text → Hub
  unfolding send_op
  handle_fs_read h tx path = elim (get_node h.vfs path) [
    | none ↦ send_op h tx (fs_result path none (some not_found))
    | some node ↦ send_op h tx (fs_result path (some (read u node)) none)
  ]

  unfoldable pub handle_fs_write : Hub → Sender → Text → List ℕ → Hub
  unfolding send_op
  handle_fs_write h tx path bytes = elim (write u h.vfs path bytes) [
    | none ↦ send_op h tx (fs_result path none (some not_found))
    | some (vfs', err) ↦ send_op (record h { vfs = vfs' }) tx (fs_result path none err)
  ]

  unfoldable pub handle_op : Hub → Moment → Text → Sender → ProtocolOp x → Hub
  unfolding handle_hello handle_message handle_fs_read handle_fs_write
  handle_op h t agent_id tx (hello manifest) = handle_hello h t agent_id tx manifest
  handle_op h t agent_id tx heartbeat = record h { agents = beat h.agents t.utc agent_id }
  handle_op h t agent_id tx (message msg) = handle_message h t agent_id msg
  handle_op h t agent_id tx (fs_read path) = handle_fs_read h tx path
  handle_op h t agent_id tx (fs_write path bytes) = handle_fs_write h tx path bytes
  handle_op h t agent_id tx (ack id) = h
  handle_op h t agent_id tx (nak id reason) = h
  handle_op h t agent_id tx (response r) = h
  handle_op h t agent_id tx (feedback f) = h
  handle_op h t agent_id tx (fs_result path content err) = h
  handle_op h t agent_id tx (error code text) = h

  -- What the socket gives: a text, a close, a frame of another kind, or an error. The end of the
  -- sequence is the end of the socket.
  pub data WsMessage : Type 0 where
    text : Text → WsMessage
    close : WsMessage
    other : WsMessage
    failed : WsMessage

  -- The agent leaves the registry only if its channel is that of this connection.
  unfoldable pub teardown_of : Hub → Text → Sender → Option (Agent x Sender) → Hub
  teardown_of h agent_id tx none = h
  teardown_of h agent_id tx (some a) = elim a.tx [
    | none ↦ h
    | some stored ↦
        if same_channel stored tx then record h { agents = (unregister h.agents agent_id).0 } else h
  ]

  unfoldable pub teardown : Hub → Text → Sender → Hub
  unfolding teardown_of
  teardown h agent_id tx = teardown_of h agent_id tx (get_agent h.agents agent_id)

  -- `parse_frame` gives an operation or the text of an error.
  module _ (parse_frame : Text → Text ⊎ ProtocolOp x) where
    unfoldable pub handle_text : Hub → Moment → Text → Sender → Text → Hub
    unfolding handle_op send_op
    handle_text h t agent_id tx frame = elim (parse_frame frame) [
      | inl e ↦ send_op h tx (error (codes "parse_error") e)
      | inr op ↦ handle_op h t agent_id tx op
    ]

    unfoldable pub receive : Hub → Text → Sender → List (Moment × WsMessage) → Hub
    unfolding handle_text
    receive h agent_id tx [] = h
    receive h agent_id tx ((t, text frame) ∷ frames) =
        receive (handle_text h t agent_id tx frame) agent_id tx frames
    receive h agent_id tx ((t, close) ∷ frames) = h
    receive h agent_id tx ((t, other) ∷ frames) = receive h agent_id tx frames
    receive h agent_id tx ((t, failed) ∷ frames) = h

    unfoldable pub handle_socket : Hub → Text → Sender → List (Moment × WsMessage) → Hub
    unfolding receive teardown
    handle_socket h agent_id tx frames = teardown (receive h agent_id tx frames) agent_id tx
