-- ===== src/Daemon.antt =====
-- src/daemon.rs: the state that the HTTP handlers share, the handlers that change it, and the tasks in
-- the background. The bodies of the answers are the facts that they hold, not their JSON. The store is
-- what was handed to it; the decoders of the binary protocol are parameters.
pub mod Delivery
pub mod Files
pub mod Startup
pub mod Feedback
pub mod Upkeep
use xfiles.Prelude.{
  ℕ, ◌*◌, ◌%◌, ◌^◌, max, ◌⊎◌, inl, inr, Bool, true, false, Option, none, some, List, [], ◌∷◌, ◌++◌,
  if◌then◌else◌, ◌==◌, Text, text_eq, codes, Map,
}
use xfiles.Prelude.Ints.{pos, as_i64}
use xfiles.Prelude.Time.{Nanos}
use xfiles.Message.{Opaque, Message, ProtocolOp, message, MessageResponse, routed, FeedbackEvent}
use xfiles.Channel.{Channels}
use xfiles.Floats.{Floats, Random}
use xfiles.Agent.{Agent, AgentRegistry, unregister, stale_agents, get as get_agent}
use xfiles.Circuit.{CircuitBreaker, new as new_breaker}
use xfiles.Plumber.{Patterns}
use xfiles.Quantum.Router.{QuantumConfig, observe, tick, new as new_quantum}
use xfiles.Queue.{enqueue, prune_old}
use xfiles.Ai.Endpoints.{AiEndpoint}
use xfiles.Ai.Probe.{prune_offline}
use xfiles.Mcp.{Json, McpRegistry}
use xfiles.Router.{RoutingDecision, Shared, default_pipeline, route}
use xfiles.Grpc.{
  GrpcRequest, GrpcResponse, GrpcStatus, ok, invalid_argument, not_found, unimplemented,
}
use xfiles.Vfs.Vnode.{Utf8, is_dir, read}
use xfiles.Vfs.Registry.{get_node, write, list}
use xfiles.Transport.{Hub, Moment, target_agent, choose}

-- What a handler of the files answers, and its HTTP status.
pub data FsReply : Type 0 where
  listing : Text → List Text → FsReply
  contents : Text → Text → FsReply
  written : Text → FsReply
  refused : Text → Text → FsReply
  missing : Text → FsReply

abbrev pub status_code : FsReply → ℕ
status_code (listing path children) = 200
status_code (contents path text) = 200
status_code (written path) = 200
status_code (refused path err) = 400
status_code (missing path) = 404

abbrev pub is_some {ℓ} : {A : Type ℓ} → Option A → Bool
is_some none = false
is_some (some a) = true

abbrev pub or_stand_in {ℓ} : {A : Type ℓ} → A → Option A → A
or_stand_in a none = a
or_stand_in a (some b) = b

-- The new value, where there was one.
abbrev pub replace {ℓ} : {A : Type ℓ} → Option A → A → Option A
replace none a = none
replace (some b) a = some a

abbrev pub singleton? : Option Text → List Text
singleton? none = []
singleton? (some t) = t ∷ []

module _ {x : Opaque} (re : Patterns x) (fl : Floats) (rand : Random fl)
    (ch : Channels (ProtocolOp x)) (u : Utf8) (json : Json x) where
  -- `AppState` without the proxy and the keys; `transport` and the parts of the state manager that it
  -- shares are one hub.
  pub record AppState : Type 0 where
    pub hub : Hub re fl rand ch u
    pub circuit : Option CircuitBreaker
    pub mcp : McpRegistry x
    pub endpoints : Map Text (AiEndpoint x)
    pub quantum_config : QuantumConfig fl
    pub messages : List (Message x)  -- handed to the store
    pub feedback : List (FeedbackEvent x)  -- handed to the store

  -- The pipeline that `run` builds, on the shared breaker and quantum router; where one of them is
  -- disabled the pipeline has no stage that reads its stand-in.
  unfoldable pub route_message :
      AppState → Nanos → Moment re fl rand ch u → Message x → AppState × RoutingDecision
  route_message s now t msg =
      let stages =
        default_pipeline re fl rand json s.mcp s.hub.plumber (is_some s.hub.quantum)
          (is_some s.circuit) s.endpoints in
      let shared : Shared re fl rand json = record {
        circuit = or_stand_in (new_breaker 0 0 0) s.circuit;
        quantum = or_stand_in (new_quantum fl s.quantum_config) s.hub.quantum;
      } in
      let (shared', decision) =
        route re fl rand json stages shared (record { instant = now; utc = t.utc; rng = t.rng })
          msg in
      (
        record s {
          hub = record s.hub { quantum = replace s.hub.quantum shared'.quantum };
          circuit = replace s.circuit shared'.circuit;
        },
        decision,
      )

  -- The write to the channel of an agent; a message that it does not take is queued.
  unfoldable pub send_or_queue :
      Hub re fl rand ch u
      → Moment re fl rand ch u
      → Text
      → Option ch.Sender
      → Message x
      → Hub re fl rand ch u
  send_or_queue h t agent_id none msg = h
  send_or_queue h t agent_id (some tx) msg =
      let (net', sent) = ch.send h.net tx (message msg) in
      if sent
      then record h { net = net' }
      else record h { net = net'; queue = enqueue h.queue t.utc agent_id msg }

  unfoldable pub deliver_or_queue :
      Hub re fl rand ch u → Moment re fl rand ch u → Text → Message x → Hub re fl rand ch u
  unfolding send_or_queue
  deliver_or_queue h t agent_id msg = elim (get_agent h.agents agent_id) [
    | none ↦ record h { queue = enqueue h.queue t.utc agent_id msg }
    | some target ↦ send_or_queue h t agent_id target.tx msg
  ]

  unfoldable pub deliver_selected :
      Hub re fl rand ch u → Moment re fl rand ch u → Option Text → Message x → Hub re fl rand ch u
  unfolding deliver_or_queue
  deliver_selected h t none msg = h
  deliver_selected h t (some dest) msg = elim (target_agent dest) [
    | none ↦ h
    | some agent_id ↦ deliver_or_queue h t agent_id msg
  ]

  unfoldable pub msg_handler :
      AppState → Nanos → Moment re fl rand ch u → Message x → AppState × MessageResponse
  unfolding route_message deliver_selected
  msg_handler s now t msg =
      let (s', decision) =
        route_message (record s { messages = s.messages ++ msg ∷ [] }) now t msg in
      (
        record s' { hub = deliver_selected s'.hub t decision.selected msg },
        record {
          message_id = msg.id;
          status = routed;
          routed_to = singleton? decision.selected;
          explanation = some decision.explanation;
          latency_ms = 0;
        },
      )

  -- `get(target_agent).and_then(|t| t.tx).map(send).unwrap_or(false)`, with the channels.
  unfoldable pub try_send : Hub re fl rand ch u → Option ch.Sender → Message x → ch.Net × Bool
  try_send h none msg = (h.net, false)
  try_send h (some tx) msg = ch.send h.net tx (message msg)

  abbrev pub tx_of : Option (Agent x ch.Sender) → Option ch.Sender
  tx_of none = none
  tx_of (some target) = target.tx

  abbrev pub channel_of : Hub re fl rand ch u → Text → Option ch.Sender
  channel_of h agent_id = tx_of (get_agent h.agents agent_id)

  unfoldable pub grpc_deliver :
      Hub re fl rand ch u → Moment re fl rand ch u → Text → Message x → Hub re fl rand ch u
  unfolding try_send
  grpc_deliver h t agent_id msg =
      let (net', sent) = try_send h (channel_of h agent_id) msg in
      if sent
      then record h { net = net' }
      else record h { net = net'; queue = enqueue h.queue t.utc agent_id msg }

  unfoldable pub grpc_deliver_to :
      Hub re fl rand ch u → Moment re fl rand ch u → Text → Message x → Hub re fl rand ch u
  unfolding grpc_deliver
  grpc_deliver_to h t dest msg = elim (target_agent dest) [
    | none ↦ h
    | some agent_id ↦ grpc_deliver h t agent_id msg
  ]

  abbrev pub reply : GrpcStatus → List ℕ → GrpcResponse
  reply status body = record { status = status; headers = []; body = body; trailers = [] }

  unfoldable pub grpc_send :
      Hub re fl rand ch u → Moment re fl rand ch u → Message x → Hub re fl rand ch u × GrpcResponse
  unfolding grpc_deliver_to
  grpc_send h t msg =
      let (h', selected) = choose re fl rand ch u h t msg in
      elim selected [
        | none ↦ (h', reply not_found (u.as_bytes (codes "no route")))
        | some dest ↦ (grpc_deliver_to h' t dest msg, reply ok (u.as_bytes (codes "ok")))
      ]

  -- The HTTP status and the answer.
  module _ (decode_request : List ℕ → Text ⊎ GrpcRequest)
      (decode_message : List ℕ → Text ⊎ Message x) where
    unfoldable pub grpc_call :
        Hub re fl rand ch u
        → Moment re fl rand ch u
        → GrpcRequest
        → Hub re fl rand ch u × GrpcResponse
    unfolding grpc_send
    grpc_call h t req =
        let sent : Hub re fl rand ch u × GrpcResponse = elim (decode_message req.body) [
          | inl e ↦ (h, reply invalid_argument (u.as_bytes (codes "bad message: " ++ e)))
          | inr msg ↦ grpc_send h t msg
        ] in
        if req.method == codes "xfiles.Message/Send"
        then sent
        else (h, reply unimplemented (u.as_bytes (codes "unimplemented")))

    unfoldable pub grpc_handler :
        Hub re fl rand ch u
        → Moment re fl rand ch u
        → List ℕ
        → Hub re fl rand ch u × ℕ × GrpcResponse
    unfolding grpc_call
    grpc_handler h t body = elim (decode_request body) [
      | inl e ↦ (h, 400, reply invalid_argument (u.as_bytes (codes "decode error: " ++ e)))
      | inr req ↦ let (h', resp) = grpc_call h t req in (h', 200, resp)
    ]

  unfoldable pub fs_read_handler : Hub re fl rand ch u → Text → FsReply
  fs_read_handler h path = elim (get_node h.vfs path) [
    | none ↦ missing path
    | some node ↦
        if is_dir node
        then listing path (list h.vfs path)
        else contents path (u.from_utf8_lossy (read u node))
  ]

  -- The answer to a write, by the error that it gave.
  abbrev pub write_reply : Text → Option Text → FsReply
  write_reply path none = written path
  write_reply path (some err) = refused path err

  unfoldable pub write_file : Hub re fl rand ch u → Text → Text → Hub re fl rand ch u × FsReply
  write_file h path body = elim (write u h.vfs path (u.as_bytes body)) [
    | none ↦ (h, missing path)
    | some (vfs', err) ↦ (record h { vfs = vfs' }, write_reply path err)
  ]

  unfoldable pub fs_write_handler :
      Hub re fl rand ch u → Text → Text → Hub re fl rand ch u × FsReply
  unfolding write_file
  fs_write_handler h path body = elim (get_node h.vfs path) [
    | none ↦ (h, missing path)
    | some node ↦
        if is_dir node
        then (h, refused path (codes "cannot write to directory"))
        else write_file h path body
  ]

  -- The HTTP status is the second part.
  unfoldable pub quantum_feedback_handler : AppState → Nanos → FeedbackEvent x → AppState × ℕ
  quantum_feedback_handler s now event = elim s.hub.quantum [
    | none ↦ (s, 503)
    | some q ↦
        let (q', saved) =
          observe fl q now event.message_id event.endpoint_id event.success event.latency_ms in
        (
          record s {
            hub = record s.hub { quantum = some q' };
            feedback = s.feedback ++ event ∷ [];
          },
          200,
        )
  ]

  -- The tasks in the background, each at its tick. The interval is that of the configuration.
  abbrev pub stale_secs : ℕ → ℕ
  stale_secs heartbeat_interval_secs = max (2 * heartbeat_interval_secs % 2 ^ 64) 120

  unfoldable pub unregister_all : AgentRegistry x ch.Sender → List Text → AgentRegistry x ch.Sender
  unregister_all r [] = r
  unregister_all r (id ∷ ids) = unregister_all (unregister r id).0 ids

  unfoldable pub cleanup_agents : AgentRegistry x ch.Sender → Nanos → ℕ → AgentRegistry x ch.Sender
  unfolding unregister_all
  cleanup_agents r now heartbeat_interval_secs =
      unregister_all r (stale_agents r now (as_i64 (stale_secs heartbeat_interval_secs)))

  unfoldable pub prune_long_offline : AppState → Nanos → AppState
  prune_long_offline s now = record s { endpoints = (prune_offline s.endpoints now (pos 600)).0 }

  pub data Task : Type 0 where
    prune_endpoints quantum_maintenance heartbeat_cleanup queue_cleanup : Task

  unfoldable pub run_task : AppState → Nanos → ℕ → Task → AppState
  unfolding cleanup_agents prune_long_offline
  run_task s now interval prune_endpoints = prune_long_offline s now
  run_task s now interval quantum_maintenance = elim s.hub.quantum [
    | none ↦ s
    | some q ↦ record s { hub = record s.hub { quantum = some (tick fl q now) } }
  ]
  run_task s now interval heartbeat_cleanup = record s {
    hub = record s.hub { agents = cleanup_agents s.hub.agents now interval };
  }
  run_task s now interval queue_cleanup = record s {
    hub = record s.hub { queue = prune_old s.hub.queue now (pos 3600) };
  }
