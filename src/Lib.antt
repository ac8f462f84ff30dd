-- ===== src/Lib.antt =====
-- The Xfiles hub (src/*.rs of the crate): agents connect over WebSockets and exchange messages, a file
-- system of virtual nodes shows the hub's state, and rules, a circuit breaker and a probabilistic router
-- pick the destination of a message among AI endpoints.
--
-- How the parts interact: a message comes to the plumber (src/plumber.rs), whose rules give the candidate
-- destinations. The pipeline (src/router.rs) sends a tool call to the endpoint that the index of tools
-- (src/mcp.rs) names; otherwise it filters the candidates by the circuit breaker (src/circuit.rs) and the
-- health of the endpoints (src/ai/endpoints.rs, kept by src/ai/probe.rs), and the quantum router
-- (src/quantum) or the fallback picks one. A message for an agent that is not connected waits in the
-- queue (src/queue.rs) and goes to its channel when it connects (src/agent.rs holds the agents). The
-- registry of nodes (src/fs) shows agents as directories. Agents come and go over connections
-- (src/net/transport.rs), whose operations change the hub; the handlers of the daemon (src/daemon.rs), of
-- the REST interface (src/api.rs) and of the proxy for chat completions (src/proxy.rs) change the same
-- state over HTTP, behind the keys (src/auth.rs) and the rate limiter (src/ratelimit.rs). Scans of ports
-- and containers (src/ai/discovery.rs, src/docker.rs) keep the table of endpoints, and tasks in the
-- background prune what is old.
--
-- Files and what they model:
--   Message       src/message.rs, src/net/protocol.rs: the envelope and the wire operations
--   Circuit       src/circuit.rs: CircuitBreaker with allow, record_success, record_failure, get_state
--   Queue         src/queue.rs: MessageQueue with enqueue, drain_to, prune_old, stats
--   Plumber       src/plumber.rs: add_rule, route, matches, load_from_config, list_rules
--   Vfs/Paths     src/fs/registry.rs: normalize, parent_path, child_name
--   Vfs/Vnode     src/fs/vnode.rs: the nodes, read and write
--   Vfs/Registry  src/fs/registry.rs: VfsRegistry, `get` as get_node, `remove` as remove_node
--   RateLimit     src/ratelimit.rs: RateLimiter::check and the middleware
--   Agent         src/agent.rs: AgentRegistry, `is_empty` as has_none
--   Ai/Endpoints  src/ai/endpoints.rs: the types, the parser, from_config
--   Ai/Probe      src/ai/probe.rs: probe_all, prune_offline
--   Mcp           src/mcp.rs: McpRegistry and McpClient
--   Quantum       src/quantum: State, Entanglement and Router as in the source
--   Router        src/router.rs: the stages as constructors, apply, route, default_pipeline
--   Transport     src/net/transport.rs: TransportState with the channels as Hub; handle_op by its branches,
--                 the loop of handle_socket as receive, its end as teardown
--   Daemon        src/daemon.rs: AppState and its handlers, the tasks of `run` as run_task
--   Api           src/api.rs: unregister_agent, vfs_delete, send_message, call_mcp_tool, ai_completions,
--                 orchestrate
--   Proxy         src/proxy.rs: chat_completions_handler cut at its early returns, ObservingStream
--   Discovery, Docker  src/ai/discovery.rs, src/docker.rs: scan and prune_stale
--   Config        src/config.rs: the types, the defaults, from_env
--   Daemon/Startup  src/daemon.rs: the state that `run` builds
--   System        the handlers, connections, scans and tasks as events on one state, and what it reaches
--   Namespace     src/namespace.rs: create_namespace, remove_namespace, resolve
--   Event, Tls    src/event.rs, src/tls.rs: the builders of events, to_tls_config
--   Auth          src/auth.rs: constant_time_eq, api_key_middleware, check_agent_token
--   Grpc          src/grpc.rs: the envelopes and the statuses
--   Channel, Floats  interfaces of other packages: the channels of tokio, f64 and rand
--   Prelude       Boolean tests, lists, maps, texts, clocks, integers
--   Tests         runs on concrete inputs, and each theorem at one input
--
-- Conventions: an operation on a shared object takes its state and returns the new one. A text is the
-- list of its code points; a map is an association list with one entry for a key, whose order stands for
-- the unspecified order of iteration. Clocks are arguments in nanoseconds. Counters of 32 and 64 bits
-- wrap. Locks of DashMap make each operation atomic; the locks of the lists of children, which the source
-- only tries, are a parameter of the registry. A handler runs as one step; the answers of other servers
-- are functions of the request. Loops are structural recursion; the only fuel is in
-- Router.decimal, which writes a number in at most as many digits as its successor counts, and in
-- Prelude.Numbers.digits, where five digits are enough for a port.
--
-- Not modelled: the HTTP server of the daemon, the handlers that only print the state or ask the store, the
-- emitter of events; the SQL store, telemetry, the set-up of TLS and the command line, which only call
-- other packages. Of the modelled files: Message::with_data and the frames' JSON, the request types of vnode.rs
-- and the response types of proxy.rs that nothing uses, Amplitude::normalize_all and the empty
-- load_from_store. Regular expressions, JSON values, HTTP, UTF-8, the binary encoding, Docker,
-- floating-point and random numbers are interfaces.
pub mod Prelude
pub mod Message
pub mod Channel
pub mod Circuit
pub mod Queue
pub mod Plumber
pub mod Vfs
pub mod Agent
pub mod Floats
pub mod Quantum
pub mod Mcp
pub mod Router
pub mod RateLimit
pub mod Ai
pub mod Transport
pub mod Grpc
pub mod Daemon
pub mod Auth
pub mod Proxy
pub mod Discovery
pub mod Docker
pub mod Api
pub mod Namespace
pub mod Event
pub mod Tls
pub mod Config
pub mod System
pub mod Tests
