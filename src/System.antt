-- ===== src/System.antt =====
-- src/daemon.rs, src/api.rs, src/net/transport.rs and the scans together: what happens to the state of the
-- program, one event at a time, from its start-up on.
pub mod Hubs
pub mod Endpoints
pub mod Invariant
pub mod Agents
pub mod Nodes
pub mod Visibility
use xfiles.Prelude.{ℕ, ◌⊎◌, ◌≡◌, Bool, Option, some, List, Text, Map}
use xfiles.Prelude.Time.{Nanos}
use xfiles.Message.{Opaque, Message, ProtocolOp, FeedbackEvent}
use xfiles.Channel.{Channels}
use xfiles.Floats.{Floats, Random}
use xfiles.Plumber.{Patterns}
use xfiles.Mcp.{Json, McpManifest}
use xfiles.Vfs.Vnode.{Utf8}
use xfiles.Ai.Probe.{Answer, probe_all}
use xfiles.Transport.{Moment, handle_op, teardown}
use xfiles.Proxy.{Moment as Arrival, Upstream, ChatCompletionRequest}
use xfiles.Discovery.{scan}
use xfiles.Docker.{Container, scan as scan_containers}
use xfiles.Config.{Config}
use xfiles.Daemon.{
  AppState, Task, run_task, msg_handler, grpc_send, fs_write_handler, quantum_feedback_handler,
}
use xfiles.Daemon.Startup.{startup}
use xfiles.Api.{unregister_agent, vfs_delete, send_message, ai_completions}

module _ {x : Opaque} (re : Patterns x) (fl : Floats) (rand : Random fl)
    (ch : Channels (ProtocolOp x)) (u : Utf8) (json : Json x) where
  -- An operation of a connection and its end; the handlers; the tasks in the background.
  pub data Event : Type 0 where
    operated : Moment re fl rand ch u → Text → ch.Sender → ProtocolOp x → Event
    ended : Text → ch.Sender → Event
    posted sent : Nanos → Moment re fl rand ch u → Message x → Event
    called : Moment re fl rand ch u → Message x → Event
    wrote : Text → Text → Event
    deleted : (Text → Bool) → Text → Event
    unregistered : (Text → Bool) → Text → Event
    rated : Nanos → FeedbackEvent x → Event
    completed :
        Upstream x → Text → Map Text Text → Arrival fl rand → ChatCompletionRequest x → Event
    ticked : Nanos → ℕ → Task re fl rand ch u json → Event
    probed : (Text → Answer × ℕ × Nanos) → Event
    scanned : x.F64 → (Text → Option ℕ) → Nanos → List ℕ → Event
    scanned_containers : x.F64 → Nanos → Text ⊎ List Container → Event

  unfoldable pub step : AppState re fl rand ch u json → Event → AppState re fl rand ch u json
  step s (operated t id tx op) = record s { hub = handle_op re fl rand ch u s.hub t id tx op }
  step s (ended id tx) = record s { hub = teardown re fl rand ch u s.hub id tx }
  step s (posted now t msg) = (msg_handler re fl rand ch u json s now t msg).0
  step s (sent now t msg) = (send_message re fl rand ch u json s now t msg).0
  step s (called t msg) = record s { hub = (grpc_send re fl rand ch u json s.hub t msg).0 }
  step s (wrote path body) = record s {
    hub = (fs_write_handler re fl rand ch u json s.hub path body).0;
  }
  step s (deleted locks path) = (vfs_delete re fl rand ch u json locks s path).0
  step s (unregistered locks id) = unregister_agent re fl rand ch u json locks s id
  step s (rated now event) = (quantum_feedback_handler re fl rand ch u json s now event).0
  step s (completed up model aliases t req) =
      (ai_completions re fl rand ch u json up model aliases s t req).0
  step s (ticked now interval task) = run_task re fl rand ch u json s now interval task
  step s (probed probe) = record s { endpoints = probe_all probe s.endpoints }
  step s (scanned one fetch now ports) = record s {
    endpoints = scan one fetch s.endpoints now ports;
  }
  step s (scanned_containers one now listed) = record s {
    endpoints = scan_containers one s.endpoints now listed;
  }

  -- The states that the program reaches.
  pub data Reaches (Addr : Type 0) : AppState re fl rand ch u json → Type 0 where
    started :
        (cfg : Config x fl Addr) (locks : Text → Bool) (now : Nanos) (uuid : ℕ → Text)
        (fetch : Text → Text ⊎ McpManifest x) (net : ch.Net) (s : AppState re fl rand ch u json)
        → startup re fl rand ch u json cfg locks now uuid fetch net ≡ some s
        → Reaches Addr s
    stepped :
        (s : AppState re fl rand ch u json) (e : Event) → Reaches Addr s → Reaches Addr (step s e)
