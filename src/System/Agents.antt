-- ===== src/System/Agents.antt =====
-- src/daemon.rs: what the file system shows of the agents. `mount_agent_ns` of src/fs/registry.rs makes the
-- namespace of an agent, but no event of the program calls it.
use xfiles.Prelude.{
  ℕ, ◌≡◌, ◌⊎◌, inl, inr, refl, subst, Bool, true, false, Option, none, some, if◌then◌else◌, Text,
  text_eq, Option-cases,
}
use xfiles.Prelude.Texts.{starts_with}
use xfiles.Prelude.Time.{Nanos}
use xfiles.Message.{Opaque, ProtocolOp, FeedbackEvent}
use xfiles.Channel.{Channels}
use xfiles.Floats.{Floats, Random}
use xfiles.Plumber.{Patterns}
use xfiles.Mcp.{Json, McpManifest}
use xfiles.Vfs.Paths.{normalize}
use xfiles.Vfs.Vnode.{Utf8}
use xfiles.Vfs.Registry.{get_node, net_prefix}
use xfiles.Config.{Config}
use xfiles.Daemon.{
  AppState, Task, prune_endpoints, quantum_maintenance, heartbeat_cleanup, queue_cleanup, run_task,
  prune_long_offline, route_message, msg_handler, quantum_feedback_handler,
}
use xfiles.Daemon.Startup.{startup}
use xfiles.Api.{unregister_agent, vfs_delete, send_message, ai_completions}
use xfiles.System.{
  Event, operated, ended, posted, sent, called, wrote, deleted, unregistered, rated, completed,
  ticked, probed, scanned, scanned_containers, step, Reaches, started, stepped,
}
use xfiles.System.Nodes.{
  IsShrunk, HasNoAgent, remove_node-IsShrunk, unmount_agent_ns-IsShrunk, new-HasNoAgent,
}
use xfiles.System.Visibility.{
  handle_op-IsShrunk, same-IsShrunk, vfs-deliver, vfs-teardown, vfs-deliver_selected, vfs-grpc_send,
  fs_write_handler-IsShrunk,
}

module _ {x : Opaque} (re : Patterns x) (fl : Floats) (rand : Random fl)
    (ch : Channels (ProtocolOp x)) (u : Utf8) (json : Json x) where
  vfs-run_task :
      (s : AppState re fl rand ch u json) (now : Nanos) (interval : ℕ)
      (task : Task re fl rand ch u json)
      → (run_task re fl rand ch u json s now interval task).hub.vfs ≡ s.hub.vfs
  unfolding run_task prune_long_offline
  vfs-run_task s now interval prune_endpoints = refl
  vfs-run_task s now interval quantum_maintenance = elim (Option-cases s.hub.quantum) [
    | inl e ↦ rw (e, run_task) refl
    | inr (q, e) ↦ rw (e, run_task) refl
  ]
  vfs-run_task s now interval heartbeat_cleanup = refl
  vfs-run_task s now interval queue_cleanup = refl

  vfs-feedback :
      (s : AppState re fl rand ch u json) (now : Nanos) (event : FeedbackEvent x)
      → (quantum_feedback_handler re fl rand ch u json s now event).0.hub.vfs ≡ s.hub.vfs
  unfolding quantum_feedback_handler
  vfs-feedback s now event = elim (Option-cases s.hub.quantum) [
    | inl e ↦ rw (e, quantum_feedback_handler) refl
    | inr (q, e) ↦ rw (e, quantum_feedback_handler) refl
  ]

  step-IsShrunk :
      (s : AppState re fl rand ch u json) (e : Event re fl rand ch u json)
      → IsShrunk s.hub.vfs (step re fl rand ch u json s e).hub.vfs
  unfolding step msg_handler send_message route_message vfs_delete unregister_agent ai_completions
  step-IsShrunk s (operated t id tx op) = handle_op-IsShrunk re fl rand ch u s.hub t id tx op
  step-IsShrunk s (ended id tx) =
      same-IsShrunk re fl rand ch u s.hub.vfs _ (vfs-teardown re fl rand ch u s.hub id tx)
  step-IsShrunk s (posted now t msg) =
      same-IsShrunk re fl rand ch u s.hub.vfs _
        (vfs-deliver_selected re fl rand ch u json _ t _ msg)
  step-IsShrunk s (sent now t msg) =
      same-IsShrunk re fl rand ch u s.hub.vfs _ (vfs-deliver re fl rand ch u _ t _ msg)
  step-IsShrunk s (called t msg) =
      same-IsShrunk re fl rand ch u s.hub.vfs _ (vfs-grpc_send re fl rand ch u json s.hub t msg)
  step-IsShrunk s (wrote path body) = fs_write_handler-IsShrunk re fl rand ch u json s.hub path body
  step-IsShrunk s (deleted locks path) = remove_node-IsShrunk locks s.hub.vfs path
  step-IsShrunk s (unregistered locks id) = unmount_agent_ns-IsShrunk locks s.hub.vfs id
  step-IsShrunk s (rated now event) =
      same-IsShrunk re fl rand ch u s.hub.vfs _ (vfs-feedback s now event)
  step-IsShrunk s (completed up model aliases t req) = λ key n. n
  step-IsShrunk s (ticked now interval task) =
      same-IsShrunk re fl rand ch u s.hub.vfs _ (vfs-run_task s now interval task)
  step-IsShrunk s (probed probe) = λ key n. n
  step-IsShrunk s (scanned one fetch now ports) = λ key n. n
  step-IsShrunk s (scanned_containers one now listed) = λ key n. n

  abbrev Starts : Option (AppState re fl rand ch u json) → Type 0
  Starts none = Unit
  Starts (some s) = HasNoAgent s.hub.vfs

  if-Starts :
      (b : Bool) (s : AppState re fl rand ch u json)
      → HasNoAgent s.hub.vfs
      → Starts (if b then some s else none)
  if-Starts true s h = h
  if-Starts false s h = tt

  startup-HasNoAgent :
      {Addr : Type 0} (cfg : Config x fl Addr) (locks : Text → Bool) (now : Nanos) (uuid : ℕ → Text)
      (fetch : Text → Text ⊎ McpManifest x) (net : ch.Net) (s : AppState re fl rand ch u json)
      → startup re fl rand ch u json cfg locks now uuid fetch net ≡ some s
      → HasNoAgent s.hub.vfs
  unfolding startup
  startup-HasNoAgent cfg locks now uuid fetch net s h =
      subst Starts h (if-Starts _ _ (new-HasNoAgent locks))

  all-HasNoAgent :
      {Addr : Type 0} (s : AppState re fl rand ch u json)
      → Reaches re fl rand ch u json Addr s
      → HasNoAgent s.hub.vfs
  all-HasNoAgent s (started cfg locks now uuid fetch net _ h) =
      startup-HasNoAgent cfg locks now uuid fetch net s h
  all-HasNoAgent _ (stepped s e r) =
      λ key below. step-IsShrunk s e key (all-HasNoAgent s r key below)

  -- In no state that the program reaches is anything found at a path below `/net`, however many agents
  -- are connected: their namespaces are never mounted.
  pub Reaches-get_node :
      {Addr : Type 0} (s : AppState re fl rand ch u json) (path : Text)
      → Reaches re fl rand ch u json Addr s
      → starts_with net_prefix (normalize path) ≡ true
      → get_node s.hub.vfs path ≡ none
  unfolding get_node
  Reaches-get_node s path r below = all-HasNoAgent s r (normalize path) below
