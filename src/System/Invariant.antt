-- ===== src/System/Invariant.antt =====
-- The shared state of the program keeps its shape from the start-up on.
use xfiles.Prelude.{
  ℕ, ◌≡◌, ◌⊎◌, inl, inr, refl, sym, subst, Bool, true, false, Option, none, some, List, [], ◌∷◌,
  if◌then◌else◌, Text, text_eq, Option-cases,
}
use xfiles.Prelude.Maps.{IsMap, remove-IsMap}
use xfiles.Prelude.Ints.{pos, as_i64}
use xfiles.Prelude.Time.{Nanos}
use xfiles.Message.{Opaque, ProtocolOp, FeedbackEvent}
use xfiles.Channel.{Channels}
use xfiles.Floats.{Floats, Random}
use xfiles.Agent.{AgentRegistry, unregister, stale_agents, new as new_agents}
use xfiles.Plumber.{Patterns}
use xfiles.Queue.{new as new_queue}
use xfiles.Queue.Pruning.{IsClean, new-IsClean, prune_old-IsClean}
use xfiles.Mcp.{Json, McpManifest}
use xfiles.Vfs.Vnode.{Utf8, new_ctl}
use xfiles.Vfs.Registry.Unmount.{operations-IsMap, new-IsMap}
use xfiles.Ai.Probe.{probe_all}
use xfiles.Transport.{Hub}
use xfiles.Config.{Config}
use xfiles.Daemon.{
  AppState, Task, prune_endpoints, quantum_maintenance, heartbeat_cleanup, queue_cleanup, run_task,
  prune_long_offline, cleanup_agents, stale_secs, unregister_all, route_message, msg_handler,
  quantum_feedback_handler,
}
use xfiles.Daemon.Startup.{startup, with_uuids}
use xfiles.Api.{unregister_agent, vfs_delete, send_message, ai_completions}
use xfiles.System.{
  Event, operated, ended, posted, sent, called, wrote, deleted, unregistered, rated, completed,
  ticked, probed, scanned, scanned_containers, step, Reaches, started, stepped,
}
use xfiles.System.Hubs.{
  IsHub, handle_op-IsHub, teardown-IsHub, deliver-IsHub, deliver_selected-IsHub, grpc_send-IsHub,
  fs_write_handler-IsHub,
}
use xfiles.System.Endpoints.{
  IsTable, scan-IsTable, scan_containers-IsTable, prune_offline-IsTable, probe_targets-IsTable,
  add_endpoints-IsTable, empty-IsTable,
}

module _ {x : Opaque} (re : Patterns x) (fl : Floats) (rand : Random fl)
    (ch : Channels (ProtocolOp x)) (u : Utf8) (json : Json x) where
  -- The tables of agents and of nodes have one entry for a key; the table of queues too, with no queue
  -- empty; and the table of endpoints holds each endpoint once, under its id.
  pub record IsWellFormed (s : AppState re fl rand ch u json) : Type 0 where
    pub hub_ok : IsHub re fl rand ch u s.hub
    pub endpoints_ok : IsTable s.endpoints

  -- A change of the weights alone.
  quantum-IsHub :
      (h h' : Hub re fl rand ch u)
      → h'.agents ≡ h.agents
      → h'.vfs ≡ h.vfs
      → h'.queue ≡ h.queue
      → IsHub re fl rand ch u h
      → IsHub re fl rand ch u h'
  quantum-IsHub h h' a v q i = record {
    agents_map = subst (λ r. IsMap r.agents) (sym a) i.agents_map;
    nodes_map = subst (λ r. IsMap r.nodes) (sym v) i.nodes_map;
    clean = subst IsClean (sym q) i.clean;
  }

  unregister_all-IsMap :
      (r : AgentRegistry x ch.Sender) (ids : List Text)
      → IsMap r.agents
      → IsMap (unregister_all re fl rand ch u json r ids).agents
  unfolding unregister_all unregister
  unregister_all-IsMap r [] m = m
  unregister_all-IsMap r (id ∷ ids) m =
      unregister_all-IsMap (unregister r id).0 ids (remove-IsMap r.agents id m)

  run_task-IsWellFormed :
      (s : AppState re fl rand ch u json) (now : Nanos) (interval : ℕ)
      (task : Task re fl rand ch u json)
      → IsWellFormed s
      → IsWellFormed (run_task re fl rand ch u json s now interval task)
  unfolding run_task prune_long_offline cleanup_agents
  run_task-IsWellFormed s now interval prune_endpoints w = record {
    hub_ok = w.hub_ok;
    endpoints_ok = prune_offline-IsTable s.endpoints now (pos 600) w.endpoints_ok;
  }
  run_task-IsWellFormed s now interval quantum_maintenance w = elim (Option-cases s.hub.quantum) [
    | inl e ↦ rw (e, run_task) w
    | inr (q, e) ↦
        rw (e, run_task)
          (record {
            hub_ok = quantum-IsHub s.hub _ refl refl refl w.hub_ok;
            endpoints_ok = w.endpoints_ok;
          })
  ]
  run_task-IsWellFormed s now interval heartbeat_cleanup w = record {
    hub_ok = record {
      agents_map =
          unregister_all-IsMap s.hub.agents
            (stale_agents s.hub.agents now (as_i64 (stale_secs re fl rand ch u json interval)))
            w.hub_ok.agents_map;
      nodes_map = w.hub_ok.nodes_map;
      clean = w.hub_ok.clean;
    };
    endpoints_ok = w.endpoints_ok;
  }
  run_task-IsWellFormed s now interval queue_cleanup w = record {
    hub_ok = record {
      agents_map = w.hub_ok.agents_map;
      nodes_map = w.hub_ok.nodes_map;
      clean = prune_old-IsClean s.hub.queue now (pos 3600) w.hub_ok.clean;
    };
    endpoints_ok = w.endpoints_ok;
  }

  feedback-IsWellFormed :
      (s : AppState re fl rand ch u json) (now : Nanos) (event : FeedbackEvent x)
      → IsWellFormed s
      → IsWellFormed (quantum_feedback_handler re fl rand ch u json s now event).0
  unfolding quantum_feedback_handler
  feedback-IsWellFormed s now event w = elim (Option-cases s.hub.quantum) [
    | inl e ↦ rw (e, quantum_feedback_handler) w
    | inr (q, e) ↦
        rw (e, quantum_feedback_handler)
          (record {
            hub_ok = quantum-IsHub s.hub _ refl refl refl w.hub_ok;
            endpoints_ok = w.endpoints_ok;
          })
  ]

  step-IsWellFormed :
      (s : AppState re fl rand ch u json) (e : Event re fl rand ch u json)
      → IsWellFormed s
      → IsWellFormed (step re fl rand ch u json s e)
  unfolding step msg_handler send_message route_message vfs_delete unregister_agent ai_completions
      probe_all
  step-IsWellFormed s (operated t id tx op) w = record {
    hub_ok = handle_op-IsHub re fl rand ch u s.hub t id tx op w.hub_ok;
    endpoints_ok = w.endpoints_ok;
  }
  step-IsWellFormed s (ended id tx) w = record {
    hub_ok = teardown-IsHub re fl rand ch u s.hub id tx w.hub_ok;
    endpoints_ok = w.endpoints_ok;
  }
  step-IsWellFormed s (posted now t msg) w = record {
    hub_ok =
        deliver_selected-IsHub re fl rand ch u json _ t _ msg
          (quantum-IsHub s.hub _ refl refl refl w.hub_ok);
    endpoints_ok = w.endpoints_ok;
  }
  step-IsWellFormed s (sent now t msg) w = record {
    hub_ok =
        deliver-IsHub re fl rand ch u _ t _ msg (quantum-IsHub s.hub _ refl refl refl w.hub_ok);
    endpoints_ok = w.endpoints_ok;
  }
  step-IsWellFormed s (called t msg) w = record {
    hub_ok = grpc_send-IsHub re fl rand ch u json s.hub t msg w.hub_ok;
    endpoints_ok = w.endpoints_ok;
  }
  step-IsWellFormed s (wrote path body) w = record {
    hub_ok = fs_write_handler-IsHub re fl rand ch u json s.hub path body w.hub_ok;
    endpoints_ok = w.endpoints_ok;
  }
  step-IsWellFormed s (deleted locks path) w = record {
    hub_ok = record {
      agents_map = w.hub_ok.agents_map;
      nodes_map = (operations-IsMap locks s.hub.vfs path path (new_ctl [] []) w.hub_ok.nodes_map).2;
      clean = w.hub_ok.clean;
    };
    endpoints_ok = w.endpoints_ok;
  }
  step-IsWellFormed s (unregistered locks id) w = record {
    hub_ok = record {
      agents_map = unfold unregister in remove-IsMap s.hub.agents.agents id w.hub_ok.agents_map;
      nodes_map = (operations-IsMap locks s.hub.vfs id id (new_ctl [] []) w.hub_ok.nodes_map).3;
      clean = w.hub_ok.clean;
    };
    endpoints_ok = w.endpoints_ok;
  }
  step-IsWellFormed s (rated now event) w = feedback-IsWellFormed s now event w
  step-IsWellFormed s (completed up model aliases t req) w = record {
    hub_ok = quantum-IsHub s.hub _ refl refl refl w.hub_ok;
    endpoints_ok = w.endpoints_ok;
  }
  step-IsWellFormed s (ticked now interval task) w = run_task-IsWellFormed s now interval task w
  step-IsWellFormed s (probed probe) w = record {
    hub_ok = w.hub_ok;
    endpoints_ok = probe_targets-IsTable probe s.endpoints _ w.endpoints_ok;
  }
  step-IsWellFormed s (scanned one fetch now ports) w = record {
    hub_ok = w.hub_ok;
    endpoints_ok = scan-IsTable one fetch s.endpoints now ports w.endpoints_ok;
  }
  step-IsWellFormed s (scanned_containers one now listed) w = record {
    hub_ok = w.hub_ok;
    endpoints_ok = scan_containers-IsTable one s.endpoints now listed w.endpoints_ok;
  }

  abbrev Holds : Option (AppState re fl rand ch u json) → Type 0
  Holds none = Unit
  Holds (some s) = IsWellFormed s

  if-Holds :
      (b : Bool) (s : AppState re fl rand ch u json)
      → IsWellFormed s
      → Holds (if b then some s else none)
  if-Holds true s w = w
  if-Holds false s w = tt

  startup-IsWellFormed :
      {Addr : Type 0} (cfg : Config x fl Addr) (locks : Text → Bool) (now : Nanos) (uuid : ℕ → Text)
      (fetch : Text → Text ⊎ McpManifest x) (net : ch.Net) (s : AppState re fl rand ch u json)
      → startup re fl rand ch u json cfg locks now uuid fetch net ≡ some s
      → IsWellFormed s
  unfolding startup new_agents new_queue
  startup-IsWellFormed cfg locks now uuid fetch net s h = subst Holds h (
      if-Holds _ _ (record {
        hub_ok = record { agents_map = tt; nodes_map = new-IsMap locks; clean = new-IsClean };
        endpoints_ok = add_endpoints-IsTable now (with_uuids cfg.ai uuid 0) [] empty-IsTable;
      }))

  -- In every state that the program reaches, from whatever configuration it started and whatever its
  -- connections, handlers, scans and tasks did in whatever order, the tables of agents and of nodes have
  -- one entry for a key, no queue is empty, and the table of endpoints holds each endpoint once and
  -- under its own id.
  pub Reaches-IsWellFormed :
      {Addr : Type 0} (s : AppState re fl rand ch u json)
      → Reaches re fl rand ch u json Addr s
      → IsWellFormed s
  Reaches-IsWellFormed s (started cfg locks now uuid fetch net _ h) =
      startup-IsWellFormed cfg locks now uuid fetch net s h
  Reaches-IsWellFormed _ (stepped s e r) = step-IsWellFormed s e (Reaches-IsWellFormed s r)
