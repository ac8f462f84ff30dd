-- ===== src/Api/Agents.antt =====
-- src/api.rs: the end of an agent by the REST interface.
use xfiles.Prelude.{◌≡◌, ◌⊎◌, refl, Bool, none, Text, text_eq, ◌==◌, if◌then◌else◌}
use xfiles.Prelude.Maps.{IsMap, get-remove}
use xfiles.Message.{Opaque, ProtocolOp}
use xfiles.Channel.{Channels}
use xfiles.Floats.{Floats, Random}
use xfiles.Agent.{unregister, get as get_agent}
use xfiles.Plumber.{Patterns}
use xfiles.Mcp.{Json}
use xfiles.Vfs.Paths.{normalize}
use xfiles.Vfs.Vnode.{Utf8}
use xfiles.Vfs.Registry.{get_node}
use xfiles.Vfs.Registry.Contents.{forget?}
use xfiles.Vfs.Registry.Unmount.{IsInNamespace, get_node-unmount_agent_ns}
use xfiles.Daemon.{AppState}
use xfiles.Api.{unregister_agent}

module _ {x : Opaque} (re : Patterns x) (fl : Floats) (rand : Random fl)
    (ch : Channels (ProtocolOp x)) (u : Utf8) (json : Json x) where
  -- After an agent was unregistered by the REST interface it is not found, and no path of its namespace
  -- is; every other agent is found as before, and every other path but for the lists of children. What
  -- waits in the queues stays. The table of nodes has one entry for a path.
  pub unregister_agent_lem :
      (locks : Text → Bool) (s : AppState re fl rand ch u json) (id other path : Text)
      → IsMap s.hub.vfs.nodes
      → let s' = unregister_agent re fl rand ch u json locks s id in
        let found = forget? (get_node s'.hub.vfs path) in
        (get_agent s'.hub.agents other
          ≡ (if id == other then none else get_agent s.hub.agents other))
        × ((IsInNamespace id (normalize path) × (found ≡ none))
            ⊎ ((¬ IsInNamespace id (normalize path)) × (found ≡ forget? (get_node s.hub.vfs path))))
        × (s'.hub.queue ≡ s.hub.queue)
  unfolding unregister_agent unregister get_agent
  unregister_agent_lem locks s id other path h = (
    get-remove s.hub.agents.agents id other,
    get_node-unmount_agent_ns locks s.hub.vfs id path h,
    refl,
  )
