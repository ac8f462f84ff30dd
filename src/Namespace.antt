-- ===== src/Namespace.antt =====
-- src/namespace.rs: the namespaces of agents in the file system. The handle on the agents, which no method
-- reads, is left out; the JSON of the capabilities is a parameter.
pub mod Removal
use xfiles.Prelude.{
  ℕ, Bool, Option, List, [], ◌∷◌, ◌++◌, nat_beq, if◌then◌else◌, Text, text_eq, codes, Map,
}
use xfiles.Prelude.Maps.{get, insert, remove}
use xfiles.Message.{Opaque, Capability, CapabilityManifest}
use xfiles.Vfs.Vnode.{Utf8, new_file, new_ctl}
use xfiles.Vfs.Registry.{VfsRegistry, mkdir, add_node, unmount_agent_ns, net_prefix}

pub record NamespaceManager : Type 0 where
  pub vfs : VfsRegistry
  pub bindings : Map Text Text

-- `trim_start_matches('/')`
unfoldable pub trim_start_slashes : Text → Text
trim_start_slashes [] = []
trim_start_slashes (c ∷ s) = if nat_beq c 0x2f then trim_start_slashes s else c ∷ s

-- `NamespaceManager::new`
unfoldable pub new_manager : VfsRegistry → NamespaceManager
new_manager vfs = record { vfs = vfs; bindings = [] }

unfoldable pub resolve : NamespaceManager → Text → Option Text
resolve m agent_id = get m.bindings agent_id

unfoldable pub list_namespaces : NamespaceManager → List (Text × Text)
list_namespaces m = m.bindings

module _ (locks : Text → Bool) where
  unfoldable pub remove_namespace : NamespaceManager → Text → NamespaceManager
  remove_namespace m agent_id = record {
    bindings = remove m.bindings agent_id;
    vfs = unmount_agent_ns locks m.vfs agent_id;
  }

  -- The loop over the paths of a capability, and that over the capabilities.
  unfoldable pub bind_paths : VfsRegistry → Text → List Text → VfsRegistry
  bind_paths r cap_dir [] = r
  bind_paths r cap_dir (path ∷ paths) =
      bind_paths
        (add_node locks r (cap_dir ++ codes "/" ++ trim_start_slashes path) (new_file path []))
        cap_dir paths

  module _ {x : Opaque} (u : Utf8) (to_vec : List (Capability x) → List ℕ) where
    unfoldable pub bind_capabilities : VfsRegistry → Text → List (Capability x) → VfsRegistry
    unfolding bind_paths
    bind_capabilities r ns [] = r
    bind_capabilities r ns (cap ∷ caps) =
        let cap_dir = ns ++ codes "/cap/" ++ cap.name in
        let r₁ = mkdir locks r cap_dir in
        let r₂ =
          add_node locks r₁ (cap_dir ++ codes "/version")
            (new_file (codes "version") (u.as_bytes cap.version)) in
        bind_capabilities (bind_paths r₂ cap_dir cap.paths) ns caps

    -- The directories and files that every agent has.
    unfoldable pub seed_namespace : VfsRegistry → Text → CapabilityManifest x → VfsRegistry
    seed_namespace r₀ ns manifest =
        let r₁ = mkdir locks r₀ ns in
        let r₂ = mkdir locks r₁ (ns ++ codes "/ctl") in
        let r₃ =
          add_node locks r₂ (ns ++ codes "/hostname")
            (new_file (codes "hostname") (u.as_bytes manifest.hostname)) in
        let r₄ =
          add_node locks r₃ (ns ++ codes "/ctl/status")
            (new_ctl (codes "status") (codes "connected")) in
        let r₅ =
          add_node locks r₄ (ns ++ codes "/ctl/capabilities")
            (new_file (codes "capabilities") (to_vec manifest.capabilities)) in
        let r₆ = mkdir locks r₅ (ns ++ codes "/msg") in
        let r₇ = add_node locks r₆ (ns ++ codes "/msg/inbox") (new_file (codes "inbox") []) in
        add_node locks r₇ (ns ++ codes "/msg/outbox") (new_file (codes "outbox") [])

    unfoldable pub create_namespace :
        NamespaceManager → CapabilityManifest x → NamespaceManager × Text
    unfolding bind_capabilities seed_namespace
    create_namespace m manifest =
        let ns = net_prefix ++ manifest.agent_id in
        (
          record {
            vfs = bind_capabilities (seed_namespace m.vfs ns manifest) ns manifest.capabilities;
            bindings = insert m.bindings manifest.agent_id ns;
          },
          ns,
        )
