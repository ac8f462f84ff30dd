-- ===== src/Namespace/Removal.antt =====
-- src/namespace.rs: what is left of a namespace after its removal.
use xfiles.Prelude.{
  ℕ, ◌≡◌, inl, inr, Bool, none, some, List, [], ◌∷◌, ◌++◌, arith, if◌then◌else◌, ◌==◌, eq_iff, Text,
  text_eq, codes,
}
use xfiles.Prelude.Maps.{IsMap, get-insert, get-remove}
use xfiles.Message.{Opaque, Capability, CapabilityManifest}
use xfiles.Vfs.Paths.{normalize}
use xfiles.Vfs.Vnode.{Utf8, Vnode, new_file, new_ctl}
use xfiles.Vfs.Registry.{VfsRegistry, get_node, mkdir, add_node, net_prefix}
use xfiles.Vfs.Registry.Contents.{forget?}
use xfiles.Vfs.Registry.Unmount.{IsInNamespace, operations-IsMap, get_node-unmount_agent_ns}
use xfiles.Namespace.{
  NamespaceManager, resolve, remove_namespace, bind_paths, bind_capabilities, seed_namespace,
  create_namespace, trim_start_slashes,
}

module _ (locks : Text → Bool) where
  file-IsMap :
      (r : VfsRegistry) (path : Text) (node : Vnode)
      → IsMap r.nodes
      → IsMap (add_node locks r path node).nodes
  file-IsMap r path node h = (operations-IsMap locks r path path node h).0

  dir-IsMap : (r : VfsRegistry) (path : Text) → IsMap r.nodes → IsMap (mkdir locks r path).nodes
  dir-IsMap r path h = (operations-IsMap locks r path path (new_ctl path path) h).1

  bind_paths-IsMap :
      (r : VfsRegistry) (cap_dir : Text) (paths : List Text)
      → IsMap r.nodes
      → IsMap (bind_paths locks r cap_dir paths).nodes
  unfolding bind_paths
  bind_paths-IsMap r cap_dir [] h = h
  bind_paths-IsMap r cap_dir (path ∷ paths) h =
      let target = cap_dir ++ codes "/" ++ trim_start_slashes path in
      bind_paths-IsMap (add_node locks r target (new_file path [])) cap_dir paths
        (file-IsMap r target (new_file path []) h)

  module _ {x : Opaque} (u : Utf8) (to_vec : List (Capability x) → List ℕ) where
    bind_capabilities-IsMap :
        (r : VfsRegistry) (ns : Text) (caps : List (Capability x))
        → IsMap r.nodes
        → IsMap (bind_capabilities locks u to_vec r ns caps).nodes
    unfolding bind_capabilities
    bind_capabilities-IsMap r ns [] h = h
    bind_capabilities-IsMap r ns (cap ∷ caps) h =
        let cap_dir = ns ++ codes "/cap/" ++ cap.name in
        let r₁ = mkdir locks r cap_dir in
        let version = new_file (codes "version") (u.as_bytes cap.version) in
        let r₂ = add_node locks r₁ (cap_dir ++ codes "/version") version in
        bind_capabilities-IsMap (bind_paths locks r₂ cap_dir cap.paths) ns caps (
          bind_paths-IsMap r₂ cap_dir cap.paths
            (file-IsMap r₁ (cap_dir ++ codes "/version") version (dir-IsMap r cap_dir h)))

    seed_namespace-IsMap :
        (r : VfsRegistry) (ns : Text) (manifest : CapabilityManifest x)
        → IsMap r.nodes
        → IsMap (seed_namespace locks u to_vec r ns manifest).nodes
    unfolding seed_namespace
    seed_namespace-IsMap r ns manifest h = file-IsMap _ _ _ (
        file-IsMap _ _ _ (
          dir-IsMap _ _ (
            file-IsMap _ _ _ (
              file-IsMap _ _ _
                (file-IsMap _ _ _ (dir-IsMap _ (ns ++ codes "/ctl") (dir-IsMap r ns h)))))))

    -- After the namespace of an agent was made and removed again, the agent has no binding and the other
    -- agents have theirs; and nothing is found in the namespace, whatever names and paths the agent's
    -- capabilities have. The table of nodes has one entry for a path.
    pub remove_namespace-create_namespace :
        (m : NamespaceManager) (manifest : CapabilityManifest x) (other path : Text)
        → IsMap m.vfs.nodes
        → IsInNamespace manifest.agent_id (normalize path)
        → let (m₁, ns) = create_namespace locks u to_vec m manifest in
          let m₂ = remove_namespace locks m₁ manifest.agent_id in
          (resolve m₁ manifest.agent_id ≡ some ns)
          × (resolve m₂ other ≡ (if manifest.agent_id == other then none else resolve m other))
          × (forget? (get_node m₂.vfs path) ≡ none)
    unfolding create_namespace remove_namespace resolve
    remove_namespace-create_namespace m manifest other path h inside =
        let id = manifest.agent_id in
        let m₁ = (create_namespace locks u to_vec m manifest).0 in
        (
          ground (arith, get-insert m.bindings id id (net_prefix ++ id), eq_iff id id),
          ground (
            arith,
            get-remove m₁.bindings id other,
            get-insert m.bindings id other (net_prefix ++ id),
          ),
          elim (get_node-unmount_agent_ns locks m₁.vfs id path (
              bind_capabilities-IsMap _ _ manifest.capabilities
                (seed_namespace-IsMap m.vfs _ manifest h))) [
                  | inl found ↦ found.1
                  | inr found ↦ absurd (found.0 inside)
                ],
        )
