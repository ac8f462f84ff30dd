-- ===== src/Tests/Namespace.antt =====
-- src/namespace.rs on an empty file system.
use xfiles.Prelude.{
  ◌≡◌, refl, inl, true, none, some, [], ◌∷◌, if◌then◌else◌, ◌==◌, text_eq, codes, filter, List, ℕ,
}
use xfiles.Prelude.Texts.{text_beq, trim, is_whitespace}
use xfiles.Message.{Capability, CapabilityManifest}
use xfiles.Vfs.Paths.{normalize, split, extend_first, resolve as resolve_path, pop, join}
use xfiles.Vfs.Registry.{get_node}
use xfiles.Vfs.Registry.Contents.{forget?}
use xfiles.Namespace.{NamespaceManager, resolve, remove_namespace, create_namespace}
use xfiles.Namespace.Removal.{remove_namespace-create_namespace}
use xfiles.Tests.Samples.{opaque, ascii}

abbrev manager : NamespaceManager
manager = record { vfs = record { nodes = [] }; bindings = (codes "eve", codes "/net/eve") ∷ [] }

abbrev manifest : CapabilityManifest opaque
manifest = record {
  agent_id = codes "bob";
  hostname = codes "h";
  capabilities =
      record { name = codes "grep"; version = codes "1"; paths = []; metadata = [] } ∷ [];
  preferred_namespace = none;
}

abbrev to_vec : List (Capability opaque) → List ℕ
to_vec caps = codes "[]"

remove_namespace-create_namespace_example :
    let (m₁, ns) = create_namespace (λ p. true) ascii to_vec manager manifest in
    let m₂ = remove_namespace (λ p. true) m₁ (codes "bob") in
    (resolve m₁ (codes "bob") ≡ some ns)
    × (resolve m₂ (codes "eve")
        ≡ (if codes "bob" == codes "eve" then none else resolve manager (codes "eve")))
    × (forget? (get_node m₂.vfs (codes "/net/bob")) ≡ none)
unfolding normalize trim is_whitespace split extend_first filter resolve_path pop join text_beq
remove_namespace-create_namespace_example =
    remove_namespace-create_namespace (λ p. true) ascii to_vec manager manifest (codes "eve")
      (codes "/net/bob") tt (inl refl)
