-- ===== src/Vfs/Registry/Unmount.antt =====
-- src/fs/registry.rs: what the removal of an agent's namespace takes away.
use xfiles.Prelude.{
  ◌≡◌, refl, ◌∙◌, Bool, none, List, [], ◌∷◌, arith, contains, filter, if◌then◌else◌, ◌==◌, eq_iff,
  Text, text_eq, codes, Option-cases, Bool-cases, inl, inr, ◌⊎◌, ◌↔◌, ◌++◌, ◌||◌, slash, true,
  false, sym,
}
use xfiles.Prelude.Texts.{starts_with, starts_with-append, append_of_starts_with}
use xfiles.Prelude.Maps.{
  get, remove, contains_key, keys, contains_key-get, contains-keys, get-filter, IsMap, insert-IsMap,
  remove-IsMap, modify-IsMap,
}
use xfiles.Vfs.Paths.{normalize, parent_path}
use xfiles.Vfs.Vnode.{Vnode}
use xfiles.Vfs.Registry.{
  VfsRegistry, get_node, link_child, unlink_child, link_parent, unlink_parent, add_node, mkdir,
  remove_node, new, seed_core, is_agent_key, net_prefix, remove_key, remove_keys, unmount_agent_ns,
}
use xfiles.Vfs.Registry.Contents.{forget?, seen, seen-unlink_parent, seen-remove}

-- The agent's directory, and what lies below it.
abbrev pub IsInNamespace : Text → Text → Type 0
IsInNamespace agent_id key =
    (key ≡ net_prefix ++ agent_id)
    ⊎ ((rest : Text) × (key ≡ ((net_prefix ++ agent_id) ++ slash ∷ []) ++ rest))

true_ne_false : ¬ (true ≡ false)
true_ne_false h = cc

is_agent_key_iff :
    (agent_id key : Text) → (is_agent_key agent_id key ≡ true) ↔ IsInNamespace agent_id key
unfolding is_agent_key
is_agent_key_iff agent_id key =
    let base = net_prefix ++ agent_id in
    (
      λ h. elim (Bool-cases (key == base)) [
        | inl e ↦ inl ((eq_iff key base).0 e)
        | inr e ↦ inr (append_of_starts_with (base ++ slash ∷ []) key (rw e at h))
      ],
      λ h. elim h [
        | inl e ↦ rw ((eq_iff key base).1 e) refl
        | inr (rest, e) ↦ under base rest key e
      ],
    )
  where
    under :
        (base rest key : Text)
        → key ≡ (base ++ slash ∷ []) ++ rest
        → ((key == base) || starts_with (base ++ slash ∷ []) key) ≡ true
    under base rest key e =
        let s : starts_with (base ++ slash ∷ []) key ≡ true =
          rw e (starts_with-append (base ++ slash ∷ []) rest) in
        ground (arith, s)

module _ (locks : Text → Bool) where
  seen-remove_key :
      (r : VfsRegistry) (k key : Text)
      → seen (remove_key locks r k) key ≡ (if k == key then none else seen r key)
  unfolding remove_key
  seen-remove_key r k key = elim (Bool-cases (contains_key r.nodes k)) [
    | inl e ↦
        rw (e, remove_key)
          (seen-unlink_parent locks (record r { nodes = remove r.nodes k }) k key
            ∙ seen-remove locks r k key)
    | inr e ↦ rw (e, remove_key) (ground (arith, contains_key-get r.nodes k, eq_iff k key))
  ]

  seen-remove_keys :
      (r : VfsRegistry) (ks : List Text) (key : Text)
      → seen (remove_keys locks r ks) key ≡ (if contains ks key then none else seen r key)
  unfolding remove_keys contains
  seen-remove_keys r [] key = refl
  seen-remove_keys r (k ∷ ks) key =
      seen-remove_keys (remove_key locks r k) ks key
      ∙ ground (arith, seen-remove_key r k key, eq_iff k key)

  seen-unmount_agent_ns :
      (r : VfsRegistry) (agent_id path : Text)
      → IsMap r.nodes
      → forget? (get_node (unmount_agent_ns locks r agent_id) path)
        ≡ (if is_agent_key agent_id (normalize path) then none else forget? (get_node r path))
  unfolding unmount_agent_ns get_node
  seen-unmount_agent_ns r agent_id path h =
      let key = normalize path in
      let picked = filter (λ e. is_agent_key agent_id e.0) r.nodes in
      seen-remove_keys r (keys picked) key
      ∙ ground (
        arith,
        contains-keys picked key,
        contains_key-get picked key,
        get-filter (λ e. is_agent_key agent_id e.0) r.nodes key h,
      )

  -- After `unmount_agent_ns` a lookup finds nothing at the paths whose normal form is the agent's
  -- directory or lies below it, and at every other path what was there before, but for the lists of
  -- children. The table of nodes has one entry for a path.
  pub get_node-unmount_agent_ns :
      (r : VfsRegistry) (agent_id path : Text)
      → IsMap r.nodes
      → let found = forget? (get_node (unmount_agent_ns locks r agent_id) path) in
        (IsInNamespace agent_id (normalize path) × (found ≡ none))
        ⊎ ((¬ IsInNamespace agent_id (normalize path)) × (found ≡ forget? (get_node r path)))
  get_node-unmount_agent_ns r agent_id path h =
      let key = normalize path in
      elim (Bool-cases (is_agent_key agent_id key)) [
        | inl e ↦ inl (
          (is_agent_key_iff agent_id key).0 e,
          seen-unmount_agent_ns r agent_id path h ∙ rw e refl,
        )
        | inr e ↦ inr (
          λ n. true_ne_false (sym ((is_agent_key_iff agent_id key).1 n) ∙ e),
          seen-unmount_agent_ns r agent_id path h ∙ rw e refl,
        )
      ]

  link_parent-IsMap :
      (r : VfsRegistry) (path : Text) → IsMap r.nodes → IsMap (link_parent locks r path).nodes
  unfolding link_parent
  link_parent-IsMap r path h = elim (Option-cases (parent_path path)) [
    | inl e ↦ rw (e, link_parent) h
    | inr (parent, e) ↦ rw (e, link_parent) (link_child-IsMap parent)
  ]
    where
      link_child-IsMap : (parent : Text) → IsMap (link_child locks r parent path).nodes
      link_child-IsMap parent = elim (Bool-cases (locks parent)) [
        | inl l ↦ rw (l, link_child) (modify-IsMap r.nodes parent _ h)
        | inr l ↦ rw (l, link_child) h
      ]

  unlink_parent-IsMap :
      (r : VfsRegistry) (path : Text) → IsMap r.nodes → IsMap (unlink_parent locks r path).nodes
  unfolding unlink_parent
  unlink_parent-IsMap r path h = elim (Option-cases (parent_path path)) [
    | inl e ↦ rw (e, unlink_parent) h
    | inr (parent, e) ↦ rw (e, unlink_parent) (unlink_child-IsMap parent)
  ]
    where
      unlink_child-IsMap : (parent : Text) → IsMap (unlink_child locks r parent path).nodes
      unlink_child-IsMap parent = elim (Bool-cases (locks parent)) [
        | inl l ↦ rw (l, unlink_child) (modify-IsMap r.nodes parent _ h)
        | inr l ↦ rw (l, unlink_child) h
      ]

  remove_key-IsMap :
      (r : VfsRegistry) (k : Text) → IsMap r.nodes → IsMap (remove_key locks r k).nodes
  unfolding remove_key
  remove_key-IsMap r k h = elim (Bool-cases (contains_key r.nodes k)) [
    | inl e ↦ rw (e, remove_key) (unlink_parent-IsMap _ k (remove-IsMap r.nodes k h))
    | inr e ↦ rw (e, remove_key) h
  ]

  remove_keys-IsMap :
      (r : VfsRegistry) (ks : List Text) → IsMap r.nodes → IsMap (remove_keys locks r ks).nodes
  unfolding remove_keys
  remove_keys-IsMap r [] h = h
  remove_keys-IsMap r (k ∷ ks) h =
      remove_keys-IsMap (remove_key locks r k) ks (remove_key-IsMap r k h)

  -- Every change of the registry keeps one entry for a path.
  pub operations-IsMap :
      (r : VfsRegistry) (path agent_id : Text) (node : Vnode)
      → IsMap r.nodes
      → IsMap (add_node locks r path node).nodes
        × IsMap (mkdir locks r path).nodes
        × IsMap (remove_node locks r path).0.nodes
        × IsMap (unmount_agent_ns locks r agent_id).nodes
  unfolding add_node mkdir remove_node unmount_agent_ns
  operations-IsMap r path agent_id node h = (
    link_parent-IsMap _ _ (insert-IsMap r.nodes (normalize path) _ h),
    link_parent-IsMap _ _ (insert-IsMap r.nodes (normalize path) _ h),
    removed,
    remove_keys-IsMap r _ h,
  )
    where
      removed : IsMap (remove_node locks r path).0.nodes
      removed = elim (Option-cases (get r.nodes (normalize path))) [
        | inl e ↦ rw (e, remove_node) h
        | inr (n, e) ↦
            rw (e, remove_node)
              (unlink_parent-IsMap _ (normalize path) (remove-IsMap r.nodes (normalize path) h))
      ]

  -- The registry starts with one entry for a path.
  pub new-IsMap : IsMap (new locks).nodes
  unfolding new seed_core
  new-IsMap = file _ (codes "/plumber/rules") _ (
      file _ (codes "/ctl/shutdown") _ (
        file _ (codes "/ctl/status") _ (
          dir _ (codes "/ctl") (
            dir _ (codes "/plumber") (
              dir _ (codes "/msg") (
                dir _ (codes "/proc")
                  (dir _ (codes "/ai") (dir (record { nodes = [] }) (codes "/net") tt))))))))
    where
      dir : (r : VfsRegistry) (path : Text) → IsMap r.nodes → IsMap (mkdir locks r path).nodes
      dir r path h =
          unfold mkdir in link_parent-IsMap _ _ (insert-IsMap r.nodes (normalize path) _ h)

      file :
          (r : VfsRegistry) (path : Text) (node : Vnode)
          → IsMap r.nodes
          → IsMap (add_node locks r path node).nodes
      file r path node h =
          unfold add_node in link_parent-IsMap _ _ (insert-IsMap r.nodes (normalize path) _ h)
