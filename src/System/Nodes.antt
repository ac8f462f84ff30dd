-- ===== src/System/Nodes.antt =====
-- src/fs/registry.rs under the events of the program: no node is added after the start-up.
use xfiles.Prelude.{
  ℕ, ◌≡◌, ◌⊎◌, inl, inr, refl, ap, subst, Bool, true, false, Option, none, some, List, [], ◌∷◌,
  arith, eq_iff, Text, text_eq, codes, filter, Option-cases, Bool-cases,
}
use xfiles.Prelude.Maps.{
  get, insert, modify, remove, contains_key, get-insert, get-modify, get-remove,
}
use xfiles.Prelude.Texts.{starts_with, trim, is_whitespace, text_beq}
use xfiles.Vfs.Paths.{normalize, parent_path, split, extend_first, resolve, pop, join}
use xfiles.Vfs.Vnode.{Utf8, Vnode}
use xfiles.Vfs.Registry.{
  VfsRegistry, write, net_prefix, link_child, unlink_child, link_parent, unlink_parent, add_node,
  mkdir, remove_node, new, seed_core, remove_key, remove_keys, unmount_agent_ns,
}

-- What has no node before has none after.
abbrev pub IsShrunk : VfsRegistry → VfsRegistry → Type 0
IsShrunk r r' = (key : Text) → get r.nodes key ≡ none → get r'.nodes key ≡ none

modify-IsShrunk :
    (r : VfsRegistry) (path : Text) (f : Vnode → Vnode)
    → IsShrunk r (record r { nodes = modify r.nodes path f })
modify-IsShrunk r path f key h = ground (arith, get-modify r.nodes path key f, h)

remove-IsShrunk :
    (r : VfsRegistry) (path : Text) → IsShrunk r (record r { nodes = remove r.nodes path })
remove-IsShrunk r path key h = ground (arith, get-remove r.nodes path key, h)

pub write-IsShrunk :
    (u : Utf8) (r r' : VfsRegistry) (path : Text) (bytes : List ℕ) (err : Option Text)
    → write u r path bytes ≡ some (r', err)
    → IsShrunk r r'
write-IsShrunk u r r' path bytes err h = subst Shrunk h written
  where
    Shrunk : Option (VfsRegistry × Option Text) → Type 0
    Shrunk none = Unit
    Shrunk (some (r', err)) = IsShrunk r r'

    written : Shrunk (write u r path bytes)
    written = elim (Option-cases (get r.nodes (normalize path))) [
      | inl e ↦ unfold write in rw (e, write) tt
      | inr (node, e) ↦ unfold write in rw (e, write) (modify-IsShrunk r (normalize path) _)
    ]

module _ (locks : Text → Bool) where
  link_parent-IsShrunk : (r : VfsRegistry) (path : Text) → IsShrunk r (link_parent locks r path)
  unfolding link_parent
  link_parent-IsShrunk r path = elim (Option-cases (parent_path path)) [
    | inl e ↦ rw (e, link_parent) (λ key h. h)
    | inr (parent, e) ↦ rw (e, link_parent) (linked parent)
  ]
    where
      linked : (parent : Text) → IsShrunk r (link_child locks r parent path)
      linked parent = elim (Bool-cases (locks parent)) [
        | inl l ↦ rw (l, link_child) (modify-IsShrunk r parent _)
        | inr l ↦ rw (l, link_child) (λ key h. h)
      ]

  unlink_parent-IsShrunk : (r : VfsRegistry) (path : Text) → IsShrunk r (unlink_parent locks r path)
  unfolding unlink_parent
  unlink_parent-IsShrunk r path = elim (Option-cases (parent_path path)) [
    | inl e ↦ rw (e, unlink_parent) (λ key h. h)
    | inr (parent, e) ↦ rw (e, unlink_parent) (unlinked parent)
  ]
    where
      unlinked : (parent : Text) → IsShrunk r (unlink_child locks r parent path)
      unlinked parent = elim (Bool-cases (locks parent)) [
        | inl l ↦ rw (l, unlink_child) (modify-IsShrunk r parent _)
        | inr l ↦ rw (l, unlink_child) (λ key h. h)
      ]

  pub remove_node-IsShrunk :
      (r : VfsRegistry) (path : Text) → IsShrunk r (remove_node locks r path).0
  unfolding remove_node
  remove_node-IsShrunk r path = elim (Option-cases (get r.nodes (normalize path))) [
    | inl e ↦ rw (e, remove_node) (λ key h. h)
    | inr (node, e) ↦
        rw (e, remove_node)
          (λ key h.
            unlink_parent-IsShrunk _ (normalize path) key
              (remove-IsShrunk r (normalize path) key h))
  ]

  remove_keys-IsShrunk : (r : VfsRegistry) (ks : List Text) → IsShrunk r (remove_keys locks r ks)
  unfolding remove_keys remove_key
  remove_keys-IsShrunk r [] key h = h
  remove_keys-IsShrunk r (k ∷ ks) key h =
      remove_keys-IsShrunk (remove_key locks r k) ks key
        (removed (Bool-cases (contains_key r.nodes k)))
    where
      removed :
          (contains_key r.nodes k ≡ true) ⊎ (contains_key r.nodes k ≡ false)
          → get (remove_key locks r k).nodes key ≡ none
      removed (inl e) =
          rw (e, remove_key) (unlink_parent-IsShrunk _ k key (remove-IsShrunk r k key h))
      removed (inr e) = rw (e, remove_key) h

  pub unmount_agent_ns-IsShrunk :
      (r : VfsRegistry) (id : Text) → IsShrunk r (unmount_agent_ns locks r id)
  unfolding unmount_agent_ns
  unmount_agent_ns-IsShrunk r id = remove_keys-IsShrunk r _

-- No node stands below `/net`.
abbrev pub HasNoAgent : VfsRegistry → Type 0
HasNoAgent r = (key : Text) → starts_with net_prefix key ≡ true → get r.nodes key ≡ none

module _ (locks : Text → Bool) where
  insert-HasNoAgent :
      (r : VfsRegistry) (path : Text) (node : Vnode)
      → starts_with net_prefix path ≡ false
      → HasNoAgent r
      → HasNoAgent (link_parent locks (record r { nodes = insert r.nodes path node }) path)
  insert-HasNoAgent r path node out h key below = link_parent-IsShrunk locks _ path key (
      ground (
        arith,
        get-insert r.nodes path key node,
        eq_iff path key,
        h key below,
        ap (starts_with net_prefix) {x = path} {y = key},
        out,
        below,
      ))

  mkdir-HasNoAgent :
      (r : VfsRegistry) (path : Text)
      → starts_with net_prefix (normalize path) ≡ false
      → HasNoAgent r
      → HasNoAgent (mkdir locks r path)
  unfolding mkdir
  mkdir-HasNoAgent r path out h = insert-HasNoAgent r (normalize path) _ out h

  add_node-HasNoAgent :
      (r : VfsRegistry) (path : Text) (node : Vnode)
      → starts_with net_prefix (normalize path) ≡ false
      → HasNoAgent r
      → HasNoAgent (add_node locks r path node)
  unfolding add_node
  add_node-HasNoAgent r path node out h = insert-HasNoAgent r (normalize path) node out h

  pub new-HasNoAgent : HasNoAgent (new locks)
  unfolding new seed_core normalize trim is_whitespace split extend_first filter resolve pop join
      text_beq starts_with get
  new-HasNoAgent = add_node-HasNoAgent _ (codes "/plumber/rules") _ refl (
      add_node-HasNoAgent _ (codes "/ctl/shutdown") _ refl (
        add_node-HasNoAgent _ (codes "/ctl/status") _ refl (
          mkdir-HasNoAgent _ (codes "/ctl") refl (
            mkdir-HasNoAgent _ (codes "/plumber") refl (
              mkdir-HasNoAgent _ (codes "/msg") refl (
                mkdir-HasNoAgent _ (codes "/proc") refl (
                  mkdir-HasNoAgent _ (codes "/ai") refl (
                    mkdir-HasNoAgent (record { nodes = [] }) (codes "/net") refl
                      (λ key h. refl)))))))))
