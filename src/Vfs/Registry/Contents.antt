-- ===== src/Vfs/Registry/Contents.antt =====
-- src/fs/registry.rs: what a lookup finds after a change. The lists of children are left out: they
-- depend on the locks.
use xfiles.Prelude.{
  ℕ, ◌≡◌, ◌≢◌, refl, ap, ◌∙◌, Bool, true, false, Option, none, some, List, [], arith, if◌then◌else◌,
  ◌==◌, eq_iff, Text, text_eq, Option-cases, Bool-cases, inl, inr,
}
use xfiles.Prelude.Maps.{get, insert, remove, modify, get-insert, get-remove, get-modify}
use xfiles.Vfs.Paths.{normalize, parent_path}
use xfiles.Vfs.Vnode.{is_dir, Utf8, Vnode, read, write as write_node, new_dir}
use xfiles.Vfs.Registry.{
  VfsRegistry, add_child, drop_child, get_node, write, link_child, unlink_child, link_parent,
  unlink_parent, add_node, mkdir, remove_node,
}

-- A node without its list of children.
abbrev pub forget : Vnode → Vnode
forget (Vnode.dir d) = Vnode.dir (record d { children = [] })
forget (Vnode.file f) = Vnode.file f
forget (Vnode.ctl c) = Vnode.ctl c
forget (Vnode.symlink s) = Vnode.symlink s

abbrev pub forget? : Option Vnode → Option Vnode
forget? none = none
forget? (some node) = some (forget node)

-- What stands at a key.
abbrev pub seen : VfsRegistry → Text → Option Vnode
seen r key = forget? (get r.nodes key)

forget-add_child : (c : Text) (n : Vnode) → forget (add_child c n) ≡ forget n
unfolding add_child
forget-add_child c (Vnode.dir d) = ground arith
forget-add_child c (Vnode.file f) = refl
forget-add_child c (Vnode.ctl f) = refl
forget-add_child c (Vnode.symlink s) = refl

forget-drop_child : (c : Text) (n : Vnode) → forget (drop_child c n) ≡ forget n
unfolding drop_child
forget-drop_child c (Vnode.dir d) = refl
forget-drop_child c (Vnode.file f) = refl
forget-drop_child c (Vnode.ctl f) = refl
forget-drop_child c (Vnode.symlink s) = refl

seen-modify :
    (r : VfsRegistry) (k j : Text) (f : Vnode → Vnode)
    → ((n : Vnode) → forget (f n) ≡ forget n)
    → forget? (get (modify r.nodes k f) j) ≡ seen r j
seen-modify r k j f h = elim (Option-cases (get r.nodes j)) [
  | inl e ↦ ground (arith, get-modify r.nodes k j f)
  | inr (n, e) ↦ ground (arith, get-modify r.nodes k j f, h n)
]

module _ (locks : Text → Bool) where
  seen-link_child :
      (r : VfsRegistry) (parent child key : Text)
      → seen (link_child locks r parent child) key ≡ seen r key
  unfolding link_child
  seen-link_child r parent child key = elim (Bool-cases (locks parent)) [
    | inl e ↦ rw e (seen-modify r parent key _ (forget-add_child _))
    | inr e ↦ rw e refl
  ]

  seen-unlink_child :
      (r : VfsRegistry) (parent child key : Text)
      → seen (unlink_child locks r parent child) key ≡ seen r key
  unfolding unlink_child
  seen-unlink_child r parent child key = elim (Bool-cases (locks parent)) [
    | inl e ↦ rw e (seen-modify r parent key _ (forget-drop_child _))
    | inr e ↦ rw e refl
  ]

  seen-link_parent :
      (r : VfsRegistry) (path key : Text) → seen (link_parent locks r path) key ≡ seen r key
  unfolding link_parent
  seen-link_parent r path key = elim (Option-cases (parent_path path)) [
    | inl e ↦ rw (e, link_parent) refl
    | inr (parent, e) ↦ rw (e, link_parent) (seen-link_child r parent path key)
  ]

  pub seen-unlink_parent :
      (r : VfsRegistry) (path key : Text) → seen (unlink_parent locks r path) key ≡ seen r key
  unfolding unlink_parent
  seen-unlink_parent r path key = elim (Option-cases (parent_path path)) [
    | inl e ↦ rw (e, unlink_parent) refl
    | inr (parent, e) ↦ rw (e, unlink_parent) (seen-unlink_child r parent path key)
  ]

  seen-insert :
      (r : VfsRegistry) (path key : Text) (node : Vnode)
      → seen (record r { nodes = insert r.nodes path node }) key
        ≡ (if path == key then some (forget node) else seen r key)
  seen-insert r path key node = ground (arith, get-insert r.nodes path key node)

  -- After `add_node` and `mkdir` a lookup, of any spelling of a path, finds the new node at each path
  -- with the same normal form, and at every other path what was there before, but for the lists of
  -- children.
  pub get_node-add_node :
      (r : VfsRegistry) (path key : Text) (node : Vnode)
      → (forget? (get_node (add_node locks r path node) key) ≡ (
          if normalize path == normalize key then some (forget node) else forget? (get_node r key)))
        × (forget? (get_node (mkdir locks r path) key) ≡ (
            if normalize path == normalize key
            then some (new_dir (normalize path))
            else forget? (get_node r key)))
  unfolding add_node mkdir get_node new_dir
  get_node-add_node r path key node = (
    seen-link_parent _ (normalize path) (normalize key)
        ∙ seen-insert r (normalize path) (normalize key) node,
    seen-link_parent _ (normalize path) (normalize key)
        ∙ seen-insert r (normalize path) (normalize key) (new_dir (normalize path)),
  )

  pub seen-remove :
      (r : VfsRegistry) (path key : Text)
      → seen (record r { nodes = remove r.nodes path }) key
        ≡ (if path == key then none else seen r key)
  seen-remove r path key = ground (arith, get-remove r.nodes path key)

  -- `remove` returns the node that a lookup finds, and takes it away at each spelling of its path and
  -- nothing at any other path, but for the lists of children.
  pub get_node-remove_node :
      (r : VfsRegistry) (path key : Text)
      → ((remove_node locks r path).1 ≡ get_node r path)
        × (forget? (get_node (remove_node locks r path).0 key)
            ≡ (if normalize path == normalize key then none else forget? (get_node r key)))
  unfolding remove_node get_node
  get_node-remove_node r path key = elim (Option-cases (get r.nodes (normalize path))) [
    | inl e ↦ rw (e, remove_node) (refl, ground (arith, e, eq_iff (normalize path) (normalize key)))
    | inr (node, e) ↦
        rw (e, remove_node)
          (
            refl,
            seen-unlink_parent _ (normalize path) (normalize key)
                ∙ seen-remove r (normalize path) (normalize key),
          )
  ]

-- The nodes that take a write.
abbrev pub is_writable : Vnode → Bool
is_writable (Vnode.dir d) = false
is_writable (Vnode.file f) = true
is_writable (Vnode.ctl c) = true
is_writable (Vnode.symlink s) = false

write_node-writable :
    (u : Utf8) (node : Vnode) (t : Text)
    → is_writable node ≡ true
    → ((write_node u node (u.as_bytes t)).1 ≡ none)
      × (read u (write_node u node (u.as_bytes t)).0 ≡ u.as_bytes t)
      × (is_dir (write_node u node (u.as_bytes t)).0 ≡ false)
unfolding write_node read is_dir
write_node-writable u (Vnode.dir d) t h = cc
write_node-writable u (Vnode.file f) t h = (refl, refl, refl)
write_node-writable u (Vnode.ctl c) t h = (refl, ap u.as_bytes (u.from_utf8_lossy-as_bytes t), refl)
write_node-writable u (Vnode.symlink s) t h = cc

-- A write of a text's bytes to a file or a control file succeeds; a read of the path gives them back;
-- the node is no directory; and at the paths with another normal form the nodes stay as they are.
pub read-write :
    (u : Utf8) (r : VfsRegistry) (path : Text) (t : Text) (node : Vnode)
    → get_node r path ≡ some node
    → is_writable node ≡ true
    → (r' : VfsRegistry) × (node' : Vnode) × (write u r path (u.as_bytes t) ≡ some (r', none))
      × (read u node' ≡ u.as_bytes t)
      × (is_dir node' ≡ false)
      × ((key : Text)
          → get_node r' key
            ≡ (if normalize path == normalize key then some node' else get_node r key))
unfolding write get_node
read-write u r path t node e h =
    let w = write_node-writable u node t h in
    let node' = (write_node u node (u.as_bytes t)).0 in
    (
      record r { nodes = modify r.nodes (normalize path) (λ _. node') },
      node',
      rw (e, write) (ground (arith, w.0)),
      w.1,
      w.2,
      λ key. ground (
        arith,
        get-modify r.nodes (normalize path) (normalize key) (λ _. node'),
        eq_iff (normalize path) (normalize key),
      ),
    )

write_node-refused :
    (u : Utf8) (node : Vnode) (bytes : List ℕ)
    → is_writable node ≡ false
    → ((write_node u node bytes).0 ≡ node) × ((write_node u node bytes).1 ≢ none)
unfolding write_node
write_node-refused u (Vnode.dir d) bytes h = (refl, λ k. cc)
write_node-refused u (Vnode.file f) bytes h = cc
write_node-refused u (Vnode.ctl c) bytes h = cc
write_node-refused u (Vnode.symlink s) bytes h = (refl, λ k. cc)

-- A write to a directory or a symbolic link reports an error and changes no node.
pub write_refused :
    (u : Utf8) (r : VfsRegistry) (path : Text) (bytes : List ℕ) (node : Vnode)
    → get_node r path ≡ some node
    → is_writable node ≡ false
    → (r' : VfsRegistry) × (error : Text) × (write u r path bytes ≡ some (r', some error))
      × ((key : Text) → get_node r' key ≡ get_node r key)
unfolding write get_node
write_refused u r path bytes node e h =
    let w = write_node-refused u node bytes h in
    let node' = (write_node u node bytes).0 in
    elim (Option-cases (write_node u node bytes).1) [
      | inl q ↦ absurd (w.1 q)
      | inr (error, q) ↦ (
        record r { nodes = modify r.nodes (normalize path) (λ _. node') },
        error,
        rw (e, write) (ground (arith, q)),
        λ key. ground (
          arith,
          get-modify r.nodes (normalize path) (normalize key) (λ _. node'),
          eq_iff (normalize path) (normalize key),
          w.0,
        ),
      )
    ]
