-- ===== src/Vfs/Registry.antt =====
-- src/fs/registry.rs: the registry of nodes, keyed by path. `locks` says for each directory whether
-- `try_write` on its list of children gets the lock.
pub mod Contents
pub mod Listing
pub mod Unmount
use xfiles.Prelude.{
  ℕ, Bool, true, false, not, ◌&&◌, ◌||◌, Option, none, some, List, [], ◌∷◌, ◌++◌, filter, contains,
  if◌then◌else◌, ◌==◌, Text, text_eq, codes, slash, Map,
}
use xfiles.Prelude.Maps.{get, contains_key, insert, remove, modify, keys}
use xfiles.Prelude.Texts.{starts_with, text_ltb}
use xfiles.Vfs.Paths.{normalize, split, parent_path, child_name}
use xfiles.Vfs.Vnode.{Utf8, Vdir, Vnode, is_dir, write as write_node, new_dir, new_file, new_ctl}

pub record VfsRegistry : Type 0 where
  pub nodes : Map Text Vnode

-- `rsplit('/').next()`
abbrev pub last : List Text → Text
last [] = []
last (p ∷ []) = p
last (p ∷ q ∷ ps) = last (q ∷ ps)

-- `sort`, on a vector of texts.
unfoldable pub insert_text : Text → List Text → List Text
insert_text a [] = a ∷ []
insert_text a (b ∷ l) = if text_ltb b a then b ∷ insert_text a l else a ∷ b ∷ l

unfoldable pub sort : List Text → List Text
unfolding insert_text
sort [] = []
sort (a ∷ l) = insert_text a (sort l)

-- `dedup`: runs of one text become one.
unfoldable pub dedup : List Text → List Text
dedup [] = []
dedup (a ∷ []) = a ∷ []
dedup (a ∷ b ∷ l) = let rest = dedup (b ∷ l) in if a == b then rest else a ∷ rest

-- `filter_map(|k| child_name(path, k))`
unfoldable pub child_names : Text → Map Text Vnode → List Text
child_names path [] = []
child_names path ((key, node) ∷ nodes) = elim (child_name path key) [
  | none ↦ child_names path nodes
  | some child ↦ child ∷ child_names path nodes
]

add_child : Text → Vnode → Vnode
add_child child (Vnode.dir d) =
    if contains d.children child
    then Vnode.dir d
    else Vnode.dir (record d { children = d.children ++ child ∷ [] })
add_child child node = node

drop_child : Text → Vnode → Vnode
drop_child child (Vnode.dir d) =
    Vnode.dir (record d { children = filter (λ c. not (c == child)) d.children })
drop_child child node = node

unfoldable pub get_node : VfsRegistry → Text → Option Vnode
get_node r path = get r.nodes (normalize path)

unfoldable pub exists : VfsRegistry → Text → Bool
exists r path = contains_key r.nodes (normalize path)

-- The names of the direct children of a directory.
unfoldable pub list : VfsRegistry → Text → List Text
unfolding child_names
list r path =
    let path' = normalize path in
    elim (get r.nodes path') [
      | none ↦ []
      | some node ↦ if is_dir node then dedup (sort (child_names path' r.nodes)) else []
    ]

-- `get` and then `write` on the node.
unfoldable pub write : Utf8 → VfsRegistry → Text → List ℕ → Option (VfsRegistry × Option Text)
write u r path bytes = elim (get r.nodes (normalize path)) [
  | none ↦ none
  | some node ↦
      let (node', error) = write_node u node bytes in
      some (record r { nodes = modify r.nodes (normalize path) (λ _. node') }, error)
]

-- The names of an agent's files.
abbrev pub net_prefix : Text
net_prefix = codes "/net/"

-- Whether `unmount_agent_ns` picks a key.
unfoldable pub is_agent_key : Text → Text → Bool
is_agent_key agent_id key =
    let base = net_prefix ++ agent_id in (key == base) || starts_with (base ++ slash ∷ []) key

module _ (locks : Text → Bool) where
  unfoldable pub link_child : VfsRegistry → Text → Text → VfsRegistry
  unfolding add_child
  link_child r parent child =
      if locks parent
      then record r { nodes = modify r.nodes parent (add_child (last (split child))) }
      else r

  unfoldable pub unlink_child : VfsRegistry → Text → Text → VfsRegistry
  unfolding drop_child
  unlink_child r parent child =
      if locks parent
      then record r { nodes = modify r.nodes parent (drop_child (last (split child))) }
      else r

  -- The call of `link_child` for the parent, if there is one.
  unfoldable pub link_parent : VfsRegistry → Text → VfsRegistry
  unfolding link_child
  link_parent r path = elim (parent_path path) [ none ↦ r | some parent ↦ link_child r parent path ]

  unfoldable pub unlink_parent : VfsRegistry → Text → VfsRegistry
  unfolding unlink_child
  unlink_parent r path = elim (parent_path path) [
    | none ↦ r
    | some parent ↦ unlink_child r parent path
  ]

  unfoldable pub add_node : VfsRegistry → Text → Vnode → VfsRegistry
  unfolding link_parent
  add_node r path node =
      let path' = normalize path in
      link_parent (record r { nodes = insert r.nodes path' node }) path'

  unfoldable pub mkdir : VfsRegistry → Text → VfsRegistry
  unfolding link_parent
  mkdir r path =
      let path' = normalize path in
      link_parent (record r { nodes = insert r.nodes path' (new_dir path') }) path'

  unfoldable pub remove_node : VfsRegistry → Text → VfsRegistry × Option Vnode
  unfolding unlink_parent
  remove_node r path =
      let path' = normalize path in
      elim (get r.nodes path') [
        | none ↦ (r, none)
        | some node ↦ (unlink_parent (record r { nodes = remove r.nodes path' }) path', some node)
      ]

  unfoldable pub seed_core : VfsRegistry → VfsRegistry
  unfolding mkdir add_node new_ctl new_file
  seed_core r₀ =
      let r₁ = mkdir r₀ (codes "/net") in
      let r₂ = mkdir r₁ (codes "/ai") in
      let r₃ = mkdir r₂ (codes "/proc") in
      let r₄ = mkdir r₃ (codes "/msg") in
      let r₅ = mkdir r₄ (codes "/plumber") in
      let r₆ = mkdir r₅ (codes "/ctl") in
      let r₇ = add_node r₆ (codes "/ctl/status") (new_ctl (codes "status") (codes "ok")) in
      let r₈ =
        add_node r₇ (codes "/ctl/shutdown")
          (new_ctl (codes "shutdown") (codes "write 1 to shutdown")) in
      add_node r₈ (codes "/plumber/rules") (new_file (codes "rules") (codes "[]"))

  unfoldable pub new : VfsRegistry
  unfolding seed_core
  new = seed_core (record { nodes = [] })

  unfoldable pub mount_agent_ns : Utf8 → VfsRegistry → Text → Text → VfsRegistry
  mount_agent_ns u r₀ agent_id hostname =
      let base = net_prefix ++ agent_id in
      let r₁ = mkdir r₀ base in
      let r₂ = mkdir r₁ (base ++ codes "/ctl") in
      let r₃ = mkdir r₂ (base ++ codes "/msg") in
      let r₄ =
        add_node r₃ (base ++ codes "/hostname")
          (new_file (codes "hostname") (u.as_bytes hostname)) in
      let r₅ =
        add_node r₄ (base ++ codes "/ctl/status") (new_ctl (codes "status") (codes "connected")) in
      let r₆ =
        add_node r₅ (base ++ codes "/ctl/capabilities")
          (new_file (codes "capabilities") (codes "[]")) in
      let r₇ = add_node r₆ (base ++ codes "/msg/inbox") (new_file (codes "inbox") []) in
      add_node r₇ (base ++ codes "/msg/outbox") (new_file (codes "outbox") [])

  -- One round of the loop that removes the keys, and the loop.
  unfoldable pub remove_key : VfsRegistry → Text → VfsRegistry
  unfolding unlink_parent
  remove_key r key =
      if contains_key r.nodes key
      then unlink_parent (record r { nodes = remove r.nodes key }) key
      else r

  unfoldable pub remove_keys : VfsRegistry → List Text → VfsRegistry
  unfolding remove_key
  remove_keys r [] = r
  remove_keys r (key ∷ ks) = remove_keys (remove_key r key) ks

  unfoldable pub unmount_agent_ns : VfsRegistry → Text → VfsRegistry
  unmount_agent_ns r agent_id =
      remove_keys r (keys (filter (λ e. is_agent_key agent_id e.0) r.nodes))
