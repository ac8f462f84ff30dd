-- ===== src/Tests/Vfs.antt =====
-- src/fs on concrete paths.
use xfiles.Prelude.{
  ◌≡◌, refl, Bool, true, false, none, some, [], ◌∷◌, All, filter, Text, text_eq, codes, slash, ◌==◌,
  if◌then◌else◌, contains, ◌↔◌, In, ◌⊎◌,
}
use xfiles.Prelude.Texts.{text_beq, trim, is_whitespace, trim_end}
use xfiles.Prelude.Maps.{get, IsMap}
use xfiles.Vfs.Paths.{split, join, pop, resolve, extend_first, normalize}
use xfiles.Vfs.Paths.Split.{IsPart, components}
use xfiles.Vfs.Paths.Normal.{normalize_lem, normalize_not_idem}
use xfiles.Vfs.Vnode.{Vnode, is_dir, read, new_dir}
use xfiles.Vfs.Registry.{VfsRegistry, get_node, write, add_node, mkdir, unmount_agent_ns, list}
use xfiles.Vfs.Registry.Listing.{IsIncreasing, HasChild, list_lem}
use xfiles.Vfs.Registry.Unmount.{IsInNamespace, get_node-unmount_agent_ns}
use xfiles.Vfs.Registry.Contents.{forget, forget?, get_node-add_node, read-write}
use xfiles.Tests.Samples.{ascii}

climbs : normalize (codes " /a/../../b/./c//") ≡ codes "/b/c"
unfolding normalize trim is_whitespace split extend_first filter resolve pop join text_beq
climbs = refl

a-IsPart : IsPart (codes "a")
unfolding contains text_beq
a-IsPart = record { some_text = refl; no_slash = refl; no_dot = refl; no_dots = refl }

b-IsPart : IsPart (codes "b")
unfolding contains text_beq
b-IsPart = record { some_text = refl; no_slash = refl; no_dot = refl; no_dots = refl }

normalize_not_idem_example :
    (normalize (codes "/a /") ≡ codes "/a ") × (normalize (codes "/a ") ≡ codes "/a")
unfolding is_whitespace trim_end
normalize_not_idem_example = normalize_not_idem (codes "a") 0x20 a-IsPart refl refl

abbrev small : VfsRegistry
small = record {
  nodes =
      (codes "/ctl", Vnode.dir (record { name = codes "/ctl"; children = codes "status" ∷ [] }))
      ∷ (codes "/ctl/status", Vnode.ctl (record { name = codes "status"; status = codes "ok" }))
      ∷ [];
}

abbrev status_file : Vnode
status_file = Vnode.ctl (record { name = codes "status"; status = codes "ok" })

read-write_example :
    (r' : VfsRegistry) × (node' : Vnode) × (write ascii small (codes "ctl/status") (codes "stop")
      ≡ some (r', none))
    × (read ascii node' ≡ codes "stop")
    × (is_dir node' ≡ false)
    × ((key : Text)
        → get_node r' key ≡ (
            if normalize (codes "ctl/status") == normalize key
            then some node'
            else get_node small key))
unfolding get_node normalize trim is_whitespace split extend_first filter resolve pop join text_beq
    get
read-write_example =
    read-write ascii small (codes "ctl/status") (codes "stop") status_file refl refl

normalize_lem_example :
    (normalize (codes "/a/../b") ≡ slash ∷ join (components (codes "/a/../b")))
    × All IsPart (components (codes "/a/../b"))
normalize_lem_example = normalize_lem (codes "/a/../b")

-- Every lock is free.
abbrev free : Text → Bool
free path = true

get_node-add_node_example :
    (forget? (get_node (add_node free small (codes "/ai") status_file) (codes "/ctl")) ≡ (
      if normalize (codes "/ai") == normalize (codes "/ctl")
      then some (forget status_file)
      else forget? (get_node small (codes "/ctl"))))
    × (forget? (get_node (mkdir free small (codes "/ai")) (codes "/ctl")) ≡ (
        if normalize (codes "/ai") == normalize (codes "/ctl")
        then some (new_dir (normalize (codes "/ai")))
        else forget? (get_node small (codes "/ctl"))))
get_node-add_node_example = get_node-add_node free small (codes "/ai") (codes "/ctl") status_file

small-IsMap : IsMap small.nodes
unfolding get text_beq
small-IsMap = (refl, (refl, tt))

get_node-unmount_agent_ns_example :
    let found = forget? (get_node (unmount_agent_ns free small (codes "bob")) (codes "/net/bob")) in
    (IsInNamespace (codes "bob") (normalize (codes "/net/bob")) × (found ≡ none))
    ⊎ ((¬ IsInNamespace (codes "bob") (normalize (codes "/net/bob")))
        × (found ≡ forget? (get_node small (codes "/net/bob"))))
get_node-unmount_agent_ns_example =
    get_node-unmount_agent_ns free small (codes "bob") (codes "/net/bob") small-IsMap

list_lem_example :
    IsIncreasing (list small (codes "/ctl"))
    × ((n : Text)
        → In n (list small (codes "/ctl")) ↔ HasChild (normalize (codes "/ctl")) small.nodes n)
unfolding get_node normalize trim is_whitespace split extend_first filter resolve pop join text_beq
    get is_dir
list_lem_example =
    list_lem small (codes "/ctl")
      (Vnode.dir (record { name = codes "/ctl"; children = codes "status" ∷ [] })) refl refl
