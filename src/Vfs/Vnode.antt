-- ===== src/Vfs/Vnode.antt =====
-- src/fs/vnode.rs: the nodes. What a lock guards is the node's own field; a clone of a node shares it,
-- which shows in `Registry.write`, where a write through a clone reaches the node of the registry.
-- `as_bytes` and `from_utf8_lossy` are an interface.
use xfiles.Prelude.{ℕ, ◌≡◌, Bool, true, false, Option, none, some, List, [], ◌∷◌, ◌++◌, Text, codes}

-- The bytes of a text, and the text of some bytes, which undoes it.
pub record Utf8 : Type 0 where
  pub as_bytes : Text → List ℕ
  pub from_utf8_lossy : List ℕ → Text
  pub from_utf8_lossy-as_bytes : (t : Text) → from_utf8_lossy (as_bytes t) ≡ t

pub record Vdir : Type 0 where
  pub name : Text
  pub children : List Text

pub record Vfile : Type 0 where
  pub name : Text
  pub content : List ℕ

pub record Vctl : Type 0 where
  pub name : Text
  pub status : Text

pub data Vnode : Type 0 where
  dir : Vdir → Vnode
  file : Vfile → Vnode
  ctl : Vctl → Vnode
  symlink : Text → Vnode

pub data VnodeKind : Type 0 where
  dir file ctl symlink : VnodeKind

unfoldable pub kind : Vnode → VnodeKind
kind (dir d) = VnodeKind.dir
kind (file f) = VnodeKind.file
kind (ctl c) = VnodeKind.ctl
kind (symlink s) = VnodeKind.symlink

unfoldable pub name : Vnode → Text
name (dir d) = d.name
name (file f) = f.name
name (ctl c) = c.name
name (symlink s) = s

unfoldable pub is_dir : Vnode → Bool
is_dir (dir d) = true
is_dir (file f) = false
is_dir (ctl c) = false
is_dir (symlink s) = false

unfoldable pub new_dir : Text → Vnode
new_dir name = dir (record { name = name; children = [] })

unfoldable pub new_file : Text → List ℕ → Vnode
new_file name content = file (record { name = name; content = content })

unfoldable pub new_ctl : Text → Text → Vnode
new_ctl name status = ctl (record { name = name; status = status })

-- `join("\n")`
unfoldable pub join_lines : List Text → Text
join_lines [] = []
join_lines (p ∷ []) = p
join_lines (p ∷ q ∷ ps) = p ++ b'\n' ∷ join_lines (q ∷ ps)

abbrev pub not_to_directory : Text
not_to_directory = codes "cannot write to directory"

abbrev pub not_to_symlink : Text
not_to_symlink = codes "cannot write to symlink"

module _ (u : Utf8) where
  open u use {as_bytes, from_utf8_lossy}

  unfoldable pub read : Vnode → List ℕ
  unfolding join_lines
  read (file f) = f.content
  read (ctl c) = as_bytes c.status
  read (dir d) = as_bytes (join_lines d.children)
  read (symlink target) = as_bytes target

  -- The node after the write, and the error, if there is one.
  unfoldable pub write : Vnode → List ℕ → Vnode × Option Text
  write (file f) bytes = (file (record f { content = bytes }), none)
  write (ctl c) bytes = (ctl (record c { status = from_utf8_lossy bytes }), none)
  write (dir d) bytes = (dir d, some not_to_directory)
  write (symlink target) bytes = (symlink target, some not_to_symlink)
