-- ===== src/Daemon/Files.antt =====
-- src/daemon.rs: the handlers of the files read what they wrote.
use xfiles.Prelude.{◌≡◌, refl, ap, ◌∙◌, true, false, some, Text, text_eq, eq_refl}
use xfiles.Message.{Opaque, ProtocolOp}
use xfiles.Channel.{Channels}
use xfiles.Floats.{Floats, Random}
use xfiles.Plumber.{Patterns}
use xfiles.Mcp.{Json}
use xfiles.Vfs.Paths.{normalize}
use xfiles.Vfs.Vnode.{Utf8, Vnode, is_dir}
use xfiles.Vfs.Registry.{get_node}
use xfiles.Vfs.Registry.Contents.{is_writable, read-write}
use xfiles.Transport.{Hub}
use xfiles.Daemon.{contents, written, fs_read_handler, fs_write_handler, write_file}

writable-is_dir : (node : Vnode) → is_writable node ≡ true → is_dir node ≡ false
unfolding is_dir
writable-is_dir (Vnode.dir d) h = cc
writable-is_dir (Vnode.file f) h = refl
writable-is_dir (Vnode.ctl c) h = refl
writable-is_dir (Vnode.symlink t) h = cc

module _ {x : Opaque} (re : Patterns x) (fl : Floats) (rand : Random fl)
    (ch : Channels (ProtocolOp x)) (u : Utf8) (json : Json x) where
  -- A text that is posted to the path of a file or a control file is answered with 200, and a get of the
  -- path then gives that text with 200.
  pub fs_read_handler-fs_write_handler :
      (h : Hub re fl rand ch u) (path body : Text) (node : Vnode)
      → get_node h.vfs path ≡ some node
      → is_writable node ≡ true
      → let (h', answer) = fs_write_handler re fl rand ch u json h path body in
        (answer ≡ written path)
        × (fs_read_handler re fl rand ch u json h' path ≡ contents path body)
  unfolding fs_write_handler write_file fs_read_handler
  fs_read_handler-fs_write_handler h path body node e w =
      let (vfs', node', e', r, d, found) = read-write u h.vfs path body node e w in
      let answered : fs_write_handler re fl rand ch u json h path body
          ≡ (record h { vfs = vfs' }, written path) =
        rw (e, writable-is_dir node w, fs_write_handler) (rw (e', write_file) refl) in
      let there : get_node vfs' path ≡ some node' =
        found path ∙ rw (eq_refl (normalize path)) refl in
      rw answered (
        refl,
        rw (there, d, fs_read_handler)
            (ap (λ b. contents path (u.from_utf8_lossy b)) r
              ∙ ap (contents path) (u.from_utf8_lossy-as_bytes body)),
      )
