-- ===== src/Vfs.antt =====
-- src/fs: the virtual file system. The child modules have the path functions of src/fs/registry.rs,
-- the nodes of src/fs/vnode.rs, and the registry.
pub mod Paths
pub mod Vnode
pub mod Registry
