-- ===== src/Vfs.antt =====
-- kernel/src/fs/vfs.c and vfs.h, the virtual filesystem, in the order of the file: the paths, the
-- walk to a node, the mount table, the open files, and the calls that act on a name.
pub mod Types
pub mod Path
pub mod Search
pub mod Lookup
pub mod Mounts
pub mod Files
pub mod Names
mod Tests
