-- ===== src/Ext4.antt =====
-- kernel/src/fs/ext4/ext4.c and kernel/src/fs/ext4/ext4.h, the driver of the ext4 filesystem.
pub mod Layout
pub mod Device
pub mod Extents
pub mod Alloc
pub mod Files
pub mod Dirs
pub mod Nodes
pub mod Operations
pub mod Mount
pub mod Driver
mod Tests
