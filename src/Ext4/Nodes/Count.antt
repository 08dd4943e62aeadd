-- ===== src/Ext4/Nodes/Count.antt =====
-- The allocations of the making of a node in kernel/src/fs/ext4/ext4.c, and what it refers to.
use freecore.Prelude.{ℕ, ◌+◌, ◌≡◌, ◌≢◌, false, arith, if◌then◌else◌, is_negative}
use freecore.Memory.{Ptr, null}
use freecore.Vfs.Types.{World}
use freecore.Ext4.Layout.{Buffer}
use freecore.Ext4.Device.{Services}
use freecore.Ext4.Device.Count.{IsCounted, one, ext4_read_inode-live}
use freecore.Ext4.Nodes.{Driven, ext4_create_vfs_node}

module _ {W : Type 0} (services : Services W) (q : Ptr) (live : W → ℕ)
    (c : IsCounted services q live) (ext4_ops : Ptr) (stack : Buffer) where
  pub ext4_create_vfs_node-live :
      (fs : Ptr) (n : ℕ) (node : Ptr) (w : World (Driven W))
      → let (result, w') = ext4_create_vfs_node services ext4_ops stack fs n node w in
        live w'.fs.rest ≡ (
          if is_negative result
          then live w.fs.rest
          else live w.fs.rest + one q (w'.nodes node).private_data)
  unfolding ext4_create_vfs_node
  ext4_create_vfs_node-live fs n node w =
      grind (arith, c.on_kmalloc, ext4_read_inode-live services q live c)

  -- The new node refers to a structure of its own, and that to the filesystem.
  pub ext4_create_vfs_node-Refers :
      (fs : Ptr) (n : ℕ) (node : Ptr) (w : World (Driven W))
      → let (result, w') = ext4_create_vfs_node services ext4_ops stack fs n node w in
        (w'.fs.mounted ≡ w.fs.mounted)
        × (is_negative result ≡ false
            → ((w'.nodes node).private_data ≢ null)
              × ((w'.fs.infos (w'.nodes node).private_data).fs ≡ fs))
  unfolding ext4_create_vfs_node
  ext4_create_vfs_node-Refers fs n node w = ground arith
