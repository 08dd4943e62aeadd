-- ===== src/Ext4/Mount/Released.antt =====
-- The allocations of a mount and an unmount in kernel/src/fs/ext4/ext4.c.
use freecore.Prelude.{ℕ, ◌+◌, ◌-◌, ◌≡◌, false, arith, if◌then◌else◌, is_negative}
use freecore.Memory.{Ptr}
use freecore.Vfs.Types.{World}
use freecore.Ext4.Layout.{Buffer}
use freecore.Ext4.Device.{Services}
use freecore.Ext4.Device.Count.{IsCounted, one}
use freecore.Ext4.Nodes.{Driven}
use freecore.Ext4.Mount.{ext4_mount, ext4_unmount}
use freecore.Ext4.Mount.Count.{OwnsRoot, released_by, ext4_mount-Settles}

module _ {W : Type 0} (services : Services W) (q : Ptr) (live : W → ℕ)
    (c : IsCounted services q live) where
  ext4_unmount-live :
      (root : Ptr) (w : World (Driven W))
      → OwnsRoot root w
      → live (ext4_unmount services root w).fs.rest ≡ live w.fs.rest - released_by q root w
  unfolding ext4_unmount
  ext4_unmount-live root w o = grind (arith, c.on_kfree, o.node, o.info, o.fs, o.table)

  -- A mount that fails has released all that it allocated, and one that succeeds keeps four allocations:
  -- the root node, and the root's inode, the filesystem and its descriptors, which the node leads to.
  ext4_mount-live :
      (ext4_ops : Ptr) (stack : Buffer) (device root : Ptr) (w : World (Driven W))
      → let (got, w') = ext4_mount services ext4_ops stack device root w in
        live w'.fs.rest ≡ (
          if is_negative got.0
          then live w.fs.rest
          else live w.fs.rest + one q got.1 + released_by q got.1 w')
  ext4_mount-live ext4_ops stack device root w =
      (ext4_mount-Settles services q live c ext4_ops stack device root w).0

  -- Where `kmalloc`, `kfree` and nothing else change how often an address is allocated, a mount that has
  -- succeeded, undone by an unmount of its root node, leaves the root node allocated once more than before
  -- the mount, and every other address as often as before.
  pub ext4_unmount-ext4_mount :
      (ext4_ops : Ptr) (stack : Buffer) (device root : Ptr) (w : World (Driven W))
      → let (got, w') = ext4_mount services ext4_ops stack device root w in
        is_negative got.0 ≡ false
        → live (ext4_unmount services got.1 w').fs.rest ≡ live w.fs.rest + one q got.1
  ext4_unmount-ext4_mount ext4_ops stack device root w e =
      let (got, w') = ext4_mount services ext4_ops stack device root w in
      let (count, owns) = ext4_mount-Settles services q live c ext4_ops stack device root w in
      ground (arith, ext4_unmount-live got.1 w' (owns e))
