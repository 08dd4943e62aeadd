-- ===== src/Ext4/Device/Count.antt =====
-- The number of allocations of an address that are not released, which the heap and the device of
-- kernel/src/fs/ext4/ext4.c change, over the reading of a block and of an inode.
use freecore.Prelude.{ℕ, ◌+◌, ◌-◌, ◌≡◌, ◌≢◌, arith, ◌==◌, if◌then◌else◌}
use freecore.Memory.{Ptr, null}
use freecore.Ext4.Layout.{Buffer}
use freecore.Ext4.Device.{Services, Fs, ext4_read_block, ext4_read_inode}

-- Whether an address is the one that is counted.
abbrev pub one : Ptr → Ptr → ℕ
one q p = if p == q then 1 else 0

-- `live` counts the allocations of the address `q` that are not released: `kmalloc` adds one if it
-- returns `q`, `kfree` of `q` takes one off if there is one, `kfree` of another address changes nothing
-- for `q`, and neither the device nor an overrun of an inode on the stack touches the heap.
pub record IsCounted {W : Type 0} (services : Services W) (q : Ptr) (live : W → ℕ) : Type 0 where
  pub on_kmalloc :
      (n : ℕ) (w : W)
      → let (got, w') = services.kmalloc n w in
        live w' ≡ (if got.0 == null then live w else live w + one q got.0)
  pub on_kfree : (p : Ptr) (w : W) → p ≢ null → live (services.kfree p w) ≡ live w - one q p
  pub on_read :
      (device : Ptr) (offset n : ℕ) (b : Buffer) (w : W)
      → live (services.read device offset n b w).1 ≡ live w
  pub on_overrun : (b : Buffer) (w : W) → live (services.overrun b w) ≡ live w
  pub on_write :
      (device : Ptr) (offset n : ℕ) (b : Buffer) (w : W)
      → live (services.write device offset n b w).1 ≡ live w

module _ {W : Type 0} (services : Services W) (q : Ptr) (live : W → ℕ)
    (c : IsCounted services q live) where
  pub ext4_read_block-live :
      (fs : Fs) (n : ℕ) (b : Buffer) (w : W) → live (ext4_read_block services fs n b w).1 ≡ live w
  unfolding ext4_read_block
  ext4_read_block-live fs n b w = grind (arith, c.on_read)

  pub ext4_read_inode-live :
      (fs : Fs) (n : ℕ) (inode : Buffer) (w : W)
      → live (ext4_read_inode services fs n inode w).1 ≡ live w
  unfolding ext4_read_inode
  ext4_read_inode-live fs n inode w =
      grind (arith, c.on_kmalloc, c.on_kfree, c.on_overrun, ext4_read_block-live)
