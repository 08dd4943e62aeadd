-- ===== src/Ext4/Extents/Count.antt =====
-- The allocations of the search of the tree of extents in kernel/src/fs/ext4/ext4.c.
use freecore.Prelude.{ℕ, zero, suc, ◌-◌, ◌≡◌, refl, arith, ◌==◌, if◌then◌else◌}
use freecore.Memory.{Ptr, null}
use freecore.Ext4.Layout.{Buffer}
use freecore.Ext4.Device.{Services, Fs}
use freecore.Ext4.Device.Count.{IsCounted, one, ext4_read_block-live}
use freecore.Ext4.Extents.{descend, tree_buffered, ext4_read_extent_block, ext4_read_file_block}

module _ {W : Type 0} (services : Services W) (q : Ptr) (live : W → ℕ)
    (c : IsCounted services q live) where
  descend-live :
      (fs : Fs) (n depth : ℕ) (node : Buffer) (w : W)
      → live (descend services fs n depth node w).1 ≡ live w
  unfolding descend
  descend-live fs n zero node w = refl
  descend-live fs n (suc depth) node w =
      grind (arith, ext4_read_block-live services q live c, descend-live fs n depth)

  tree_buffered-live :
      (fs : Fs) (raw : Buffer) (n phys : ℕ) (p : Ptr) (b : Buffer) (w : W)
      → live (tree_buffered services fs raw n phys ((p, b), w)).1
        ≡ (if p == null then live w else live w - one q p)
  tree_buffered-live fs raw n phys p b w = grind (arith, c.on_kfree, descend-live)

  ext4_read_extent_block-live :
      (fs : Fs) (raw : Buffer) (n phys : ℕ) (w : W)
      → live (ext4_read_extent_block services fs raw n phys w).1 ≡ live w
  unfolding ext4_read_extent_block
  ext4_read_extent_block-live fs raw n phys w = grind (arith, c.on_kmalloc, tree_buffered-live)

  pub ext4_read_file_block-live :
      (fs : Fs) (raw : Buffer) (n : ℕ) (b : Buffer) (w : W)
      → live (ext4_read_file_block services fs raw n b w).1 ≡ live w
  unfolding ext4_read_file_block
  ext4_read_file_block-live fs raw n b w =
      grind (arith, ext4_read_extent_block-live, ext4_read_block-live services q live c)
