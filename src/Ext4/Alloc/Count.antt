-- ===== src/Ext4/Alloc/Count.antt =====
-- The allocations of the taking and the writing of a block in kernel/src/fs/ext4/ext4.c.
use freecore.Prelude.{ℕ, zero, suc, ◌≡◌, refl, arith}
use freecore.Memory.{Ptr}
use freecore.Ext4.Layout.{Buffer}
use freecore.Ext4.Device.{Services, Fs}
use freecore.Ext4.Device.Count.{IsCounted, ext4_read_block-live}
use freecore.Ext4.Alloc.{
  Searched, answer, go_on, search_group, group_loop, ext4_allocate_block, ext4_write_extent_block,
}

abbrev world_of : {W : Type 0} → Searched W → W
world_of (answer result block fs w) = w
world_of (go_on w) = w

module _ {W : Type 0} (services : Services W) (q : Ptr) (live : W → ℕ)
    (c : IsCounted services q live) where
  search_group-live :
      (fs : Fs) (group out : ℕ) (w : W)
      → live (world_of (search_group services fs group out w)) ≡ live w
  unfolding search_group
  search_group-live fs group out w =
      grind (arith, c.on_kmalloc, c.on_kfree, c.on_write, ext4_read_block-live services q live c)

  group_loop-live :
      (fs : Fs) (start out rounds i : ℕ) (w : W)
      → live (group_loop services fs start out rounds i w).1.1 ≡ live w
  unfolding group_loop
  group_loop-live fs start out zero i w = refl
  group_loop-live fs start out (suc rounds) i w =
      grind (arith, search_group-live, group_loop-live fs start out rounds)

  pub ext4_write_extent_block-live :
      (fs : Fs) (raw : Buffer) (n : ℕ) (b : Buffer) (w : W)
      → live (ext4_write_extent_block services fs raw n b w).1.1 ≡ live w
  unfolding ext4_write_extent_block ext4_allocate_block
  ext4_write_extent_block-live fs raw n b w = grind (arith, c.on_write, group_loop-live)
