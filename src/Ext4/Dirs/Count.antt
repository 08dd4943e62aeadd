-- ===== src/Ext4/Dirs/Count.antt =====
-- The allocations of the search and the listing of a directory in kernel/src/fs/ext4/ext4.c.
use freecore.Prelude.{ℕ, zero, suc, ◌≡◌, refl, arith}
use freecore.Memory.{Ptr}
use freecore.Vfs.Types.{Str}
use freecore.Ext4.Layout.{Buffer}
use freecore.Ext4.Device.{Services, Fs}
use freecore.Ext4.Device.Count.{IsCounted}
use freecore.Ext4.Extents.Count.{ext4_read_file_block-live}
use freecore.Ext4.Dirs.{Dirent, block_loop, list_loop, ext4_find_dir_entry, list_entry}

module _ {W : Type 0} (services : Services W) (q : Ptr) (live : W → ℕ)
    (c : IsCounted services q live) where
  block_loop-live :
      (fs : Fs) (raw : Buffer) (name : Str) (out rounds i : ℕ) (b : Buffer) (w : W)
      → live (block_loop services fs raw name out rounds i b w).1 ≡ live w
  unfolding block_loop
  block_loop-live fs raw name out zero i b w = refl
  block_loop-live fs raw name out (suc rounds) i b w =
      grind
        (arith, ext4_read_file_block-live services q live c, block_loop-live fs raw name out rounds)

  pub ext4_find_dir_entry-live :
      (fs : Fs) (raw : Buffer) (name : Str) (out : ℕ) (w : W)
      → live (ext4_find_dir_entry services fs raw name out w).1 ≡ live w
  unfolding ext4_find_dir_entry
  ext4_find_dir_entry-live fs raw name out w =
      grind (arith, c.on_kmalloc, c.on_kfree, block_loop-live)

  list_loop-live :
      (fs : Fs) (raw : Buffer) (index : ℕ) (d : Dirent) (rounds i k : ℕ) (b : Buffer) (w : W)
      → live (list_loop services fs raw index d rounds i k b w).1 ≡ live w
  unfolding list_loop
  list_loop-live fs raw index d zero i k b w = refl
  list_loop-live fs raw index d (suc rounds) i k b w =
      grind
        (arith, ext4_read_file_block-live services q live c, list_loop-live fs raw index d rounds)

  pub list_entry-live :
      (fs : Fs) (raw : Buffer) (index : ℕ) (d : Dirent) (w : W)
      → live (list_entry services fs raw index d w).1 ≡ live w
  unfolding list_entry
  list_entry-live fs raw index d w = grind (arith, c.on_kmalloc, c.on_kfree, list_loop-live)
