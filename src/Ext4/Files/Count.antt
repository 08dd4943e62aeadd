-- ===== src/Ext4/Files/Count.antt =====
-- The allocations of the reading and the writing of a file in kernel/src/fs/ext4/ext4.c.
use freecore.Prelude.{ℕ, zero, suc, ◌≡◌, refl, arith}
use freecore.Memory.{Ptr}
use freecore.Ext4.Layout.{Buffer}
use freecore.Ext4.Device.{Services, Fs}
use freecore.Ext4.Device.Count.{IsCounted}
use freecore.Ext4.Extents.Count.{ext4_read_file_block-live}
use freecore.Ext4.Alloc.Count.{ext4_write_extent_block-live}
use freecore.Ext4.Files.{read_loop, write_loop, ext4_read_file_data, ext4_write_file_data}

module _ {W : Type 0} (services : Services W) (q : Ptr) (live : W → ℕ)
    (c : IsCounted services q live) where
  read_loop-live :
      (fs : Fs) (raw : Buffer) (offset size rounds i done : ℕ) (dest b : Buffer) (w : W)
      → live (read_loop services fs raw offset size rounds i done dest b w).1 ≡ live w
  unfolding read_loop
  read_loop-live fs raw offset size zero i done dest b w = refl
  read_loop-live fs raw offset size (suc rounds) i done dest b w =
      grind (
        arith,
        ext4_read_file_block-live services q live c,
        read_loop-live fs raw offset size rounds,
      )

  pub ext4_read_file_data-live :
      (fs : Fs) (raw : Buffer) (offset size : ℕ) (dest : Buffer) (w : W)
      → live (ext4_read_file_data services fs raw offset size dest w).1 ≡ live w
  unfolding ext4_read_file_data
  ext4_read_file_data-live fs raw offset size dest w =
      grind (arith, c.on_kmalloc, c.on_kfree, read_loop-live)

  write_loop-live :
      (src : Buffer) (offset size rounds i done : ℕ) (fs : Fs) (raw b : Buffer) (w : W)
      → live (write_loop services src offset size rounds i done fs raw b w).1.1 ≡ live w
  unfolding write_loop
  write_loop-live src offset size zero i done fs raw b w = refl
  write_loop-live src offset size (suc rounds) i done fs raw b w = grind (
    arith,
    ext4_read_file_block-live services q live c,
    ext4_write_extent_block-live services q live c,
    write_loop-live src offset size rounds,
  )

  pub ext4_write_file_data-live :
      (fs : Fs) (raw : Buffer) (offset size : ℕ) (src : Buffer) (w : W)
      → live (ext4_write_file_data services fs raw offset size src w).1.1 ≡ live w
  unfolding ext4_write_file_data
  ext4_write_file_data-live fs raw offset size src w =
      grind (arith, c.on_kmalloc, c.on_kfree, write_loop-live)
