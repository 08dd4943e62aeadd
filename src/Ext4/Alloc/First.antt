-- ===== src/Ext4/Alloc/First.antt =====
-- Which block `ext4_allocate_block` of kernel/src/fs/ext4/ext4.c takes, and what it writes.
use freecore.Prelude.{ℕ, List, ◌+◌, ◌*◌, ◌%◌, ◌≡◌, ltb, if◌then◌else◌, ℤ, pos}
use freecore.Memory.{Ptr, word_mod}
use freecore.Ext4.Layout.{Buffer, s_first_data_block, bg_free_blocks_count_lo}
use freecore.Ext4.Device.{Services, Fs, gdesc, u32_mod, ext4_read_block}
use freecore.Ext4.Alloc.{bitmap_block, set_bit}
use freecore.Ext4.Extents.File.{filled}
use freecore.Ext4.Extents.Tree.{IsDisk}

-- The group that the loop looks at in round `i`.
abbrev pub group_at : Fs → ℕ → ℕ → ℕ
group_at fs start i = (start + i) % u32_mod % fs.groups_count

-- The group at which the search begins.
abbrev pub first_group : Fs → ℕ → ℕ
first_group fs hint = if ltb hint fs.groups_count then hint else 0

module _ {W : Type 0} (services : Services W) (Ready : ℕ → List Ptr → W → Type 0) (fs : Fs)
    (disk : ℕ → Buffer) (d : IsDisk services Ready fs disk) where
  -- The bitmap of a group in the buffer that `kmalloc` returns.
  abbrev pub bitmap_of : ℕ → W → Buffer
  bitmap_of group w =
      filled (services.kmalloc fs.block_size w).0.1 fs.block_size (disk (bitmap_block fs group))

  -- The state after the bitmap of a group has been read.
  abbrev pub after_read : ℕ → W → W
  after_read group w =
      let (got, w') = services.kmalloc fs.block_size w in
      (ext4_read_block services fs (bitmap_block fs group) got.1 w').1

  -- A call that has taken the bit `j` of a group: the bitmap with that bit set has been written to its
  -- block, the lower half of the free count in the group's descriptor is one less modulo 2^16, and the
  -- block's number and the superblock's first data block add up to that of the bitmap and j + 1, modulo 2^64.
  pub record Takes (group j : ℕ) (w : W) (r : (ℤ × ℕ) × (Fs × W)) : Type 0 where
    result : r.0.0 ≡ pos 0
    block :
        (r.0.1 + s_first_data_block fs.sb) % word_mod ≡ (bitmap_block fs group + j + 1) % word_mod
    count :
        (bg_free_blocks_count_lo r.1.0.descriptors (gdesc group) + 1) % 65536
        ≡ bg_free_blocks_count_lo fs.descriptors (gdesc group) % 65536
    others : record r.1.0 { descriptors = fs.descriptors } ≡ fs
    bitmap :
        r.1.1
        ≡ services.kfree
            (services.kmalloc fs.block_size w).0.0
            (services.write fs.device
              (bitmap_block fs group * fs.block_size % word_mod)
              fs.block_size
              (set_bit (bitmap_of group w) j)
              (after_read group w)).1
