-- ===== src/Ext4/Device.antt =====
-- The mounted filesystem of kernel/src/fs/ext4/ext4.h, the block device of
-- kernel/src/drivers/block/block.h, and the reading of blocks and inodes in
-- kernel/src/fs/ext4/ext4.c. The device's functions and the kernel's heap act on a state of the type `W`.
-- A buffer that `kmalloc` returns is the local buffer of the function that asked for it. The heap is an
-- interface: its laws are those that the heap of kernel/src/mm/kmalloc.c has while it has room, and theorems
-- name the number of buffers that they need. An inode has 128 bytes; what `ext4_read_inode` writes behind
-- them, if the superblock has a larger `s_inode_size`, changes what stands there: `overrun`, a parameter.
pub mod Count
use freecore.Prelude.{
  ℕ, ◌+◌, ◌-◌, ◌*◌, ◌/◌, ◌%◌, ◌^◌, ◌==◌, ltb, leb, if◌then◌else◌, ℤ, pos, minus_one, is_negative,
}
use freecore.Memory.{Ptr, null, word_mod}
use freecore.Ext4.Layout.{
  Buffer, copy_bytes, group_desc, size_of, s_inode_size, bg_inode_table_lo, bg_inode_table_hi,
}

-- `kmalloc` gives the address and what the memory there holds; `read` fills the buffer that it is given;
-- `overrun` is what becomes of the rest of the memory when more bytes than an inode has are written to one.
pub record Services (W : Type 0) : Type 0 where
  pub kmalloc : ℕ → W → (Ptr × Buffer) × W
  pub kfree : Ptr → W → W
  pub read : Ptr → ℕ → ℕ → Buffer → W → (ℤ × Buffer) × W
  pub write : Ptr → ℕ → ℕ → Buffer → W → ℤ × W
  pub overrun : Buffer → W → W

-- `ext4_fs_t`, with the bytes of the superblock and of the descriptors, but for the fields that no code
-- looks at
pub record Fs : Type 0 where
  pub device : Ptr
  pub sb : Buffer
  pub block_size : ℕ
  pub block_count : ℕ
  pub groups_count : ℕ
  pub inodes_per_group : ℕ
  pub blocks_per_group : ℕ
  pub group_desc_table : Ptr
  pub descriptors : Buffer
  pub root_node : Ptr

-- One more than the largest `uint32_t`.
abbrev pub u32_mod : ℕ
u32_mod = 2 ^ 32

-- `lo | ((uint64_t)hi << 32)`
abbrev pub join : ℕ → ℕ → ℕ
join lo hi = lo + u32_mod * hi

-- `&fs->group_desc_table[group]`, as a place in the table
abbrev pub gdesc : ℕ → ℕ
gdesc group = group * size_of group_desc

abbrev inode_table_block : Fs → ℕ → ℕ
inode_table_block fs group =
    join (bg_inode_table_lo fs.descriptors (gdesc group))
      (bg_inode_table_hi fs.descriptors (gdesc group))

-- `index * fs->sb.s_inode_size`
abbrev inode_place : Fs → ℕ → ℕ
inode_place fs n = (n - 1) % fs.inodes_per_group * s_inode_size fs.sb % u32_mod

-- `sizeof(ext4_inode_t)`
abbrev inode_bytes : ℕ
inode_bytes = 128

module _ {W : Type 0} (services : Services W) where
  -- The state after `memcpy` to an inode.
  abbrev overwritten : Fs → Buffer → W → W
  overwritten fs inode w =
      if ltb inode_bytes (s_inode_size fs.sb) then services.overrun inode w else w

  unfoldable pub ext4_read_block : Fs → ℕ → Buffer → W → (ℤ × Buffer) × W
  ext4_read_block fs block_num buffer w =
      if fs.device == null
      then ((minus_one, buffer), w)
      else services.read fs.device (block_num * fs.block_size % word_mod) fs.block_size buffer w

  -- What follows the reading of the block: the copy of the inode, and the release of the buffer.
  abbrev inode_copied : Fs → ℕ → Buffer → Ptr → (ℤ × Buffer) × W → (ℤ × Buffer) × W
  inode_copied fs n inode p ((result, block_buffer), w) =
      let copied =
        copy_bytes inode 0 block_buffer (inode_place fs n % fs.block_size) (s_inode_size fs.sb) in
      if is_negative result
      then ((result, inode), services.kfree p w)
      else ((pos 0, copied), services.kfree p (overwritten fs copied w))

  abbrev inode_buffered : Fs → ℕ → Buffer → (Ptr × Buffer) × W → (ℤ × Buffer) × W
  inode_buffered fs n inode ((p, block_buffer), w) =
      let group = (n - 1) / fs.inodes_per_group in
      let inode_block =
        (inode_table_block fs group + inode_place fs n / fs.block_size) % word_mod in
      if p == null
      then ((minus_one, inode), w)
      else inode_copied fs n inode p (ext4_read_block fs inode_block block_buffer w)

  unfoldable pub ext4_read_inode : Fs → ℕ → Buffer → W → (ℤ × Buffer) × W
  unfolding ext4_read_block copy_bytes
  ext4_read_inode fs inode_num inode w =
      if inode_num == 0
      then ((minus_one, inode), w)
      else if leb fs.groups_count ((inode_num - 1) / fs.inodes_per_group)
      then ((minus_one, inode), w)
      else inode_buffered fs inode_num inode (services.kmalloc fs.block_size w)
