-- ===== src/Ext4/Alloc.antt =====
-- kernel/src/fs/ext4/ext4.c, the allocation of blocks and the writing of a block of a file. The
-- descriptors of the groups and the inode are changed in memory, and come back with the result.
pub mod Count
pub mod Again
pub mod Bits
pub mod First
use freecore.Prelude.{
  ℕ, zero, suc, ◌+◌, ◌-◌, ◌*◌, ◌/◌, ◌%◌, ◌^◌, not, ◌==◌, ltb, if◌then◌else◌, Option, none, some, ℤ,
  pos, minus_one, is_negative,
}
use freecore.Memory.{Ptr, null, word_mod}
use freecore.Ext4.Layout.{
  Buffer, inode, group_desc, extent_header, extent, set_field, s_first_data_block,
  bg_block_bitmap_lo, bg_block_bitmap_hi, bg_free_blocks_count_lo, bg_free_blocks_count_hi,
  eh_magic,
}
use freecore.Ext4.Device.{Services, Fs, ext4_read_block, join, u32_mod, gdesc}
use freecore.Ext4.Extents.{
  ext4_extent_header_magic, has_extents, root_place, extent_place, file_size,
}

-- `bitmap[j / 8] & (1 << (j % 8))`
abbrev pub bit_at : Buffer → ℕ → ℕ
bit_at bitmap j = bitmap (j / 8) / 2 ^ (j % 8) % 2

-- `bitmap[j / 8] |= 1 << (j % 8)`, for a bit that is clear
unfoldable pub set_bit : Buffer → ℕ → Buffer
set_bit bitmap j k = if k == j / 8 then bitmap k + 2 ^ (j % 8) else bitmap k

-- The search of a bitmap for a clear bit, with the rounds left and the index.
pub find_clear : Buffer → ℕ → ℕ → Option ℕ
find_clear bitmap zero j = none
find_clear bitmap (suc rounds) j =
    let rest = find_clear bitmap rounds (j + 1) in if bit_at bitmap j == 0 then some j else rest

-- `free_blocks_lo--` in the descriptor
abbrev pub taken_from : ℕ → Fs → Fs
taken_from group fs = record fs {
  descriptors =
      set_field group_desc 3 fs.descriptors (gdesc group)
        ((bg_free_blocks_count_lo fs.descriptors (gdesc group) + 65535) % 65536);
}

abbrev pub free_blocks : Fs → ℕ → ℕ
free_blocks fs group =
    bg_free_blocks_count_lo fs.descriptors (gdesc group)
    + 65536 * bg_free_blocks_count_hi fs.descriptors (gdesc group)

abbrev pub bitmap_block : Fs → ℕ → ℕ
bitmap_block fs group =
    join (bg_block_bitmap_lo fs.descriptors (gdesc group))
      (bg_block_bitmap_hi fs.descriptors (gdesc group))

-- `bitmap_block - fs->sb.s_first_data_block + j + 1`
abbrev pub block_number : Fs → ℕ → ℕ → ℕ
block_number fs group j =
    (bitmap_block fs group + (word_mod - s_first_data_block fs.sb) + j + 1) % word_mod

-- The new header and the first extent of an inode that has none.
abbrev pub first_extent : Buffer → ℕ → ℕ → Buffer
first_extent raw block_num phys_block =
    let magic = set_field extent_header 0 raw root_place ext4_extent_header_magic in
    let entries = set_field extent_header 1 magic root_place 1 in
    let room = set_field extent_header 2 entries root_place 4 in
    let depth = set_field extent_header 3 room root_place 0 in
    let generation = set_field extent_header 4 depth root_place 0 in
    let place = root_place + extent_place 0 in
    let logical = set_field extent 0 generation place (block_num % u32_mod) in
    let len = set_field extent 1 logical place 1 in
    let low = set_field extent 3 len place (phys_block % u32_mod) in
    set_field extent 2 low place (phys_block / u32_mod % 2 ^ 16)

-- The size of a file that ends behind the block, if it was smaller.
abbrev pub grown : Fs → ℕ → Buffer → Buffer
grown fs block_num raw =
    let end = (block_num * fs.block_size + fs.block_size) % word_mod in
    if ltb (file_size raw) end
    then set_field inode 15 (set_field inode 2 raw 0 (end % u32_mod)) 0 (end / u32_mod)
    else raw

-- What the search of one group gives: the answer of the function, or none to go on.
pub data Searched (W : Type 0) : Type 0 where
  answer : ℤ → ℕ → Fs → W → Searched W
  go_on : W → Searched W

module _ {W : Type 0} (services : Services W) where
  abbrev write_block : Fs → ℕ → Buffer → W → ℤ × W
  write_block fs block_num buffer w =
      services.write fs.device (block_num * fs.block_size % word_mod) fs.block_size buffer w

  abbrev bitmap_written : Fs → ℕ → ℕ → ℕ → Ptr → ℤ × W → Searched W
  bitmap_written fs group out j p (result, w) =
      if is_negative result
      then answer result out fs (services.kfree p w)
      else answer (pos 0) (block_number fs group j) (taken_from group fs) (services.kfree p w)

  abbrev take_bit : Fs → ℕ → ℕ → Buffer → Ptr → Option ℕ → W → Searched W
  take_bit fs group out bitmap p none w = go_on (services.kfree p w)
  take_bit fs group out bitmap p (some j) w =
      bitmap_written fs group out j p (write_block fs (bitmap_block fs group) (set_bit bitmap j) w)

  abbrev bitmap_read : Fs → ℕ → ℕ → Ptr → (ℤ × Buffer) × W → Searched W
  bitmap_read fs group out p ((result, bitmap), w) =
      if is_negative result
      then answer result out fs (services.kfree p w)
      else take_bit fs group out bitmap p (find_clear bitmap (fs.block_size * 8 % u32_mod) 0) w

  abbrev bitmap_buffered : Fs → ℕ → ℕ → (Ptr × Buffer) × W → Searched W
  bitmap_buffered fs group out ((p, buffer), w) =
      if p == null
      then answer minus_one out fs w
      else bitmap_read fs group out p (ext4_read_block services fs (bitmap_block fs group) buffer w)

  -- One round of the loop over the groups.
  pub search_group : Fs → ℕ → ℕ → W → Searched W
  unfolding ext4_read_block
  search_group fs group out w =
      if ltb 0 (free_blocks fs group)
      then bitmap_buffered fs group out (services.kmalloc fs.block_size w)
      else go_on w

  -- The loop over the groups, with the rounds left and the index; `out` is what `*block_num` holds.
  pub group_loop : Fs → ℕ → ℕ → ℕ → ℕ → W → (ℤ × ℕ) × (Fs × W)
  unfolding search_group
  group_loop fs start_group out zero i w = ((minus_one, out), (fs, w))
  group_loop fs start_group out (suc rounds) i w =
      elim (search_group fs ((start_group + i) % u32_mod % fs.groups_count) out w) [
        | answer result block fs' w' ↦ ((result, block), (fs', w'))
        | go_on w' ↦ group_loop fs start_group out rounds (i + 1) w'
      ]

  pub ext4_allocate_block : Fs → ℕ → ℕ → W → (ℤ × ℕ) × (Fs × W)
  unfolding group_loop
  ext4_allocate_block fs group_hint out w =
      let start_group = if ltb group_hint fs.groups_count then group_hint else 0 in
      group_loop fs start_group out fs.groups_count 0 w

  abbrev block_written : Fs → Buffer → ℕ → ℕ → ℤ × W → (ℤ × Buffer) × (Fs × W)
  block_written fs raw block_num phys_block (result, w) =
      if is_negative result
      then ((result, raw), (fs, w))
      else if not (eh_magic raw root_place == ext4_extent_header_magic)
      then ((pos 0, grown fs block_num (first_extent raw block_num phys_block)), (fs, w))
      else ((minus_one, raw), (fs, w))

  abbrev block_allocated : Buffer → ℕ → Buffer → (ℤ × ℕ) × (Fs × W) → (ℤ × Buffer) × (Fs × W)
  block_allocated raw block_num buffer ((result, phys_block), (fs, w)) =
      if is_negative result
      then ((result, raw), (fs, w))
      else block_written fs raw block_num phys_block (write_block fs phys_block buffer w)

  -- The inode comes back with the result; the variable for the block begins as 0.
  pub ext4_write_extent_block : Fs → Buffer → ℕ → Buffer → W → (ℤ × Buffer) × (Fs × W)
  unfolding ext4_allocate_block
  ext4_write_extent_block fs raw block_num buffer w =
      if not (has_extents fs)
      then ((minus_one, raw), (fs, w))
      else block_allocated raw block_num buffer (ext4_allocate_block fs 0 0 w)
