-- ===== src/Ext4/Extents.antt =====
-- kernel/src/fs/ext4/ext4.c, the tree of extents: from the blocks of a file to those of the device.
pub mod Count
pub mod File
pub mod Tree
use freecore.Prelude.{
  ℕ, zero, suc, ◌+◌, ◌-◌, ◌*◌, ◌/◌, ◌%◌, ◌^◌, Bool, not, ◌&&◌, ◌==◌, ltb, leb, if◌then◌else◌,
  Option, none, some, ℤ, pos, minus_one, is_negative,
}
use freecore.Memory.{Ptr, null, word_mod}
use freecore.Ext4.Layout.{
  Buffer, copy_bytes, clear_bytes, inode, extent_header, extent_idx, extent, offset_of, size_of,
  s_feature_incompat, i_flags, i_size_lo, i_size_high, eh_magic, eh_entries, eh_depth, ei_block,
  ei_leaf_lo, ei_leaf_hi, ee_block, ee_len, ee_start_hi, ee_start_lo,
}
use freecore.Ext4.Device.{Services, Fs, ext4_read_block, join, u32_mod}

abbrev pub ext4_extent_header_magic : ℕ
ext4_extent_header_magic = 0xF30A

-- `fs->sb.s_feature_incompat & EXT4_FEATURE_INCOMPAT_EXTENTS`, bit 6
abbrev pub has_extents : Fs → Bool
has_extents fs = s_feature_incompat fs.sb / 2 ^ 6 % 2 == 1

-- `inode->i_flags & 0x80000`, bit 19
abbrev pub uses_extents : Buffer → Bool
uses_extents raw = i_flags raw / 2 ^ 19 % 2 == 1

-- `&inode->i_block`, as a place in the inode
abbrev pub root_place : ℕ
root_place = offset_of inode 12

-- `&node->index[i]` and `&node->extent[i]`, as places in the node
abbrev pub index_place : ℕ → ℕ
index_place i = size_of extent_header + i * size_of extent_idx

abbrev pub extent_place : ℕ → ℕ
extent_place i = size_of extent_header + i * size_of extent

-- `sizeof(ext4_extent_node_t)`, with four places
abbrev pub extent_node_size : ℕ
extent_node_size = size_of extent_header + 4 * size_of extent

abbrev pub file_size : Buffer → ℕ
file_size raw = join (i_size_lo raw) (i_size_high raw)

-- The child to follow, with the rounds left and the index; the last one is taken as it is.
pub find_child : Buffer → ℕ → ℕ → ℕ → ℕ
find_child node block_num zero i = i
find_child node block_num (suc rounds) i =
    let rest = find_child node block_num rounds (i + 1) in
    if ltb (i + 1) (eh_entries node 0) && leb (ei_block node (index_place (i + 1))) block_num
    then rest
    else i

-- `block_num >= ee_block && block_num < ee_block + ee_len`
abbrev pub covers : Buffer → ℕ → ℕ → Bool
covers node i block_num =
    leb (ee_block node (extent_place i)) block_num
    && ltb block_num ((ee_block node (extent_place i) + ee_len node (extent_place i)) % u32_mod)

abbrev pub block_in : Buffer → ℕ → ℕ → ℕ
block_in node i block_num =
    let start = join (ee_start_lo node (extent_place i)) (ee_start_hi node (extent_place i)) in
    (start + (block_num - ee_block node (extent_place i))) % word_mod

-- The search of a leaf, with the rounds left and the index.
pub find_extent : Buffer → ℕ → ℕ → ℕ → Option ℕ
find_extent node block_num zero i = none
find_extent node block_num (suc rounds) i =
    let rest = find_extent node block_num rounds (i + 1) in
    if covers node i block_num then some (block_in node i block_num) else rest

-- `(file_size + fs->block_size - 1) / fs->block_size`
abbrev pub blocks_of : Fs → ℕ → ℕ
blocks_of fs size = (size + fs.block_size + (word_mod - 1)) % word_mod / fs.block_size

abbrev leaf_answer : ℕ → Option ℕ → ℤ × ℕ
leaf_answer phys_block none = (minus_one, phys_block)
leaf_answer phys_block (some b) = (pos 0, b)

module _ {W : Type 0} (services : Services W) where
  -- `while (depth > 0)`: from the root in the buffer down to a leaf.
  pub descend : Fs → ℕ → ℕ → Buffer → W → (ℤ × Buffer) × W
  unfolding find_child ext4_read_block
  descend fs block_num zero node w = ((pos 0, node), w)
  descend fs block_num (suc depth) node w =
      let i = find_child node block_num (eh_entries node 0) 0 in
      let node_block = join (ei_leaf_lo node (index_place i)) (ei_leaf_hi node (index_place i)) in
      let next = ext4_read_block services fs node_block node w in
      let rest = descend fs block_num depth next.0.1 next.1 in
      if leb (eh_entries node 0) i
      then ((minus_one, node), w)
      else if is_negative next.0.0
      then next
      else if not (eh_magic next.0.1 0 == ext4_extent_header_magic)
      then ((minus_one, next.0.1), next.1)
      else rest

  -- What follows the descent: the search of the leaf, and the release of the buffer.
  abbrev pub searched : ℕ → ℕ → Ptr → (ℤ × Buffer) × W → (ℤ × ℕ) × W
  searched block_num phys_block p ((result, node), w) =
      if is_negative result then ((result, phys_block), services.kfree p w) else (
        leaf_answer phys_block (find_extent node block_num (eh_entries node 0) 0),
        services.kfree p w,
      )

  abbrev pub tree_buffered : Fs → Buffer → ℕ → ℕ → (Ptr × Buffer) × W → (ℤ × ℕ) × W
  tree_buffered fs raw block_num phys_block ((p, buffer), w) =
      let node = copy_bytes buffer 0 raw root_place extent_node_size in
      if p == null
      then ((minus_one, phys_block), w)
      else searched block_num phys_block p (descend fs block_num (eh_depth node 0) node w)

  unfoldable pub ext4_read_extent_block : Fs → Buffer → ℕ → ℕ → W → (ℤ × ℕ) × W
  ext4_read_extent_block fs raw block_num phys_block w =
      if not (has_extents fs)
      then ((minus_one, phys_block), w)
      else if not (uses_extents raw)
      then ((minus_one, phys_block), w)
      else if not (eh_magic raw root_place == ext4_extent_header_magic)
      then ((minus_one, phys_block), w)
      else tree_buffered fs raw block_num phys_block (services.kmalloc fs.block_size w)

  abbrev located : Fs → Buffer → (ℤ × ℕ) × W → (ℤ × Buffer) × W
  located fs buffer ((result, phys_block), w) =
      if is_negative result
      then ((result, buffer), w)
      else ext4_read_block services fs phys_block buffer w

  pub ext4_read_file_block : Fs → Buffer → ℕ → Buffer → W → (ℤ × Buffer) × W
  ext4_read_file_block fs raw block_num buffer w =
      if leb (blocks_of fs (file_size raw)) block_num
      then ((pos 0, clear_bytes buffer fs.block_size), w)
      else if has_extents fs
      then located fs buffer (ext4_read_extent_block fs raw block_num 0 w)
      else ((minus_one, buffer), w)
