-- ===== src/Ext4/Mount.antt =====
-- kernel/src/fs/ext4/ext4.c, the mounting of a filesystem. The
-- structure of the filesystem is a value until the root node refers to its address.
pub mod Count
pub mod Released
use freecore.Prelude.{
  ℕ, zero, suc, ◌+◌, ◌-◌, ◌*◌, ◌/◌, ◌%◌, ◌^◌, not, ◌||◌, ◌==◌, leb, if◌then◌else◌, ℤ, pos,
  minus_one, is_negative,
}
use freecore.Memory.{Ptr, null, word_mod}
use freecore.Vfs.Types.{World}
use freecore.Ext4.Layout.{
  Buffer, copy_bytes, superblock, size_of, s_blocks_count_lo, s_blocks_count_hi, s_first_data_block,
  s_log_block_size, s_blocks_per_group, s_inodes_per_group, s_magic, s_desc_size,
}
use freecore.Ext4.Device.{Services, Fs, ext4_read_block, join, u32_mod}
use freecore.Ext4.Nodes.{Driven, put_at, with_rest, node_bytes, ext4_create_vfs_node}

abbrev pub ext4_super_magic : ℕ
ext4_super_magic = 0xEF53

abbrev pub ext4_superblock_offset : ℕ
ext4_superblock_offset = 1024

abbrev pub ext4_root_ino : ℕ
ext4_root_ino = 2

-- `sizeof(ext4_fs_t)` on x86-64
abbrev pub fs_bytes : ℕ
fs_bytes = 672

-- The structure after `memset` and `fs->device = device`.
abbrev pub new_fs : Ptr → Fs
new_fs device = record {
  device = device;
  sb = λ i. 0;
  block_size = 0;
  block_count = 0;
  groups_count = 0;
  inodes_per_group = 0;
  blocks_per_group = 0;
  group_desc_table = null;
  descriptors = λ i. 0;
  root_node = null;
}

-- The parameters that the superblock gives.
unfoldable pub with_superblock : Fs → Buffer → Fs
with_superblock fs sb =
    let count = join (s_blocks_count_lo sb) (s_blocks_count_hi sb) in
    let per_group = s_blocks_per_group sb in
    record fs {
      sb = sb;
      block_size = 1024 * 2 ^ s_log_block_size sb % u32_mod;
      block_count = count;
      inodes_per_group = s_inodes_per_group sb;
      blocks_per_group = per_group;
      groups_count = (count + per_group + (word_mod - 1)) % word_mod / per_group % u32_mod;
    }

-- The structure after the superblock in the buffer has been copied.
abbrev pub described : Ptr → Buffer → Fs
described device buffer =
    with_superblock (new_fs device) (copy_bytes (λ i. 0) 0 buffer 0 (size_of superblock))

-- `gdesc_blocks`, for descriptors of 32 bytes where the superblock gives no size
abbrev pub gdesc_blocks : Fs → ℕ
gdesc_blocks fs =
    let gdesc_size = if s_desc_size fs.sb == 0 then 32 else s_desc_size fs.sb in
    let gdesc_table_size = fs.groups_count * gdesc_size % u32_mod in
    (gdesc_table_size + fs.block_size + (u32_mod - 1)) % u32_mod / fs.block_size

-- The table from the place `o` on, and the table with those bytes read.
abbrev pub from_place : Buffer → ℕ → Buffer
from_place table o i = table (o + i)

abbrev pub with_read : Buffer → ℕ → Buffer → Buffer
with_read table o b i = if leb o i then b (i - o) else table i

-- The result of a mount, and what `*root_node` holds.
abbrev pub Mounted : Type 0 → Type 0
Mounted W = (ℤ × Ptr) × World (Driven W)

module _ {W : Type 0} (services : Services W) where
  -- The loop that reads the descriptors, with the rounds left and the index.
  unfoldable pub table_loop : Fs → ℕ → ℕ → Buffer → W → (ℤ × Buffer) × W
  unfolding ext4_read_block
  table_loop fs zero i table w = ((pos 0, table), w)
  table_loop fs (suc rounds) i table w =
      let o = i * fs.block_size % u32_mod in
      let start = (s_first_data_block fs.sb + 1) % u32_mod in
      let got = ext4_read_block services fs (start + i) (from_place table o) w in
      let rest = table_loop fs rounds (i + 1) (with_read table o got.0.1) got.1 in
      if is_negative got.0.0 then ((got.0.0, table), got.1) else rest

  abbrev pub free_one : Ptr → World (Driven W) → World (Driven W)
  free_one p w = with_rest (services.kfree p w.fs.rest) w

  abbrev pub root_created : Ptr → Fs → Ptr → ℤ × World (Driven W) → Mounted W
  root_created at fs root (result, w) =
      if is_negative result
      then ((result, root), free_one at (free_one fs.group_desc_table (free_one root w)))
      else (
        (pos 0, root),
        record w {
          fs = record w.fs {
            mounted = put_at w.fs.mounted at (record (w.fs.mounted at) { root_node = root });
          };
        },
      )

  -- `if (fs) { ... }`
  abbrev pub fs_released : Ptr → World (Driven W) → World (Driven W)
  fs_released at w =
      let table = (w.fs.mounted at).group_desc_table in
      if at == null then w else free_one at (if table == null then w else free_one table w)

  pub ext4_unmount : Ptr → World (Driven W) → World (Driven W)
  ext4_unmount root_node w =
      let root = w.nodes root_node in
      let info = root.private_data in
      let released = free_one info (fs_released (w.fs.infos info).fs w) in
      if (root_node == null) || (info == null) then w else record released {
        nodes = put_at released.nodes root_node (record root { private_data = null });
      }

-- `stack` is what stands in the local inode before it is read.
module _ {W : Type 0} (services : Services W) (ext4_ops : Ptr) (stack : Buffer) where
  abbrev pub root_allocated : Ptr → Fs → World (Driven W) → (Ptr × Buffer) × W → Mounted W
  root_allocated at fs w ((root, memory), r) =
      let w' =
        with_rest r (record w { fs = record w.fs { mounted = put_at w.fs.mounted at fs } }) in
      if root == null
      then ((minus_one, root), free_one services at (free_one services fs.group_desc_table w'))
      else root_created services at fs root
          (ext4_create_vfs_node services ext4_ops stack at ext4_root_ino root w')

  abbrev pub table_read : Ptr → Fs → Ptr → World (Driven W) → (ℤ × Buffer) × W → Mounted W
  table_read at fs root w ((result, table), r) =
      if is_negative result
      then (
        (result, root),
        free_one services at (free_one services fs.group_desc_table (with_rest r w)),
      )
      else root_allocated at (record fs { descriptors = table }) w (services.kmalloc node_bytes r)

  abbrev pub table_allocated : Ptr → Fs → Ptr → World (Driven W) → (Ptr × Buffer) × W → Mounted W
  table_allocated at fs root w ((table, memory), r) =
      let fs' = record fs { group_desc_table = table; descriptors = memory } in
      if table == null
      then ((minus_one, root), free_one services at (with_rest r w))
      else table_read at fs' root w (table_loop services fs' (gdesc_blocks fs') 0 memory r)

  -- What follows the copy of the superblock and the release of its buffer.
  abbrev pub superblock_copied : Ptr → Fs → Ptr → World (Driven W) → Mounted W
  superblock_copied at fs root w =
      if not (s_magic fs.sb == ext4_super_magic)
      then ((minus_one, root), free_one services at w)
      else table_allocated at fs root w
          (services.kmalloc (gdesc_blocks fs * fs.block_size % u32_mod) w.fs.rest)

  abbrev pub superblock_read :
      Ptr → Ptr → Ptr → Ptr → World (Driven W) → (ℤ × Buffer) × W → Mounted W
  superblock_read device at sb root w ((result, buffer), r) =
      if is_negative result
      then ((result, root), free_one services at (free_one services sb (with_rest r w)))
      else superblock_copied at (described device buffer) root
          (free_one services sb (with_rest r w))

  abbrev pub superblock_allocated :
      Ptr → Ptr → Ptr → World (Driven W) → (Ptr × Buffer) × W → Mounted W
  superblock_allocated device at root w ((sb, memory), r) =
      if sb == null
      then ((minus_one, root), free_one services at (with_rest r w))
      else superblock_read device at sb root w
          (services.read device ext4_superblock_offset (size_of superblock) memory r)

  abbrev pub fs_allocated : Ptr → Ptr → World (Driven W) → (Ptr × Buffer) × W → Mounted W
  fs_allocated device root w ((at, memory), r) =
      if at == null
      then ((minus_one, root), with_rest r w)
      else superblock_allocated device at root w (services.kmalloc (size_of superblock) r)

  -- `root` is what `*root_node` holds before.
  unfoldable pub ext4_mount : Ptr → Ptr → World (Driven W) → Mounted W
  ext4_mount device root w =
      if device == null
      then ((minus_one, root), w)
      else fs_allocated device root w (services.kmalloc fs_bytes w.fs.rest)
