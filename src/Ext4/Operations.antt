-- ===== src/Ext4/Operations.antt =====
-- kernel/src/fs/ext4/ext4.c, the operations that the driver gives to the virtual filesystem.
pub mod Count
pub mod Read
use freecore.Prelude.{
  ℕ, ◌+◌, ◌-◌, ◌*◌, ◌^◌, ◌||◌, not, ◌==◌, leb, if◌then◌else◌, none, some, ℤ, pos, negsuc, minus_one,
  is_negative,
}
use freecore.Memory.{Memory, Ptr, null, word_mod}
use freecore.Vfs.Types.{Str, World, Ops, vfs_directory}
use freecore.Ext4.Layout.{
  Buffer, i_mode, i_uid, i_atime, i_ctime, i_mtime, i_gid, i_links_count, i_blocks_lo,
  l_i_blocks_high, l_i_uid_high, l_i_gid_high,
}
use freecore.Ext4.Device.{Services, Fs, join}
use freecore.Ext4.Extents.{file_size}
use freecore.Ext4.Files.{ext4_read_file_data, ext4_write_file_data}
use freecore.Ext4.Dirs.{Dirent, ext4_find_dir_entry, list_entry}
use freecore.Ext4.Nodes.{
  Driven, InodeInfo, Stat, put_at, with_rest, node_bytes, ext4_create_vfs_node,
}

-- An `int` returned as a `size_t`.
abbrev pub to_size : ℤ → ℕ
to_size (pos n) = n
to_size (negsuc n) = word_mod - 1 - n

-- The bytes at `p`, and the memory with those bytes set.
abbrev bytes_at : Memory → Ptr → Buffer
bytes_at m p i = m (p + i)

abbrev with_bytes : Memory → Ptr → Buffer → Memory
with_bytes m p b a = if leb p a then b (a - p) else m a

-- The structure that `ext4_stat` fills in.
abbrev stat_of : InodeInfo → ℕ → Stat
stat_of info block_size = record {
  st_dev = 0;
  st_ino = info.inode_num;
  st_mode = i_mode info.raw_inode;
  st_nlink = i_links_count info.raw_inode;
  st_uid = i_uid info.raw_inode + 2 ^ 16 * l_i_uid_high info.raw_inode;
  st_gid = i_gid info.raw_inode + 2 ^ 16 * l_i_gid_high info.raw_inode;
  st_rdev = 0;
  st_size = file_size info.raw_inode;
  st_blksize = block_size;
  st_blocks = join (i_blocks_lo info.raw_inode) (l_i_blocks_high info.raw_inode);
  st_atime = i_atime info.raw_inode;
  st_mtime = i_mtime info.raw_inode;
  st_ctime = i_ctime info.raw_inode;
}

module _ {W : Type 0} where
  unfoldable ext4_open : Ptr → ℕ → World (Driven W) → ℤ × World (Driven W)
  ext4_open node flags w = (pos 0, w)

  unfoldable ext4_close : Ptr → World (Driven W) → ℤ × World (Driven W)
  ext4_close node w = (pos 0, w)

  unfoldable ext4_stat : Ptr → Ptr → World (Driven W) → ℤ × World (Driven W)
  ext4_stat node stat w =
      let info = w.fs.infos (w.nodes node).private_data in
      if (node == null) || (stat == null) || ((w.nodes node).private_data == null)
      then (minus_one, w)
      else (
        pos 0,
        record w {
          fs = record w.fs {
            stats = put_at w.fs.stats stat (stat_of info (w.fs.mounted info.fs).block_size);
          };
        },
      )

module _ {W : Type 0} (services : Services W) where
  abbrev bytes_read : Ptr → World (Driven W) → (ℤ × Buffer) × W → ℕ × World (Driven W)
  bytes_read buffer w ((result, dest), r) = (
    to_size result,
    record w { fs = record w.fs { memory = with_bytes w.fs.memory buffer dest; rest = r } },
  )

  pub ext4_read : Ptr → ℕ → ℕ → Ptr → World (Driven W) → ℕ × World (Driven W)
  ext4_read node offset size buffer w =
      let info = w.fs.infos (w.nodes node).private_data in
      if (node == null) || (buffer == null) || ((w.nodes node).private_data == null)
      then (0, w)
      else bytes_read buffer w (
          ext4_read_file_data services (w.fs.mounted info.fs) info.raw_inode offset size
            (bytes_at w.fs.memory buffer) w.fs.rest)

  abbrev bytes_written : Ptr → World (Driven W) → (ℤ × Buffer) × (Fs × W) → ℕ × World (Driven W)
  bytes_written p w ((result, raw), (fs, r)) =
      let info = w.fs.infos p in
      (
        to_size result,
        record w {
          fs = record w.fs {
            infos = put_at w.fs.infos p (record info { raw_inode = raw });
            mounted = put_at w.fs.mounted info.fs fs;
            rest = r;
          };
        },
      )

  pub ext4_write : Ptr → ℕ → ℕ → Ptr → World (Driven W) → ℕ × World (Driven W)
  ext4_write node offset size buffer w =
      let p = (w.nodes node).private_data in
      let info = w.fs.infos p in
      if (node == null) || (buffer == null) || (p == null)
      then (0, w)
      else bytes_written p w (
          ext4_write_file_data services (w.fs.mounted info.fs) info.raw_inode offset size
            (bytes_at w.fs.memory buffer) w.fs.rest)

  abbrev listed : Ptr → World (Driven W) → (ℤ × Dirent) × W → ℤ × World (Driven W)
  listed dirent w ((result, d), r) =
      (result, record w { fs = record w.fs { dirents = put_at w.fs.dirents dirent d; rest = r } })

  pub ext4_readdir : Ptr → ℕ → Ptr → World (Driven W) → ℤ × World (Driven W)
  ext4_readdir node index dirent w =
      let n = w.nodes node in
      let info = w.fs.infos n.private_data in
      if (node == null)
        || (dirent == null)
        || (n.private_data == null)
        || not (n.type == vfs_directory)
      then (minus_one, w)
      else listed dirent w (
          list_entry services (w.fs.mounted info.fs) info.raw_inode index (w.fs.dirents dirent)
            w.fs.rest)

-- `stack` is what stands in the local inode before it is read.
module _ {W : Type 0} (services : Services W) (ext4_ops : Ptr) (stack : Buffer) where
  abbrev node_created : Ptr → ℤ × World (Driven W) → Ptr × World (Driven W)
  node_created found (result, w) =
      if is_negative result
      then (null, with_rest (services.kfree found w.fs.rest) w)
      else (found, w)

  abbrev node_allocated : Ptr → ℕ → World (Driven W) → (Ptr × Buffer) × W → Ptr × World (Driven W)
  node_allocated fs inode_num w ((found, memory), r) =
      if found == null
      then (null, with_rest r w)
      else node_created found
          (ext4_create_vfs_node services ext4_ops stack fs inode_num found (with_rest r w))

  abbrev entry_found : Ptr → World (Driven W) → (ℤ × ℕ) × W → Ptr × World (Driven W)
  entry_found fs w ((result, inode_num), r) =
      if is_negative result
      then (null, with_rest r w)
      else node_allocated fs inode_num w (services.kmalloc node_bytes r)

  -- The variable for the inode number begins as 0.
  pub ext4_finddir : Ptr → Str → World (Driven W) → Ptr × World (Driven W)
  ext4_finddir node name w =
      let n = w.nodes node in
      let info = w.fs.infos n.private_data in
      if (node == null) || (n.private_data == null) || not (n.type == vfs_directory)
      then (null, w)
      else entry_found info.fs w
          (ext4_find_dir_entry services (w.fs.mounted info.fs) info.raw_inode name 0 w.fs.rest)

  pub ext4_ops_table : Ops (Driven W)
  unfolding ext4_open ext4_close ext4_stat ext4_read ext4_write ext4_readdir ext4_finddir
  ext4_ops_table = record {
    open_op = some ext4_open;
    close_op = some ext4_close;
    read_op = some (ext4_read services);
    write_op = some (ext4_write services);
    readdir_op = some (ext4_readdir services);
    finddir_op = some ext4_finddir;
    create_op = none;
    unlink_op = none;
    mkdir_op = none;
    rmdir_op = none;
    rename_op = none;
    link_op = none;
    symlink_op = none;
    readlink_op = none;
    stat_op = some ext4_stat;
    chmod_op = none;
    chown_op = none;
    truncate_op = none;
  }
