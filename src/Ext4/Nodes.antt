-- ===== src/Ext4/Nodes.antt =====
-- kernel/src/fs/ext4/ext4.c, the nodes that the driver gives to the virtual filesystem. The driver's
-- structures stand at the addresses of their pointers.
pub mod Count
use freecore.Prelude.{ℕ, ◌/◌, ◌%◌, ◌^◌, ◌==◌, if◌then◌else◌, [], ℤ, pos, minus_one, is_negative}
use freecore.Memory.{Memory, Ptr, null}
use freecore.Vfs.Types.{Node, World, vfs_file, vfs_directory, vfs_symlink_type}
use freecore.Ext4.Layout.{Buffer, copy_bytes, inode, size_of, i_mode}
use freecore.Ext4.Device.{Services, Fs, ext4_read_inode}
use freecore.Ext4.Extents.{file_size}
use freecore.Ext4.Dirs.{Dirent, vfs_chardevice, vfs_blockdevice, vfs_pipe, vfs_socket}

-- `ext4_inode_info_t`, but for the fields that no code looks at
pub record InodeInfo : Type 0 where
  pub raw_inode : Buffer
  pub inode_num : ℕ
  pub fs : Ptr

-- `struct vfs_stat`
pub record Stat : Type 0 where
  pub st_dev : ℕ
  pub st_ino : ℕ
  pub st_mode : ℕ
  pub st_nlink : ℕ
  pub st_uid : ℕ
  pub st_gid : ℕ
  pub st_rdev : ℕ
  pub st_size : ℕ
  pub st_blksize : ℕ
  pub st_blocks : ℕ
  pub st_atime : ℕ
  pub st_mtime : ℕ
  pub st_ctime : ℕ

-- What the driver keeps beside the nodes: the structures at their addresses, the caller's buffers and
-- structures, and the state of the device and the heap.
pub record Driven (W : Type 0) : Type 0 where
  pub infos : Ptr → InodeInfo
  pub mounted : Ptr → Fs
  pub memory : Memory
  pub dirents : Ptr → Dirent
  pub stats : Ptr → Stat
  pub rest : W

-- `sizeof(struct vfs_node)` and `sizeof(ext4_inode_info_t)` on x86-64
abbrev pub node_bytes : ℕ
node_bytes = 328

abbrev pub info_bytes : ℕ
info_bytes = 160

-- The type of a node by `inode.i_mode & S_IFMT`, the highest four bits of the mode.
abbrev type_of_mode : ℕ → ℕ
type_of_mode mode =
    let kind = mode / 2 ^ 12 % 2 ^ 4 in
    if kind == 4
    then vfs_directory
    else if kind == 8
    then vfs_file
    else if kind == 10
    then vfs_symlink_type
    else if kind == 2
    then vfs_chardevice
    else if kind == 6
    then vfs_blockdevice
    else if kind == 1
    then vfs_pipe
    else if kind == 12
    then vfs_socket
    else vfs_file

-- `*p = v`
abbrev pub put_at {ℓ} : {A : Type ℓ} → (Ptr → A) → Ptr → A → Ptr → A
put_at f p v q = if q == p then v else f q

-- The node of an inode, all its other fields 0.
abbrev pub node_of : Ptr → Ptr → ℕ → Buffer → Node
node_of ext4_ops info inode_num raw = record {
  name = [];
  type = type_of_mode (i_mode raw);
  permissions = 0;
  uid = 0;
  gid = 0;
  size = file_size raw;
  inode = inode_num;
  links = 0;
  atime = 0;
  mtime = 0;
  ctime = 0;
  private_data = info;
  mount_point = null;
  ops = ext4_ops;
}

module _ {W : Type 0} where
  abbrev pub with_rest : W → World (Driven W) → World (Driven W)
  with_rest r w = record w { fs = record w.fs { rest = r } }

  -- The structures of the new node filled in.
  abbrev pub node_filled : Ptr → Ptr → ℕ → Ptr → Buffer → Ptr → World (Driven W) → World (Driven W)
  node_filled ext4_ops fs inode_num node raw info w =
      let old = (w.fs.infos info).raw_inode in
      let filled : InodeInfo = record {
        raw_inode = copy_bytes old 0 raw 0 (size_of inode);
        inode_num = inode_num;
        fs = fs;
      } in
      record {
        nodes = put_at w.nodes node (node_of ext4_ops info inode_num raw);
        fs = record w.fs { infos = put_at w.fs.infos info filled };
      }

-- `stack` is what stands in the local inode before it is read.
module _ {W : Type 0} (services : Services W) (ext4_ops : Ptr) (stack : Buffer) where
  abbrev info_allocated :
      Ptr → ℕ → Ptr → Buffer → World (Driven W) → (Ptr × Buffer) × W → ℤ × World (Driven W)
  info_allocated fs inode_num node raw w ((info, memory), r) =
      if info == null
      then (minus_one, with_rest r w)
      else (pos 0, node_filled ext4_ops fs inode_num node raw info (with_rest r w))

  abbrev inode_read : Ptr → ℕ → Ptr → World (Driven W) → (ℤ × Buffer) × W → ℤ × World (Driven W)
  inode_read fs inode_num node w ((result, raw), r) =
      if is_negative result
      then (result, with_rest r w)
      else info_allocated fs inode_num node raw w (services.kmalloc info_bytes r)

  unfoldable pub ext4_create_vfs_node : Ptr → ℕ → Ptr → World (Driven W) → ℤ × World (Driven W)
  ext4_create_vfs_node fs inode_num node w =
      inode_read fs inode_num node w
        (ext4_read_inode services (w.fs.mounted fs) inode_num stack w.fs.rest)
