-- ===== src/Vfs/Types.antt =====
-- The data of kernel/src/fs/vfs.h and the tables of kernel/src/fs/vfs.c. A C string is the list of its
-- characters in front of the NUL. A node is known by its address; NULL is 0. What a filesystem
-- driver keeps beside the nodes, the caller's buffers among it, is the type `F`, and its functions
-- are called through the tables of operations.
use freecore.Prelude.{ℕ, Bool, false, ◌==◌, if◌then◌else◌, Option, none, List, [], ℤ, replicate}
use freecore.Memory.{Ptr, null}

abbrev pub Str : Type 0
Str = List ℕ

-- The node types, and the modes that are used.
abbrev pub vfs_file : ℕ
vfs_file = 0x01

abbrev pub vfs_directory : ℕ
vfs_directory = 0x02

abbrev pub vfs_symlink_type : ℕ
vfs_symlink_type = 0x06

abbrev pub vfs_mountpoint : ℕ
vfs_mountpoint = 0x08

abbrev pub max_open_files : ℕ
max_open_files = 256

abbrev pub max_mounts : ℕ
max_mounts = 32

abbrev pub max_path_length : ℕ
max_path_length = 512

abbrev pub vfs_name_max : ℕ
vfs_name_max = 255

-- `struct vfs_node`
pub record Node : Type 0 where
  pub name : Str
  pub type : ℕ
  pub permissions : ℕ
  pub uid : ℕ
  pub gid : ℕ
  pub size : ℕ
  pub inode : ℕ
  pub links : ℕ
  pub atime : ℕ
  pub mtime : ℕ
  pub ctime : ℕ
  pub private_data : Ptr
  pub mount_point : Ptr
  pub ops : Ptr

-- What the operations of a node may read and write.
pub record World (F : Type 0) : Type 0 where
  pub nodes : Ptr → Node
  pub fs : F

-- `struct vfs_node_ops`; an operation may be missing. A buffer, a `struct vfs_dirent` and a
-- `struct vfs_stat` are pointers into the memory that `F` holds.
pub record Ops (F : Type 0) : Type 0 where
  pub open_op : Option (Ptr → ℕ → World F → ℤ × World F)
  pub close_op : Option (Ptr → World F → ℤ × World F)
  pub read_op : Option (Ptr → ℕ → ℕ → Ptr → World F → ℕ × World F)
  pub write_op : Option (Ptr → ℕ → ℕ → Ptr → World F → ℕ × World F)
  pub readdir_op : Option (Ptr → ℕ → Ptr → World F → ℤ × World F)
  pub finddir_op : Option (Ptr → Str → World F → Ptr × World F)
  pub create_op : Option (Ptr → Str → ℕ → World F → ℤ × World F)
  pub unlink_op : Option (Ptr → Str → World F → ℤ × World F)
  pub mkdir_op : Option (Ptr → Str → ℕ → World F → ℤ × World F)
  pub rmdir_op : Option (Ptr → Str → World F → ℤ × World F)
  pub rename_op : Option (Ptr → Str → Str → World F → ℤ × World F)
  pub link_op : Option (Ptr → Str → Str → World F → ℤ × World F)
  pub symlink_op : Option (Ptr → Str → Str → World F → ℤ × World F)
  pub readlink_op : Option (Ptr → Ptr → ℕ → World F → ℤ × World F)
  pub stat_op : Option (Ptr → Ptr → World F → ℤ × World F)
  pub chmod_op : Option (Ptr → ℕ → World F → ℤ × World F)
  pub chown_op : Option (Ptr → ℕ → ℕ → World F → ℤ × World F)
  pub truncate_op : Option (Ptr → ℕ → World F → ℤ × World F)

-- `file_descriptor_t` and `mount_point_t`
pub record FileDescriptor : Type 0 where
  pub node : Ptr
  pub flags : ℕ
  pub position : ℕ
  pub used : Bool

pub record MountPoint : Type 0 where
  pub path : Str
  pub node : Ptr
  pub used : Bool

abbrev pub no_fd : FileDescriptor
no_fd = record { node = null; flags = 0; position = 0; used = false }

abbrev pub no_mount : MountPoint
no_mount = record { path = []; node = null; used = false }

-- The static variables of the file, and the world.
pub record Vfs (F : Type 0) : Type 0 where
  pub fd_table : List FileDescriptor
  pub mount_table : List MountPoint
  pub root_node : Ptr
  pub world : World F

-- `vfs_init`, which returns 0
unfoldable vfs_init : {F : Type 0} → Vfs F → Vfs F
vfs_init s = record s {
  fd_table = replicate max_open_files no_fd;
  mount_table = replicate max_mounts no_mount;
  root_node = null;
}

-- `node->ops && node->ops->op`, with the tables of operations by their addresses
abbrev pub find_op {ℓ} :
    {F : Type 0} {X : Type ℓ} → (Ptr → Ops F) → (Ops F → Option X) → Node → Option X
find_op ops_at op node = if node.ops == null then none else op (ops_at node.ops)

abbrev pub node_at : {F : Type 0} → Vfs F → Ptr → Node
node_at s p = s.world.nodes p
