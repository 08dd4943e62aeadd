-- ===== src/Vfs/Tests.antt =====
-- The theorems on kernel/src/fs/vfs.c at a small filesystem: the root is the node 16, every name in it
-- leads to the node 32, and both nodes can be opened and closed.
use freecore.Prelude.{
  ℕ, zero, suc, ◌≡◌, refl, ap, leb, if◌then◌else◌, none, some, [], ◌∷◌, length, arith, pos,
  replicate, length-replicate,
}
use freecore.Memory.{Ptr, null}
use freecore.Vfs.Types.{
  Str, Node, World, Ops, Vfs, vfs_directory, max_open_files, max_mounts, no_fd, no_mount,
}
use freecore.Vfs.Path.{slash, vfs_normalize_path}
use freecore.Vfs.Path.Tokens.{NoSlash}
use freecore.Vfs.Path.Absolute.{render}
use freecore.Vfs.Path.Normal.{resolve, normalize-resolve}
use freecore.Vfs.Lookup.{vfs_lookup}
use freecore.Vfs.Files.{word_error, open_fd, used_fd, vfs_open, vfs_close, vfs_lseek}
use freecore.Vfs.Files.Table.{OpenAnswer, CloseAnswer, vfs_open-OpenAnswer, vfs_close-CloseAnswer}
use freecore.Vfs.Files.Position.{IsOpen, SeekAnswer, vfs_lseek-SeekAnswer}
use freecore.Vfs.Names.{vfs_mkdir, vfs_rmdir, vfs_create, vfs_unlink}
use freecore.Vfs.Names.Parent.{names_overrun}

abbrev small_ops : Ptr → Ops Unit
small_ops p = record {
  open_op = some (λ node flags w. (pos 0, w));
  close_op = some (λ node w. (pos 0, w));
  read_op = none;
  write_op = none;
  readdir_op = none;
  finddir_op = some (λ node name w. (32, w));
  create_op = some (λ node name mode w. (pos 0, w));
  unlink_op = none;
  mkdir_op = none;
  rmdir_op = none;
  rename_op = none;
  link_op = none;
  symlink_op = none;
  readlink_op = none;
  stat_op = none;
  chmod_op = none;
  chown_op = none;
  truncate_op = none;
}

abbrev directory : Node
directory = record {
  name = [];
  type = vfs_directory;
  permissions = 0;
  uid = 0;
  gid = 0;
  size = 100;
  inode = 0;
  links = 1;
  atime = 0;
  mtime = 0;
  ctime = 0;
  private_data = null;
  mount_point = null;
  ops = 4096;
}

abbrev closed_files : Vfs Unit
closed_files = record {
  fd_table = replicate max_open_files no_fd;
  mount_table = replicate max_mounts no_mount;
  root_node = 16;
  world = record { nodes = λ p. directory; fs = tt };
}

abbrev one_open : Vfs Unit
one_open = record closed_files { fd_table = open_fd 32 1 ∷ replicate 255 no_fd }

one_open-length : length one_open.fd_table ≡ max_open_files
one_open-length = ap suc (length-replicate 255 no_fd)

-- `a`, and a path to it that takes a detour.
abbrev name_a : Str
name_a = 97 ∷ []

abbrev detour : Str
detour = 46 ∷ 47 ∷ 98 ∷ 47 ∷ 46 ∷ 46 ∷ 47 ∷ 47 ∷ 97 ∷ []

normalize-resolve_example :
    vfs_normalize_path (slash ∷ detour)
    ≡ (if leb 512 (length (slash ∷ detour)) then none else some (render (resolve (slash ∷ detour))))
normalize-resolve_example = normalize-resolve detour

name_a-normal : vfs_normalize_path (slash ∷ name_a) ≡ some (render (resolve (slash ∷ name_a)))
name_a-normal = normalize-resolve name_a

vfs_open-OpenAnswer_example :
    OpenAnswer closed_files.fd_table
      (vfs_lookup small_ops (some (slash ∷ name_a)) closed_files).0
      1
      (vfs_open small_ops (some (slash ∷ name_a)) 1 closed_files)
vfs_open-OpenAnswer_example =
    vfs_open-OpenAnswer small_ops (some (slash ∷ name_a)) 1 closed_files
      (length-replicate max_open_files no_fd)

vfs_close-CloseAnswer_example :
    CloseAnswer small_ops one_open 0 (vfs_close small_ops (pos 0) one_open)
vfs_close-CloseAnswer_example = vfs_close-CloseAnswer small_ops one_open 0 one_open-length

close_succeeds : (vfs_close small_ops (pos 0) one_open).0 ≡ pos 0
unfolding vfs_close used_fd
close_succeeds = refl

one_open-IsOpen : IsOpen one_open 0
one_open-IsOpen = record { size = one_open-length; inside = omega arith; used = refl }

vfs_lseek-SeekAnswer_example : SeekAnswer one_open 0 50 0 (vfs_lseek (pos 0) 50 0 one_open)
vfs_lseek-SeekAnswer_example = vfs_lseek-SeekAnswer one_open 0 50 0 one_open-IsOpen (omega arith)

-- A name of 300 characters.
abbrev long_name : Str
long_name = replicate 300 97

replicate-NoSlash : (n : ℕ) → NoSlash (replicate n 97)
replicate-NoSlash zero = tt
replicate-NoSlash (suc n) = (refl, replicate-NoSlash n)

long_name-length : length long_name ≡ 300
long_name-length = length-replicate {A = ℕ} 300 97

names_overrun_example :
    (vfs_mkdir small_ops (slash ∷ long_name) 0 closed_files ≡ none)
    × (vfs_rmdir small_ops (slash ∷ long_name) closed_files ≡ none)
    × (vfs_create small_ops (slash ∷ long_name) 0 closed_files ≡ none)
    × (vfs_unlink small_ops (slash ∷ long_name) closed_files ≡ none)
names_overrun_example =
    names_overrun small_ops long_name 0 closed_files ((refl, replicate-NoSlash 300), refl, refl)
      (omega (arith, long_name-length)) (omega (arith, long_name-length))

-- Reads that fail and writes of everything, at a descriptor with the position 7.
abbrev failing_read : Ptr → ℕ → ℕ → Ptr → World ℕ → ℕ × World ℕ
failing_read node offset size buffer w = (word_error, w)

abbrev full_write : Ptr → ℕ → ℕ → Ptr → World ℕ → ℕ × World ℕ
full_write node offset size buffer w = (size, w)
