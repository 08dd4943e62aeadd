-- ===== src/Vfs/Files.antt =====
-- The open files of kernel/src/fs/vfs.c: the table of file descriptors, and the calls on one.
pub mod Table
pub mod Position
use freecore.Prelude.{
  ℕ, zero, suc, ◌+◌, ◌-◌, ◌/◌, ◌%◌, ◌^◌, Bool, true, false, not, ◌&&◌, ◌||◌, ◌==◌, ltb, leb,
  if◌then◌else◌, Option, none, some, List, [], ◌∷◌, ℤ, pos, negsuc, minus_one, is_negative, set,
  get_or,
}
use freecore.Memory.{Ptr, null, word_mod, add_word}
use freecore.Vfs.Types.{
  Str, Node, World, Ops, Vfs, FileDescriptor, no_fd, max_open_files, vfs_file, find_op, node_at,
}
use freecore.Vfs.Lookup.{vfs_lookup}
use freecore.Vfs.Search.{find_index}

-- `(size_t)-1` and `(uint64_t)-1`
abbrev pub word_error : ℕ
word_error = word_mod - 1

-- `flags & VFS_O_WRONLY || flags & VFS_O_RDWR`: bits 0 and 1
abbrev pub may_write : ℕ → Bool
may_write flags = (flags % 2 == 1) || (flags / 2 % 2 == 1)

abbrev pub open_fd : Ptr → ℕ → FileDescriptor
open_fd node flags = record { node = node; flags = flags; position = 0; used = true }

-- `whence`: SEEK_SET, SEEK_CUR, SEEK_END. The offset is the bit pattern of the `int64_t`.
abbrev pub new_position : ℕ → ℕ → ℕ → ℕ → Option ℕ
new_position whence offset position size =
    if whence == 0
    then some offset
    else if whence == 1
    then some (add_word position offset)
    else if whence == 2
    then some (add_word size offset)
    else none

module _ {F : Type 0} where
  -- The descriptor, unless `fd < 0 || fd >= MAX_OPEN_FILES || !fd_table[fd].used`.
  unfoldable pub used_fd : Vfs F → ℤ → Option (ℕ × FileDescriptor)
  used_fd s (negsuc n) = none
  used_fd s (pos fd) =
      if leb max_open_files fd
      then none
      else if not (get_or s.fd_table fd no_fd).used
      then none
      else some (fd, get_or s.fd_table fd no_fd)

  abbrev pub set_fd : Vfs F → ℕ → FileDescriptor → Vfs F
  set_fd s fd d = record s { fd_table = set s.fd_table fd d }

  abbrev pub on_world : {A : Type 0} → Vfs F → A × World F → A × Vfs F
  on_world s (r, w) = (r, record s { world = w })

  -- `if (node->ops->close) node->ops->close(node);`, the result dropped
  abbrev pub close_quietly : Option (Ptr → World F → ℤ × World F) → Ptr → Vfs F → Vfs F
  close_quietly none node s = s
  close_quietly (some f) node s = record s { world = (f node s.world).1 }

  abbrev pub free_fd : Vfs F → Option ℕ
  free_fd s = find_index (λ d. not d.used) s.fd_table

module _ {F : Type 0} (ops_at : Ptr → Ops F) where
  abbrev pub install : Ptr → ℕ → Option ℕ → Vfs F → ℤ × Vfs F
  install node flags none s =
      (minus_one, close_quietly ((ops_at (node_at s node).ops).close_op) node s)
  install node flags (some fd) s = (pos fd, set_fd s fd (open_fd node flags))

  -- What follows the node's own `open`.
  abbrev pub opened : Ptr → ℕ → ℤ × Vfs F → ℤ × Vfs F
  opened node flags (result, s) =
      if is_negative result then (result, s) else install node flags (free_fd s) s

  abbrev pub open_node : Option (Ptr → ℕ → World F → ℤ × World F) → Ptr → ℕ → Vfs F → ℤ × Vfs F
  open_node none node flags s = (minus_one, s)
  open_node (some f) node flags s = opened node flags (on_world s (f node flags s.world))

  abbrev pub open_found : ℕ → Ptr × Vfs F → ℤ × Vfs F
  open_found flags (node, s) =
      if node == null
      then (minus_one, s)
      else open_node (find_op ops_at (λ o. o.open_op) (node_at s node)) node flags s

  pub vfs_open : Option Str → ℕ → Vfs F → ℤ × Vfs F
  unfolding vfs_lookup find_index
  vfs_open path flags s = open_found flags (vfs_lookup ops_at path s)

  abbrev pub closed : ℕ → FileDescriptor → ℤ × Vfs F → ℤ × Vfs F
  closed fd d (result, s) =
      if is_negative result then (result, s) else (pos 0, set_fd s fd (record d { used = false }))

  abbrev pub close_node :
      Option (Ptr → World F → ℤ × World F) → ℕ → FileDescriptor → Vfs F → ℤ × Vfs F
  close_node none fd d s = (pos 0, set_fd s fd (record d { used = false }))
  close_node (some f) fd d s = closed fd d (on_world s (f d.node s.world))

  abbrev pub close_used : Option (ℕ × FileDescriptor) → Vfs F → ℤ × Vfs F
  close_used none s = (minus_one, s)
  close_used (some (fd, d)) s =
      close_node (find_op ops_at (λ o. o.close_op) (node_at s d.node)) fd d s

  unfoldable pub vfs_close : ℤ → Vfs F → ℤ × Vfs F
  unfolding used_fd
  vfs_close fd s = close_used (used_fd s fd) s

  -- `fd_table[fd].position += bytes;`
  abbrev pub advanced : ℕ → FileDescriptor → ℕ × Vfs F → ℕ × Vfs F
  advanced fd d (bytes, s) =
      (bytes, set_fd s fd (record d { position = add_word d.position bytes }))

  abbrev pub transfer :
      Option (Ptr → ℕ → ℕ → Ptr → World F → ℕ × World F)
      → ℕ
      → FileDescriptor
      → ℕ
      → Ptr
      → Vfs F
      → ℕ × Vfs F
  transfer none fd d size buffer s = (word_error, s)
  transfer (some f) fd d size buffer s =
      advanced fd d (on_world s (f d.node d.position size buffer s.world))

  abbrev pub read_used : Option (ℕ × FileDescriptor) → Ptr → ℕ → Vfs F → ℕ × Vfs F
  read_used none buffer size s = (word_error, s)
  read_used (some (fd, d)) buffer size s =
      transfer (find_op ops_at (λ o. o.read_op) (node_at s d.node)) fd d size buffer s

  pub vfs_read : ℤ → Ptr → ℕ → Vfs F → ℕ × Vfs F
  unfolding used_fd
  vfs_read fd buffer size s = read_used (used_fd s fd) buffer size s

  abbrev pub write_used : Option (ℕ × FileDescriptor) → Ptr → ℕ → Vfs F → ℕ × Vfs F
  write_used none buffer size s = (word_error, s)
  write_used (some (fd, d)) buffer size s =
      transfer (find_op ops_at (λ o. o.write_op) (node_at s d.node)) fd d size buffer s

  pub vfs_write : ℤ → Ptr → ℕ → Vfs F → ℕ × Vfs F
  unfolding used_fd
  vfs_write fd buffer size s = write_used (used_fd s fd) buffer size s

  abbrev pub stat_node : Option (Ptr → Ptr → World F → ℤ × World F) → Ptr → Ptr → Vfs F → ℤ × Vfs F
  stat_node none node stat s = (minus_one, s)
  stat_node (some f) node stat s = on_world s (f node stat s.world)

  abbrev pub fstat_used : Option (ℕ × FileDescriptor) → Ptr → Vfs F → ℤ × Vfs F
  fstat_used none stat s = (minus_one, s)
  fstat_used (some (fd, d)) stat s =
      stat_node (find_op ops_at (λ o. o.stat_op) (node_at s d.node)) d.node stat s

  unfoldable vfs_fstat : ℤ → Ptr → Vfs F → ℤ × Vfs F
  unfolding used_fd
  vfs_fstat fd stat s = fstat_used (used_fd s fd) stat s

  abbrev pub truncate_node : Option (Ptr → ℕ → World F → ℤ × World F) → Ptr → ℕ → Vfs F → ℤ × Vfs F
  truncate_node none node size s = (minus_one, s)
  truncate_node (some f) node size s = on_world s (f node size s.world)

  -- The tests of `vfs_truncate` and `vfs_ftruncate` on a node.
  abbrev pub truncate_file : Ptr → ℕ → Vfs F → ℤ × Vfs F
  truncate_file node size s =
      if not ((node_at s node).type == vfs_file)
      then (minus_one, s)
      else truncate_node (find_op ops_at (λ o. o.truncate_op) (node_at s node)) node size s

  abbrev pub ftruncate_used : Option (ℕ × FileDescriptor) → ℕ → Vfs F → ℤ × Vfs F
  ftruncate_used none size s = (minus_one, s)
  ftruncate_used (some (fd, d)) size s = truncate_file d.node size s

  unfoldable vfs_ftruncate : ℤ → ℕ → Vfs F → ℤ × Vfs F
  unfolding used_fd
  vfs_ftruncate fd size s = ftruncate_used (used_fd s fd) size s

module _ {F : Type 0} where
  abbrev pub seek_to : Option ℕ → ℕ → FileDescriptor → Vfs F → ℕ × Vfs F
  seek_to none fd d s = (word_error, s)
  seek_to (some p) fd d s =
      if ltb (node_at s d.node).size p && not (may_write d.flags)
      then (word_error, s)
      else (p, set_fd s fd (record d { position = p }))

  abbrev pub lseek_used : Option (ℕ × FileDescriptor) → ℕ → ℕ → Vfs F → ℕ × Vfs F
  lseek_used none offset whence s = (word_error, s)
  lseek_used (some (fd, d)) offset whence s =
      seek_to (new_position whence offset d.position (node_at s d.node).size) fd d s

  pub vfs_lseek : ℤ → ℕ → ℕ → Vfs F → ℕ × Vfs F
  unfolding used_fd
  vfs_lseek fd offset whence s = lseek_used (used_fd s fd) offset whence s
