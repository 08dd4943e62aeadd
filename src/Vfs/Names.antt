-- ===== src/Vfs/Names.antt =====
-- The calls of kernel/src/fs/vfs.c that act on a name: those that look up the node itself, and those
-- that look up the directory that holds it. In the latter the last component is copied into a buffer
-- of VFS_NAME_MAX + 1 bytes; `none` is a copy that runs over it.
pub mod Parent
use freecore.Prelude.{ℕ, not, ◌||◌, ◌==◌, if◌then◌else◌, Option, none, some, ℤ, minus_one}
use freecore.Memory.{Ptr, null}
use freecore.Vfs.Types.{Str, World, Ops, Vfs, vfs_directory, vfs_symlink_type, find_op, node_at}
use freecore.Vfs.Path.{vfs_normalize_path, Split, parts, overflow, split_path}
use freecore.Vfs.Lookup.{vfs_lookup}
use freecore.Vfs.Files.{on_world, truncate_file}

module _ {F : Type 0} (ops_at : Ptr → Ops F) where
  -- A call of an operation that is there.
  abbrev pub call : Option (World F → ℤ × World F) → Vfs F → ℤ × Vfs F
  call none s = (minus_one, s)
  call (some f) s = on_world s (f s.world)

  -- An operation of the node at `p`, with its arguments.
  abbrev pub bound :
      {X : Type 0}
      → (Ops F → Option X)
      → (X → World F → ℤ × World F)
      → Ptr
      → Vfs F
      → Option (World F → ℤ × World F)
  bound op use_op p s = elim (find_op ops_at op (node_at s p)) [
    | none ↦ none
    | some f ↦ some (use_op f)
  ]

  -- `node = vfs_lookup(path); if (!node) return -1;`
  abbrev pub on_node : (Ptr → Vfs F → ℤ × Vfs F) → Ptr × Vfs F → ℤ × Vfs F
  on_node body (node, s) = if node == null then (minus_one, s) else body node s

  unfoldable vfs_readdir : Option Str → ℕ → Ptr → Vfs F → ℤ × Vfs F
  vfs_readdir path index dirent s =
      on_node
        (λ node s.
          if not ((node_at s node).type == vfs_directory)
          then (minus_one, s)
          else call (bound (λ o. o.readdir_op) (λ f. f node index dirent) node s) s)
        (vfs_lookup ops_at path s)

  unfoldable vfs_stat : Option Str → Ptr → Vfs F → ℤ × Vfs F
  vfs_stat path stat s =
      on_node (λ node s. call (bound (λ o. o.stat_op) (λ f. f node stat) node s) s)
        (vfs_lookup ops_at path s)

  unfoldable vfs_readlink : Option Str → Ptr → ℕ → Vfs F → ℤ × Vfs F
  vfs_readlink path buffer size s =
      on_node
        (λ node s.
          if not ((node_at s node).type == vfs_symlink_type)
          then (minus_one, s)
          else call (bound (λ o. o.readlink_op) (λ f. f node buffer size) node s) s)
        (vfs_lookup ops_at path s)

  unfoldable vfs_chmod : Option Str → ℕ → Vfs F → ℤ × Vfs F
  vfs_chmod path mode s =
      on_node (λ node s. call (bound (λ o. o.chmod_op) (λ f. f node mode) node s) s)
        (vfs_lookup ops_at path s)

  unfoldable vfs_chown : Option Str → ℕ → ℕ → Vfs F → ℤ × Vfs F
  vfs_chown path uid gid s =
      on_node (λ node s. call (bound (λ o. o.chown_op) (λ f. f node uid gid) node s) s)
        (vfs_lookup ops_at path s)

  unfoldable vfs_truncate : Option Str → ℕ → Vfs F → ℤ × Vfs F
  vfs_truncate path size s =
      on_node (λ node s. truncate_file ops_at node size s) (vfs_lookup ops_at path s)

  -- A result, or a copy that ran over its buffer.
  abbrev pub Outcome : Type 0
  Outcome = Option (ℤ × Vfs F)

  -- The tests on the parent, and the call of its operation.
  abbrev pub on_parent : (Ptr → Vfs F → Option (World F → ℤ × World F)) → Ptr × Vfs F → ℤ × Vfs F
  on_parent op (parent, s) =
      if parent == null
      then (minus_one, s)
      else if not ((node_at s parent).type == vfs_directory)
      then (minus_one, s)
      else call (op parent s) s

  abbrev pub at_split :
      (Str → Ptr → Vfs F → Option (World F → ℤ × World F)) → Split → Vfs F → Outcome
  at_split op overflow s = none
  at_split op (parts parent base) s = some (on_parent (op base) (vfs_lookup ops_at (some parent) s))

  abbrev pub at_normalized :
      (Str → Ptr → Vfs F → Option (World F → ℤ × World F)) → Option Str → Vfs F → Outcome
  at_normalized op none s = some (minus_one, s)
  at_normalized op (some path) s = at_split op (split_path path) s

  pub vfs_mkdir : Str → ℕ → Vfs F → Outcome
  vfs_mkdir path mode s =
      at_normalized (λ name dir s. bound (λ o. o.mkdir_op) (λ f. f dir name mode) dir s)
        (vfs_normalize_path path) s

  pub vfs_rmdir : Str → Vfs F → Outcome
  vfs_rmdir path s =
      at_normalized (λ name dir s. bound (λ o. o.rmdir_op) (λ f. f dir name) dir s)
        (vfs_normalize_path path) s

  pub vfs_create : Str → ℕ → Vfs F → Outcome
  vfs_create path mode s =
      at_normalized (λ name dir s. bound (λ o. o.create_op) (λ f. f dir name mode) dir s)
        (vfs_normalize_path path) s

  pub vfs_unlink : Str → Vfs F → Outcome
  vfs_unlink path s =
      at_normalized (λ name dir s. bound (λ o. o.unlink_op) (λ f. f dir name) dir s)
        (vfs_normalize_path path) s

  unfoldable vfs_symlink : Str → Str → Vfs F → Outcome
  vfs_symlink target linkpath s =
      at_normalized (λ name dir s. bound (λ o. o.symlink_op) (λ f. f dir target name) dir s)
        (vfs_normalize_path linkpath) s

  -- Both lookups, the old parent's first, and then the tests on the two nodes.
  abbrev pub rename_in : Str → Str → Ptr → Ptr × Vfs F → ℤ × Vfs F
  rename_in old_name new_name old_parent (new_parent, s) =
      if (old_parent == null) || (new_parent == null)
      then (minus_one, s)
      else if not ((node_at s old_parent).type == vfs_directory)
          || not ((node_at s new_parent).type == vfs_directory)
      then (minus_one, s)
      else if old_parent == new_parent
      then call (bound (λ o. o.rename_op) (λ f. f old_parent old_name new_name) old_parent s) s
      else (minus_one, s)

  abbrev pub rename_between : Str → Str → Str → Ptr × Vfs F → ℤ × Vfs F
  rename_between old_name new_path new_name (old_parent, s) =
      rename_in old_name new_name old_parent (vfs_lookup ops_at (some new_path) s)

  abbrev pub rename_split : Split → Split → Vfs F → Outcome
  rename_split overflow b s = none
  rename_split (parts p n) overflow s = none
  rename_split (parts p n) (parts q m) s =
      some (rename_between n q m (vfs_lookup ops_at (some p) s))

  abbrev pub rename_normalized : Option Str → Option Str → Vfs F → Outcome
  rename_normalized none b s = some (minus_one, s)
  rename_normalized (some a) none s = some (minus_one, s)
  rename_normalized (some a) (some b) s = rename_split (split_path a) (split_path b) s

  unfoldable vfs_rename : Str → Str → Vfs F → Outcome
  vfs_rename oldpath newpath s =
      rename_normalized (vfs_normalize_path oldpath) (vfs_normalize_path newpath) s

  -- The target first, which may be no directory, and then the directory of the new name.
  abbrev pub link_target : Str → Str → Str → Ptr × Vfs F → ℤ × Vfs F
  link_target old_path new_parent new_name (target, s) =
      if target == null
      then (minus_one, s)
      else if (node_at s target).type == vfs_directory
      then (minus_one, s)
      else on_parent (λ dir s. bound (λ o. o.link_op) (λ f. f dir old_path new_name) dir s)
          (vfs_lookup ops_at (some new_parent) s)

  abbrev pub link_split : Str → Split → Split → Vfs F → Outcome
  link_split old_path overflow b s = none
  link_split old_path (parts p n) overflow s = none
  link_split old_path (parts p n) (parts q m) s =
      some (link_target old_path q m (vfs_lookup ops_at (some old_path) s))

  abbrev pub link_normalized : Option Str → Option Str → Vfs F → Outcome
  link_normalized none b s = some (minus_one, s)
  link_normalized (some a) none s = some (minus_one, s)
  link_normalized (some a) (some b) s = link_split a (split_path a) (split_path b) s

  unfoldable vfs_link : Str → Str → Vfs F → Outcome
  vfs_link oldpath newpath s =
      link_normalized (vfs_normalize_path oldpath) (vfs_normalize_path newpath) s
