-- ===== src/Vfs/Mounts.antt =====
-- `vfs_mount` and `vfs_unmount` of kernel/src/fs/vfs.c, and the mount table.
pub mod Unmount
use freecore.Prelude.{
  ℕ, ◌-◌, ◌^◌, Bool, true, false, not, ◌&&◌, ◌==◌, if◌then◌else◌, Option, none, some, [], ◌∷◌, ℤ,
  pos, minus_one, set, get_or, bit_or, bit_and,
}
use freecore.Memory.{Ptr, null}
use freecore.Vfs.Types.{
  Str, Node, World, Ops, Vfs, no_mount, vfs_directory, vfs_mountpoint, node_at,
}
use freecore.Vfs.Path.{slash, vfs_normalize_path}
use freecore.Vfs.Search.{find_index}
use freecore.Vfs.Lookup.{str_eq, vfs_lookup}

-- `path == NULL || strcmp(path, "/") == 0`
abbrev pub names_root : Option Str → Bool
names_root none = true
names_root (some path) = str_eq path (slash ∷ [])

module _ {F : Type 0} where
  abbrev pub set_node : World F → Ptr → Node → World F
  set_node w p n = record w { nodes = λ q. if q == p then n else w.nodes q }

  abbrev pub attach : Str → Ptr → Ptr → ℕ → Vfs F → Vfs F
  attach path node mount_point i s = record s {
    mount_table = set s.mount_table i (record { path = path; node = node; used = true });
    world = set_node s.world mount_point (record (node_at s mount_point) {
      mount_point = node;
      type = bit_or (node_at s mount_point).type vfs_mountpoint;
    });
  }

  abbrev pub attach_at : Str → Ptr → Ptr → Option ℕ → Vfs F → ℤ × Vfs F
  attach_at path node mount_point none s = (minus_one, s)
  attach_at path node mount_point (some i) s = (pos 0, attach path node mount_point i s)

  -- `mount_point->type &= ~VFS_MOUNTPOINT` on a `uint32_t`
  abbrev pub detach : Ptr → ℕ → Vfs F → Vfs F
  detach mount_point i s = record s {
    mount_table = set s.mount_table i (record (get_or s.mount_table i no_mount) { used = false });
    world = set_node s.world mount_point (record (node_at s mount_point) {
      mount_point = null;
      type = bit_and (node_at s mount_point).type (2 ^ 32 - 1 - vfs_mountpoint);
    });
  }

module _ {F : Type 0} (ops_at : Ptr → Ops F) where
  abbrev pub mount_found : Str → Ptr → Ptr × Vfs F → ℤ × Vfs F
  mount_found path node (mount_point, s) =
      if mount_point == null
      then (minus_one, s)
      else if not ((node_at s mount_point).type == vfs_directory)
      then (minus_one, s)
      else attach_at path node mount_point (find_index (λ e. not e.used) s.mount_table) s

  abbrev pub mount_normalized : Option Str → Ptr → Vfs F → ℤ × Vfs F
  mount_normalized none node s = (minus_one, s)
  mount_normalized (some path) node s = mount_found path node (vfs_lookup ops_at (some path) s)

  abbrev pub normalize_option : Option Str → Option Str
  normalize_option none = none
  normalize_option (some path) = vfs_normalize_path path

  unfoldable vfs_mount : Option Str → Ptr → Vfs F → ℤ × Vfs F
  unfolding vfs_lookup find_index
  vfs_mount path node s =
      if node == null
      then (minus_one, s)
      else if names_root path
      then (pos 0, record s { root_node = node })
      else if s.root_node == null
      then (minus_one, s)
      else mount_normalized (normalize_option path) node s

  abbrev pub unmount_found : ℕ → Ptr × Vfs F → ℤ × Vfs F
  unmount_found i (mount_point, s) =
      if mount_point == null then (minus_one, s) else (pos 0, detach mount_point i s)

  abbrev pub unmount_entry : Str → Option ℕ → Vfs F → ℤ × Vfs F
  unmount_entry path none s = (minus_one, s)
  unmount_entry path (some i) s = unmount_found i (vfs_lookup ops_at (some path) s)

  abbrev pub unmount_normalized : Option Str → Vfs F → ℤ × Vfs F
  unmount_normalized none s = (minus_one, s)
  unmount_normalized (some path) s =
      unmount_entry path (find_index (λ e. e.used && str_eq e.path path) s.mount_table) s

  pub vfs_unmount : Option Str → Vfs F → ℤ × Vfs F
  unfolding vfs_lookup find_index
  vfs_unmount path s =
      if names_root path then (minus_one, s) else unmount_normalized (normalize_option path) s
