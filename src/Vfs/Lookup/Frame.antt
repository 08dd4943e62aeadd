-- ===== src/Vfs/Lookup/Frame.antt =====
-- The walk of kernel/src/fs/vfs.c writes no table of the file: only drivers run in it.
use freecore.Prelude.{◌≡◌, refl, ◌==◌, Option, none, some, [], ◌∷◌, Bool-cases, inl, inr}
use freecore.Memory.{Ptr, null}
use freecore.Vfs.Types.{Str, Ops, Vfs}
use freecore.Vfs.Path.{slash, vfs_normalize_path}
use freecore.Vfs.Lookup.{str_eq, lookup_normalized, vfs_lookup}

-- The state differs in its world only.
pub record SameTables {F : Type 0} (s s' : Vfs F) : Type 0 where
  pub fds : s'.fd_table ≡ s.fd_table
  pub mounts : s'.mount_table ≡ s.mount_table
  pub root : s'.root_node ≡ s.root_node

abbrev pub SameTables-refl : {F : Type 0} (s : Vfs F) → SameTables s s
SameTables-refl s = record { fds = refl; mounts = refl; root = refl }

module _ {F : Type 0} (ops_at : Ptr → Ops F) where
  lookup_normalized-SameTables :
      (o : Option Str) (s : Vfs F) → SameTables s (lookup_normalized ops_at o s).1
  lookup_normalized-SameTables none s = SameTables-refl s
  lookup_normalized-SameTables (some p) s = elim (Bool-cases (str_eq p (slash ∷ []))) [
    | inl e ↦ rw e (SameTables-refl s)
    | inr e ↦ rw e (record { fds = refl; mounts = refl; root = refl })
  ]

  pub vfs_lookup-SameTables :
      (path : Option Str) (s : Vfs F) → SameTables s (vfs_lookup ops_at path s).1
  unfolding vfs_lookup
  vfs_lookup-SameTables none s = SameTables-refl s
  vfs_lookup-SameTables (some p) s = elim (Bool-cases (s.root_node == null)) [
    | inl e ↦ rw e (SameTables-refl s)
    | inr e ↦ rw e (lookup_normalized-SameTables (vfs_normalize_path p) s)
  ]
