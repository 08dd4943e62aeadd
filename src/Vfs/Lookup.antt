-- ===== src/Vfs/Lookup.antt =====
-- `vfs_lookup` of kernel/src/fs/vfs.c: the walk from the root node along the components of a path.
pub mod Frame
pub mod Meaning
use freecore.Prelude.{
  ℕ, Bool, true, false, not, ◌&&◌, ◌||◌, ◌==◌, if◌then◌else◌, Option, none, some, List, [], ◌∷◌, ℤ,
  minus_one,
}
use freecore.Memory.{Ptr, null}
use freecore.Vfs.Types.{Str, Node, World, Ops, Vfs, vfs_directory, find_op, node_at}
use freecore.Vfs.Path.{slash, tokens, vfs_normalize_path}

-- `strcmp(a, b) == 0`
unfoldable pub str_eq : Str → Str → Bool
str_eq [] [] = true
str_eq [] (d ∷ t) = false
str_eq (c ∷ s) [] = false
str_eq (c ∷ s) (d ∷ t) = (c == d) && str_eq s t

-- `current_path`: the path behind a leading slash
abbrev pub skip_leading : Str → Str
skip_leading [] = []
skip_leading (c ∷ s) = if c == slash then s else c ∷ s

module _ {F : Type 0} (ops_at : Ptr → Ops F) where
  -- The mounted node, where there is one.
  abbrev pub through_mount : World F → Ptr → Ptr
  through_mount w p = if (w.nodes p).mount_point == null then p else (w.nodes p).mount_point

  abbrev pub entered : Ptr × World F → Ptr × World F
  entered (next, w) = if next == null then (null, w) else (through_mount w next, w)

  abbrev pub call_finddir :
      Option (Ptr → Str → World F → Ptr × World F) → Ptr → Str → World F → Ptr × World F
  call_finddir none p token w = (null, w)
  call_finddir (some f) p token w = entered (f p token w)

  -- The body of the loop; NULL is the return of NULL.
  unfoldable pub walk_step : Ptr → Str → World F → Ptr × World F
  walk_step p token w =
      if not ((w.nodes p).type == vfs_directory)
      then (null, w)
      else call_finddir (find_op ops_at (λ o. o.finddir_op) (w.nodes p)) p token w

  unfoldable pub walk : List Str → Ptr → World F → Ptr × World F
  unfolding walk_step
  walk [] p w = (p, w)
  walk (t ∷ ts) p w =
      let (next, w') = walk_step p t w in
      let rest = walk ts next w' in if next == null then (null, w') else rest

  abbrev pub in_world : Vfs F → Ptr × World F → Ptr × Vfs F
  in_world s (p, w) = (p, record s { world = w })

  abbrev pub lookup_normalized : Option Str → Vfs F → Ptr × Vfs F
  lookup_normalized none s = (null, s)
  lookup_normalized (some path) s =
      if str_eq path (slash ∷ [])
      then (s.root_node, s)
      else in_world s (walk (tokens (skip_leading path)) s.root_node s.world)

  -- `none` is a path that is NULL.
  unfoldable pub vfs_lookup : Option Str → Vfs F → Ptr × Vfs F
  unfolding walk str_eq
  vfs_lookup none s = (null, s)
  vfs_lookup (some path) s =
      if s.root_node == null then (null, s) else lookup_normalized (vfs_normalize_path path) s
