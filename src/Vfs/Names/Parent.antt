-- ===== src/Vfs/Names/Parent.antt =====
-- The calls of kernel/src/fs/vfs.c that make or remove a name, on an absolute path: the directory that
-- they act on, and the buffer for the name.
use freecore.Prelude.{
  ℕ, ◌+◌, ◌≡◌, ◌<◌, refl, ◌∙◌, subst, true, false, ltb, leb, if◌then◌else◌, Option, none, some,
  List, [], ◌∷◌, length, arith, ℤ, Bool-cases, inl, inr,
}
use freecore.Memory.{Ptr}
use freecore.Vfs.Types.{Str, World, Ops, Vfs, vfs_name_max, max_path_length}
use freecore.Vfs.Path.{slash, vfs_normalize_path, split_path}
use freecore.Vfs.Path.Absolute.{IsPlain, AllPlain, render}
use freecore.Vfs.Path.Normal.{resolve, resolve-AllPlain, resolve-render, normalize-resolve}
use freecore.Vfs.Path.Cut.{split_path-render}
use freecore.Vfs.Lookup.{vfs_lookup}
use freecore.Vfs.Names.{
  Outcome, bound, on_parent, at_split, at_normalized, vfs_mkdir, vfs_rmdir, vfs_create, vfs_unlink,
}

module _ {F : Type 0} (ops_at : Ptr → Ops F) where
  -- The call of an operation of the directory `st` with the name `c`, where the name fits.
  abbrev pub name_call :
      (Str → Ptr → Vfs F → Option (World F → ℤ × World F)) → List Str → Str → Vfs F → Outcome ops_at
  name_call op st c s =
      if ltb vfs_name_max (length c)
      then none
      else some (on_parent ops_at (op c) (vfs_lookup ops_at (some (render st)) s))

  at_split-render :
      (op : Str → Ptr → Vfs F → Option (World F → ℤ × World F)) (c : Str) (st : List Str)
      (s : Vfs F)
      → IsPlain c
      → at_split ops_at op (split_path (render (c ∷ st))) s ≡ name_call op st c s
  at_split-render op c st s h = elim (Bool-cases (ltb vfs_name_max (length c))) [
    | inl e ↦ rw (split_path-render c st h, e) refl
    | inr e ↦ rw (split_path-render c st h, e) refl
  ]

  at_normalized-resolve :
      (op : Str → Ptr → Vfs F → Option (World F → ℤ × World F)) (path : Str) (c : Str)
      (st : List Str) (s : Vfs F)
      → length path + 1 < max_path_length
      → resolve (slash ∷ path) ≡ c ∷ st
      → at_normalized ops_at op (vfs_normalize_path (slash ∷ path)) s ≡ name_call op st c s
  at_normalized-resolve op path c st s small e =
      let fits : leb max_path_length (length (slash ∷ path)) ≡ false = ground arith in
      let normal : vfs_normalize_path (slash ∷ path) ≡ some (render (c ∷ st)) =
        normalize-resolve path ∙ (rw (fits, e) refl) in
      let plain = subst AllPlain e (resolve-AllPlain (slash ∷ path)) in
      rw normal (at_split-render op c st s plain.0)

  -- The operation that each of the four calls makes of a directory, with a name.
  abbrev pub mkdir_in : ℕ → Str → Ptr → Vfs F → Option (World F → ℤ × World F)
  mkdir_in mode name dir s = bound ops_at (λ o. o.mkdir_op) (λ f. f dir name mode) dir s

  abbrev pub rmdir_in : Str → Ptr → Vfs F → Option (World F → ℤ × World F)
  rmdir_in name dir s = bound ops_at (λ o. o.rmdir_op) (λ f. f dir name) dir s

  abbrev pub create_in : ℕ → Str → Ptr → Vfs F → Option (World F → ℤ × World F)
  create_in mode name dir s = bound ops_at (λ o. o.create_op) (λ f. f dir name mode) dir s

  abbrev pub unlink_in : Str → Ptr → Vfs F → Option (World F → ℤ × World F)
  unlink_in name dir s = bound ops_at (λ o. o.unlink_op) (λ f. f dir name) dir s

  pub names-resolve :
      (path : Str) (c : Str) (st : List Str) (mode : ℕ) (s : Vfs F)
      → length path + 1 < max_path_length
      → resolve (slash ∷ path) ≡ c ∷ st
      → (vfs_mkdir ops_at (slash ∷ path) mode s ≡ name_call (mkdir_in mode) st c s)
        × (vfs_rmdir ops_at (slash ∷ path) s ≡ name_call rmdir_in st c s)
        × (vfs_create ops_at (slash ∷ path) mode s ≡ name_call (create_in mode) st c s)
        × (vfs_unlink ops_at (slash ∷ path) s ≡ name_call unlink_in st c s)
  unfolding vfs_mkdir vfs_rmdir vfs_create vfs_unlink
  names-resolve path c st mode s small e = (
    at_normalized-resolve (mkdir_in mode) path c st s small e,
    at_normalized-resolve rmdir_in path c st s small e,
    at_normalized-resolve (create_in mode) path c st s small e,
    at_normalized-resolve unlink_in path c st s small e,
  )

  -- The buffer for the name is VFS_NAME_MAX + 1 bytes, and nothing checks the name against it: each of
  -- the four calls, on a slash with a plain name of 256 to 510 characters behind it, writes past the
  -- end of the buffer.
  pub names_overrun :
      (c : Str) (mode : ℕ) (s : Vfs F)
      → IsPlain c
      → vfs_name_max < length c
      → length c + 1 < max_path_length
      → (vfs_mkdir ops_at (slash ∷ c) mode s ≡ none)
        × (vfs_rmdir ops_at (slash ∷ c) s ≡ none)
        × (vfs_create ops_at (slash ∷ c) mode s ≡ none)
        × (vfs_unlink ops_at (slash ∷ c) s ≡ none)
  names_overrun c mode s plain long small =
      let all = names-resolve c c [] mode s small (resolve-render (c ∷ []) (plain, tt)) in
      let over : ltb vfs_name_max (length c) ≡ true = ground arith in
      (
        all.0 ∙ (rw over refl),
        all.1 ∙ (rw over refl),
        all.2 ∙ (rw over refl),
        all.3 ∙ (rw over refl),
      )
