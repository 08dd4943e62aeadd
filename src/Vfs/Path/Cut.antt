-- ===== src/Vfs/Path/Cut.antt =====
-- How the calls of kernel/src/fs/vfs.c on a name cut a normalized path into the directory and the
-- name, and what `vfs_lookup` takes such a path for.
use freecore.Prelude.{
  suc, ◌+◌, ◌≡◌, refl, ltb, if◌then◌else◌, List, [], ◌∷◌, ◌++◌, length, arith, drop, take-append,
}
use freecore.Vfs.Types.{Str, vfs_name_max}
use freecore.Vfs.Path.{slash, parts, overflow, split_path}
use freecore.Vfs.Path.Absolute.{IsPlain, body, render, last_slash-append, length-body_pos}

drop_one-append : (xs c : Str) → drop (length xs + 1) (xs ++ (slash ∷ c)) ≡ c
drop_one-append [] c = refl
drop_one-append (x ∷ xs) c =
    let e : length (x ∷ xs) + 1 ≡ suc (length xs + 1) = omega arith in rw e (drop_one-append xs c)

-- The text of a stack is cut into the text of the stack below the top, and the top.
pub split_path-render :
    (c : Str) (st : List Str)
    → IsPlain c
    → split_path (render (c ∷ st))
      ≡ (if ltb vfs_name_max (length c) then overflow else parts (render st) c)
unfolding split_path
split_path-render c [] h = rw (last_slash-append [] c h.0.1, split_path) refl
split_path-render c (d ∷ st) h =
    rw
      (
        last_slash-append (body (d ∷ st)) c h.0.1,
        split_path,
        length-body_pos d st,
        take-append (body (d ∷ st)) (slash ∷ c),
        drop_one-append (body (d ∷ st)) c,
      )
      refl
