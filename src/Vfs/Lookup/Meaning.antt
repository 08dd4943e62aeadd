-- ===== src/Vfs/Lookup/Meaning.antt =====
-- `vfs_lookup` of kernel/src/fs/vfs.c on an absolute path against the meaning of the path.
use freecore.Prelude.{
  ◌+◌, ◌<◌, ◌≡◌, ◌≢◌, refl, ap, ◌∙◌, sym, false, ◌==◌, leb, some, List, [], ◌∷◌, ◌++◌, length,
  arith, inl, inr, if◌then◌else◌, Bool-cases,
}
use freecore.Memory.{Ptr, null}
use freecore.Vfs.Types.{Str, World, Ops, Vfs, max_path_length}
use freecore.Vfs.Path.{slash, vfs_normalize_path}
use freecore.Vfs.Path.Tokens.{join, tokens-join_rest, AllComponents}
use freecore.Vfs.Path.Absolute.{AllPlain, render}
use freecore.Vfs.Path.Normal.{
  outward, body-join, outward-components, resolve, resolve-AllPlain, normalize-resolve,
}
use freecore.Vfs.Lookup.{str_eq, walk, walk_step, in_world, lookup_normalized, vfs_lookup}

module _ {F : Type 0} (ops_at : Ptr → Ops F) where
  lookup_join :
      (cs : List Str) (s : Vfs F)
      → AllComponents cs
      → cs ≢ []
      → lookup_normalized ops_at (some (join cs)) s
        ≡ in_world ops_at s (walk ops_at cs s.root_node s.world)
  unfolding str_eq
  lookup_join [] s h ne = absurd (ne refl)
  lookup_join ([] ∷ cs) s h ne = cc
  lookup_join ((x ∷ c) ∷ cs) s h ne = rw (tokens-join_rest (x ∷ c) cs h) refl

  nonempty : (st : List Str) (c : Str) → st ++ (c ∷ []) ≢ []
  nonempty [] c e = cc
  nonempty (d ∷ st) c e = cc

  lookup_render :
      (st : List Str) (s : Vfs F)
      → AllPlain st
      → lookup_normalized ops_at (some (render st)) s
        ≡ in_world ops_at s (walk ops_at (outward st) s.root_node s.world)
  unfolding str_eq walk
  lookup_render [] s h = refl
  lookup_render (c ∷ st) s h =
      rw (body-join (c ∷ st))
        (lookup_join (outward (c ∷ st)) s (outward-components (c ∷ st) h) (nonempty (outward st) c))

  pub vfs_lookup-resolve :
      (path : Str) (s : Vfs F)
      → s.root_node ≢ null
      → length path + 1 < max_path_length
      → vfs_lookup ops_at (some (slash ∷ path)) s
        ≡ in_world ops_at s (walk ops_at (outward (resolve (slash ∷ path))) s.root_node s.world)
  unfolding vfs_lookup
  vfs_lookup-resolve path s root small =
      let some_root : (s.root_node == null) ≡ false = ground arith in
      let fits : leb max_path_length (length (slash ∷ path)) ≡ false = ground arith in
      let normal : vfs_normalize_path (slash ∷ path) ≡ some (render (resolve (slash ∷ path))) =
        normalize-resolve path ∙ (rw fits refl) in
      rw (some_root, normal)
        (lookup_render (resolve (slash ∷ path)) s (resolve-AllPlain (slash ∷ path)))

  -- From a node that is not NULL, the walk along one component more is the step from where the walk
  -- along the others leads, and NULL if that is NULL.
  walk-append :
      (cs : List Str) (c : Str) (p : Ptr) (w : World F)
      → p ≢ null
      → walk ops_at (cs ++ (c ∷ [])) p w ≡ (
          let (parent, w') = walk ops_at cs p w in
          if parent == null then (null, w') else walk_step ops_at parent c w')
  unfolding walk
  walk-append [] c p w ne = elim (Bool-cases ((walk_step ops_at p c w).0 == null)) [
    | inl e ↦
        let there : (p == null) ≡ false = ground arith in
        let at_null : (walk_step ops_at p c w).0 ≡ null = ground arith in
        rw (there, e) (ap (λ q. (q, (walk_step ops_at p c w).1)) (sym at_null))
    | inr e ↦ let there : (p == null) ≡ false = ground arith in rw (there, e) refl
  ]
  walk-append (d ∷ cs) c p w ne = elim (Bool-cases ((walk_step ops_at p d w).0 == null)) [
    | inl e ↦ rw e refl
    | inr e ↦
        rw e (walk-append cs c (walk_step ops_at p d w).0 (walk_step ops_at p d w).1 (ground arith))
  ]
