-- ===== src/Vfs/Mounts/Unmount.antt =====
-- What `vfs_unmount` of kernel/src/fs/vfs.c takes away: it looks its path up through the mount.
use freecore.Prelude.{
  ℕ, ◌+◌, ◌<◌, ◌≡◌, ◌≢◌, refl, ap, ◌∙◌, sym, true, false, ◌==◌, ◌&&◌, leb, some, [], ◌∷◌, length, ℤ,
  pos, arith,
}
use freecore.Memory.{Ptr, null}
use freecore.Vfs.Types.{Str, Node, World, Ops, Vfs, vfs_directory, max_path_length, find_op}
use freecore.Vfs.Path.{slash, vfs_normalize_path}
use freecore.Vfs.Path.Absolute.{IsPlain}
use freecore.Vfs.Path.Normal.{resolve, outward, normalize-resolve, resolve-render}
use freecore.Vfs.Search.{find_index}
use freecore.Vfs.Lookup.{str_eq, walk, walk_step, in_world, vfs_lookup}
use freecore.Vfs.Lookup.Meaning.{vfs_lookup-resolve}
use freecore.Vfs.Mounts.{set_node, detach, names_root, vfs_unmount, unmount_found}

module _ {F : Type 0} (ops_at : Ptr → Ops F) (f : Ptr → Str → World F → Ptr × World F) (c : Str)
    (root child mounted : Ptr) where
  -- A name in the root at which a filesystem is mounted, found by a driver that changes nothing.
  pub record IsMounted (w : World F) : Type 0 where
    pub root_directory : (w.nodes root).type ≡ vfs_directory
    pub finder : find_op ops_at (λ o. o.finddir_op) (w.nodes root) ≡ some f
    pub finds : (v : World F) → f root c v ≡ (child, v)
    pub mount : (w.nodes child).mount_point ≡ mounted
    pub child_there : child ≢ null
    pub mounted_there : mounted ≢ null
    pub mounted_other : mounted ≢ child
    pub mounted_below : mounted ≢ root

  walk-IsMounted : (w : World F) → IsMounted w → walk ops_at (c ∷ []) root w ≡ (mounted, w)
  unfolding walk walk_step
  walk-IsMounted w v =
      let dir : ((w.nodes root).type == vfs_directory) ≡ true = ground (arith, v.root_directory) in
      let here : (child == null) ≡ false = ground (arith, v.child_there) in
      let there : (mounted == null) ≡ false = ground (arith, v.mounted_there) in
      rw (dir, v.finder, v.finds w, here, v.mount, there) (rw there refl)

  -- The node of the mounted filesystem is changed, not the directory that it is mounted on.
  detached-IsMounted : (w : World F) (n : Node) → IsMounted w → IsMounted (set_node w mounted n)
  detached-IsMounted w n v =
      let r : (root == mounted) ≡ false = ground (arith, v.mounted_below) in
      let d : (child == mounted) ≡ false = ground (arith, v.mounted_other) in
      record {
        root_directory = rw r v.root_directory;
        finder = rw r v.finder;
        finds = v.finds;
        mount = rw d v.mount;
        child_there = v.child_there;
        mounted_there = v.mounted_there;
        mounted_other = v.mounted_other;
        mounted_below = v.mounted_below;
      }

  names_root-plain : (d : Str) → IsPlain d → names_root (some (slash ∷ d)) ≡ false
  unfolding str_eq
  names_root-plain [] h = cc
  names_root-plain (x ∷ d) h = refl

  module _ (plain : IsPlain c) (short : length c + 1 < max_path_length)
      (root_there : root ≢ null) where
    lookup-IsMounted :
        (s : Vfs F)
        → s.root_node ≡ root
        → IsMounted s.world
        → vfs_lookup ops_at (some (slash ∷ c)) s ≡ (mounted, s)
    lookup-IsMounted s at_root v =
        let stack : resolve (slash ∷ c) ≡ c ∷ [] = resolve-render (c ∷ []) (plain, tt) in
        vfs_lookup-resolve ops_at c s (λ e. root_there (sym at_root ∙ e)) short
        ∙ ap (λ st. in_world ops_at s (walk ops_at (outward st) s.root_node s.world)) stack
        ∙ ap (λ p. in_world ops_at s (walk ops_at (c ∷ []) p s.world)) at_root
        ∙ ap (in_world ops_at s) (walk-IsMounted s.world v)

    unmount-detach :
        (s : Vfs F) (i : ℕ)
        → s.root_node ≡ root
        → IsMounted s.world
        → find_index (λ e. e.used && str_eq e.path (slash ∷ c)) s.mount_table ≡ some i
        → vfs_unmount ops_at (some (slash ∷ c)) s ≡ (pos 0, detach mounted i s)
    unfolding vfs_unmount
    unmount-detach s i at_root v entry =
        let fits : leb max_path_length (length (slash ∷ c)) ≡ false = ground arith in
        let stack : resolve (slash ∷ c) ≡ c ∷ [] = resolve-render (c ∷ []) (plain, tt) in
        let normal : vfs_normalize_path (slash ∷ c) ≡ some (slash ∷ c) =
          normalize-resolve c ∙ (rw (fits, stack) refl) in
        let there : (mounted == null) ≡ false = ground (arith, v.mounted_there) in
        rw
          (
            names_root-plain c plain,
            normal,
            entry,
            ap (unmount_found ops_at i) (lookup-IsMounted s at_root v),
            there,
          )
          refl

    -- Where a filesystem is mounted at a plain name of the root, which the driver finds without
    -- changing anything, and the mount table has an entry for it, `vfs_unmount` returns 0, and the path
    -- leads to the mounted filesystem as before.
    pub vfs_unmount_keeps :
        (s : Vfs F) (i : ℕ)
        → s.root_node ≡ root
        → IsMounted s.world
        → find_index (λ e. e.used && str_eq e.path (slash ∷ c)) s.mount_table ≡ some i
        → ((vfs_unmount ops_at (some (slash ∷ c)) s).0 ≡ pos 0)
          × ((vfs_lookup ops_at (some (slash ∷ c)) (vfs_unmount ops_at (some (slash ∷ c)) s).1).0
              ≡ mounted)
    vfs_unmount_keeps s i at_root v entry =
        let e = unmount-detach s i at_root v entry in
        (
          ap (λ (r : ℤ × Vfs F). r.0) e,
          ap (λ (r : ℤ × Vfs F). (vfs_lookup ops_at (some (slash ∷ c)) r.1).0) e
              ∙ ap (λ (r : Ptr × Vfs F). r.0)
                  (lookup-IsMounted (detach mounted i s) at_root (detached-IsMounted s.world _ v)),
        )
