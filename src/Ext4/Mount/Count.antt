-- ===== src/Ext4/Mount/Count.antt =====
-- The allocations of the stages of a mount in kernel/src/fs/ext4/ext4.c.
use freecore.Prelude.{
  ℕ, zero, suc, ◌+◌, ◌*◌, ◌%◌, ◌≡◌, ◌≢◌, true, false, ◌≢◌, refl, arith, Bool-cases, inl, inr, ◌==◌,
  if◌then◌else◌, ℤ, is_negative,
}
use freecore.Memory.{Ptr, null}
use freecore.Vfs.Types.{World}
use freecore.Ext4.Layout.{Buffer, superblock, size_of, s_magic}
use freecore.Ext4.Device.{Services, Fs, u32_mod}
use freecore.Ext4.Device.Count.{IsCounted, one, ext4_read_block-live}
use freecore.Ext4.Nodes.{Driven, node_bytes, put_at, with_rest, ext4_create_vfs_node}
use freecore.Ext4.Nodes.Count.{ext4_create_vfs_node-live, ext4_create_vfs_node-Refers}
use freecore.Ext4.Mount.{
  Mounted, ext4_root_ino, ext4_super_magic, ext4_superblock_offset, fs_bytes, gdesc_blocks,
  described, table_loop, root_created, root_allocated, table_read, table_allocated,
  superblock_copied, superblock_read, superblock_allocated, ext4_mount,
}

module _ {W : Type 0} (services : Services W) (q : Ptr) (live : W → ℕ)
    (c : IsCounted services q live) where
  table_loop-live :
      (fs : Fs) (rounds i : ℕ) (table : Buffer) (w : W)
      → live (table_loop services fs rounds i table w).1 ≡ live w
  unfolding table_loop
  table_loop-live fs zero i table w = refl
  table_loop-live fs (suc rounds) i table w =
      grind (arith, ext4_read_block-live services q live c, table_loop-live fs rounds)

-- The structures of a mounted filesystem: those of the root node, the node itself, the filesystem and
-- its descriptors, of which this is how often the address is among them.
abbrev pub released_by : {W : Type 0} → Ptr → Ptr → World (Driven W) → ℕ
released_by q root w =
    let info = (w.nodes root).private_data in
    let at = (w.fs.infos info).fs in
    one q info + one q at + one q (w.fs.mounted at).group_desc_table

-- A root node with an inode, a filesystem and its descriptors, none of them NULL.
pub record OwnsRoot {W : Type 0} (root : Ptr) (w : World (Driven W)) : Type 0 where
  pub node : root ≢ null
  pub info : (w.nodes root).private_data ≢ null
  pub fs : (w.fs.infos (w.nodes root).private_data).fs ≢ null
  pub table : (w.fs.mounted (w.fs.infos (w.nodes root).private_data).fs).group_desc_table ≢ null

module _ {W : Type 0} (services : Services W) (q : Ptr) (live : W → ℕ)
    (c : IsCounted services q live) (ext4_ops : Ptr) (stack : Buffer) where
  -- What a stage of the mount keeps of the address, with `b` allocations of it before the mount.
  abbrev pub Settles : ℕ → Mounted W → Type 0
  Settles b ((result, root), w) =
      (live w.fs.rest ≡ (if is_negative result then b else b + one q root + released_by q root w))
      × (is_negative result ≡ false → OwnsRoot root w)

  root_created-Settles :
      (b : ℕ) (at : Ptr) (fs : Fs) (root : Ptr) (result : ℤ) (w : World (Driven W))
      → at ≢ null
      → root ≢ null
      → fs.group_desc_table ≢ null
      → live w.fs.rest ≡ (
          if is_negative result
          then b + one q at + one q fs.group_desc_table + one q root
          else b
            + one q at
            + one q fs.group_desc_table
            + one q root
            + one q (w.nodes root).private_data)
      → w.fs.mounted at ≡ fs
      → (is_negative result ≡ false
          → ((w.nodes root).private_data ≢ null)
            × ((w.fs.infos (w.nodes root).private_data).fs ≡ at))
      → Settles b (root_created services at fs root (result, w))
  root_created-Settles b at fs root result w h k t e m o = elim (Bool-cases (is_negative result)) [
    | inl f ↦ grind (arith, c.on_kfree)
    | inr f ↦
        let e' : (at == at) ≡ true = ground arith in
        let (info, same) = o f in
        let counted : live w.fs.rest
            ≡ b
              + one q at
              + one q fs.group_desc_table
              + one q root
              + one q (w.nodes root).private_data =
          rw f at e in
        rw f (
          rw (same, e', m) (omega (arith, counted)),
          λ z. record { node = k; info = info; fs = rw same h; table = rw (same, e', m) t },
        )
  ]

  root_allocated-Settles :
      (b : ℕ) (at : Ptr) (fs : Fs) (w : World (Driven W)) (root : Ptr) (m : Buffer) (r : W)
      → at ≢ null
      → fs.group_desc_table ≢ null
      → live r ≡ (
          if root == null
          then b + one q at + one q fs.group_desc_table
          else b + one q at + one q fs.group_desc_table + one q root)
      → Settles b (root_allocated services ext4_ops stack at fs w ((root, m), r))
  root_allocated-Settles b at fs w root m r h k e =
      let stored : World (Driven W) = record w {
        fs = record w.fs { mounted = put_at w.fs.mounted at fs };
      } in
      let w' = with_rest r stored in
      let (result, w'') = ext4_create_vfs_node services ext4_ops stack at ext4_root_ino root w' in
      let l = ext4_create_vfs_node-live services q live c ext4_ops stack at ext4_root_ino root w' in
      let (same, refers) =
        ext4_create_vfs_node-Refers services q live c ext4_ops stack at ext4_root_ino root w' in
      let there : (at == at) ≡ true = ground arith in
      elim (Bool-cases (root == null)) [
        | inl f ↦ grind (arith, c.on_kfree)
        | inr f ↦ rw f (
            root_created-Settles b at fs root result w'' h (ground arith) k (ground arith)
              (rw (same, there) refl) refers)
      ]

  table_read-Settles :
      (b : ℕ) (at : Ptr) (fs : Fs) (root : Ptr) (w : World (Driven W))
      → (result : ℤ) (table : Buffer) (r : W) → at ≢ null
      → fs.group_desc_table ≢ null
      → live r ≡ b + one q at + one q fs.group_desc_table
      → Settles b (table_read services ext4_ops stack at fs root w ((result, table), r))
  table_read-Settles b at fs root w result table r h k e =
      let (got, r') = services.kmalloc node_bytes r in
      elim (Bool-cases (is_negative result)) [
        | inl f ↦ grind (arith, c.on_kfree)
        | inr f ↦
            let e' = c.on_kmalloc node_bytes r in
            rw f (
              root_allocated-Settles b at (record fs { descriptors = table }) w got.0 got.1 r' h k
                (ground arith))
      ]

  table_allocated-Settles :
      (b : ℕ) (at : Ptr) (fs : Fs) (root : Ptr) (w : World (Driven W))
      → (table : Ptr) (m : Buffer) (r : W) → at ≢ null
      → live r ≡ (if table == null then b + one q at else b + one q at + one q table)
      → Settles b (table_allocated services ext4_ops stack at fs root w ((table, m), r))
  table_allocated-Settles b at fs root w table m r h e =
      let fs' : Fs = record fs { group_desc_table = table; descriptors = m } in
      let (read, r') = table_loop services fs' (gdesc_blocks fs') 0 m r in
      elim (Bool-cases (table == null)) [
        | inl f ↦ grind (arith, c.on_kfree)
        | inr f ↦
            let e' = table_loop-live services q live c fs' (gdesc_blocks fs') 0 m r in
            rw f
              (table_read-Settles b at fs' root w read.0 read.1 r' h (ground arith) (ground arith))
      ]

  superblock_copied-Settles :
      (b : ℕ) (at : Ptr) (fs : Fs) (root : Ptr) (w : World (Driven W))
      → at ≢ null
      → live w.fs.rest ≡ b + one q at
      → Settles b (superblock_copied services ext4_ops stack at fs root w)
  superblock_copied-Settles b at fs root w h e =
      let n = gdesc_blocks fs * fs.block_size % u32_mod in
      let (got, r) = services.kmalloc n w.fs.rest in
      elim (Bool-cases (s_magic fs.sb == ext4_super_magic)) [
        | inl f ↦
            let e' = c.on_kmalloc n w.fs.rest in
            rw f (table_allocated-Settles b at fs root w got.0 got.1 r h (ground arith))
        | inr f ↦ grind (arith, c.on_kfree)
      ]

  superblock_read-Settles :
      (b : ℕ) (device at sb root : Ptr) (w : World (Driven W)) (result : ℤ) (m : Buffer) (r : W)
      → at ≢ null
      → sb ≢ null
      → live r ≡ b + one q at + one q sb
      → Settles b (superblock_read services ext4_ops stack device at sb root w ((result, m), r))
  superblock_read-Settles b device at sb root w result m r h k e =
      elim (Bool-cases (is_negative result)) [
        | inl f ↦ grind (arith, c.on_kfree)
        | inr f ↦
            let e' = c.on_kfree sb r k in
            rw f (
              superblock_copied-Settles b at (described device m) root
                (with_rest (services.kfree sb r) w) h (ground arith))
      ]

  superblock_allocated-Settles :
      (b : ℕ) (device at root : Ptr) (w : World (Driven W)) (sb : Ptr) (m : Buffer) (r : W)
      → at ≢ null
      → live r ≡ (if sb == null then b + one q at else b + one q at + one q sb)
      → Settles b (superblock_allocated services ext4_ops stack device at root w ((sb, m), r))
  superblock_allocated-Settles b device at root w sb m r h e =
      let (read, r') = services.read device ext4_superblock_offset (size_of superblock) m r in
      elim (Bool-cases (sb == null)) [
        | inl f ↦ grind (arith, c.on_kfree)
        | inr f ↦
            let e' = c.on_read device ext4_superblock_offset (size_of superblock) m r in
            rw f (
              superblock_read-Settles b device at sb root w read.0 read.1 r' h (ground arith)
                (ground arith))
      ]

  pub ext4_mount-Settles :
      (device root : Ptr) (w : World (Driven W))
      → Settles (live w.fs.rest) (ext4_mount services ext4_ops stack device root w)
  unfolding ext4_mount
  ext4_mount-Settles device root w =
      let b = live w.fs.rest in
      let (got, r) = services.kmalloc fs_bytes w.fs.rest in
      let (sb, r') = services.kmalloc (size_of superblock) r in
      let e = c.on_kmalloc fs_bytes w.fs.rest in
      let e' = c.on_kmalloc (size_of superblock) r in
      elim (Bool-cases (device == null)) [
        | inl d ↦ rw d (ground arith)
        | inr d ↦ elim (Bool-cases (got.0 == null)) [
          | inl f ↦ rw (d, f) (ground arith)
          | inr f ↦
              rw (d, f)
                (superblock_allocated-Settles b device got.0 root w sb.0 sb.1 r' (ground arith)
                  (ground arith))
        ]
      ]
