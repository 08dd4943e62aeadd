-- ===== src/Ext4/Extents/Tree.antt =====
-- The tree of extents that kernel/src/fs/ext4/ext4.c goes down, as a relation, and the blocks that the
-- code finds in it.
use freecore.Prelude.{
  ℕ, zero, suc, List, ◌∷◌, ◌+◌, ◌-◌, ◌*◌, ◌%◌, ◌^◌, ◌⊎◌, ◌≤◌, ◌<◌, ◌≡◌, ◌≢◌, refl, arith, true,
  false, ◌==◌, leb, some, Bool-cases, inl, inr, pos,
}
use freecore.Memory.{Ptr, null}
use freecore.Ext4.Layout.{
  Buffer, copy_bytes, eh_magic, eh_entries, eh_depth, ei_block, ei_leaf_lo, ei_leaf_hi, ee_block,
  ee_len, ee_start_lo, ee_start_hi,
}
use freecore.Ext4.Device.{Services, Fs, ext4_read_block, join}
use freecore.Ext4.Extents.{
  ext4_extent_header_magic, has_extents, uses_extents, root_place, extent_node_size, index_place,
  extent_place, covers, block_in, blocks_of, file_size, find_child, find_extent, descend,
  ext4_read_extent_block, ext4_read_file_block,
}
use freecore.Ext4.Extents.File.{IsReadable, filled}

-- While the device and the heap are `Ready` (for some more buffers, with some in use), the device's
-- blocks are those of `disk`, and reading one leaves them as ready. Where a buffer is to be had, `kmalloc`
-- gives one, with one less to be had, and `kfree` of the buffer that was got last makes up for it.
pub record IsDisk {W : Type 0} (services : Services W) (Ready : ℕ → List Ptr → W → Type 0) (fs : Fs)
    (disk : ℕ → Buffer) : Type 0 where
  pub reads :
      (n : ℕ) (b : Buffer) (w : W) {spare : ℕ} {held : List Ptr}
      → Ready spare held w
      → (w' : W) × Ready spare held w'
        × (ext4_read_block services fs n b w ≡ ((pos 0, filled b fs.block_size (disk n)), w'))
  pub room :
      (w : W) {spare : ℕ} {held : List Ptr}
      → Ready (suc spare) held w
      → let (got, w') = services.kmalloc fs.block_size w in
        (got.0 ≢ null) × Ready spare (got.0 ∷ held) w'
  pub release :
      (p : Ptr) (w : W) {spare : ℕ} {held : List Ptr}
      → Ready spare (p ∷ held) w
      → Ready (suc spare) held (services.kfree p w)

-- The block that the entry `i` of an index refers to.
abbrev pub child_block : Buffer → ℕ → ℕ
child_block node i = join (ei_leaf_lo node (index_place i)) (ei_leaf_hi node (index_place i))

-- The blocks of the file from the first that the extent `i` of a leaf has, up to the one behind the last.
abbrev pub first_block : Buffer → ℕ → ℕ
first_block node i = ee_block node (extent_place i)

abbrev pub end_block : Buffer → ℕ → ℕ
end_block node i = ee_block node (extent_place i) + ee_len node (extent_place i)

abbrev pub start_block : Buffer → ℕ → ℕ
start_block node i = ee_start_lo node (extent_place i) + 2 ^ 32 * ee_start_hi node (extent_place i)

-- A node of a depth has the block `c` of a file at the block `p` of the device: in a leaf, the first
-- extent that has it, where no extent up to it ends above 2^32; above, the last child that begins at it or before, of which the first one is not
-- asked. A child is read over the bytes of its parent.
pub data Maps (disk : ℕ → Buffer) (bs c : ℕ) : ℕ → Buffer → ℕ → Type 0 where
  leaf :
      {node : Buffer} (i : ℕ)
      → i < eh_entries node 0
      → ((j : ℕ) → j ≤ i → end_block node j < 2 ^ 32)
      → first_block node i ≤ c
      → c < end_block node i
      → ((j : ℕ) → j < i → (c < first_block node j) ⊎ (end_block node j ≤ c))
      → Maps disk bs c 0 node ((start_block node i + (c - first_block node i)) % 2 ^ 64)
  inner :
      {node : Buffer} {depth p : ℕ} (i : ℕ)
      → i < eh_entries node 0
      → ((j : ℕ) → 0 < j → j ≤ i → ei_block node (index_place j) ≤ c)
      → (i + 1 < eh_entries node 0 → c < ei_block node (index_place (i + 1)))
      → eh_magic (filled node bs (disk (child_block node i))) 0 ≡ ext4_extent_header_magic
      → Maps disk bs c depth (filled node bs (disk (child_block node i))) p
      → Maps disk bs c (suc depth) node p

covers_lem :
    (node : Buffer) (i c : ℕ)
    → end_block node i < 2 ^ 32
    → first_block node i ≤ c
    → c < end_block node i
    → covers node i c ≡ true
covers_lem node i c whole from to = ground arith

covers_not :
    (node : Buffer) (j c : ℕ)
    → end_block node j < 2 ^ 32
    → (c < first_block node j) ⊎ (end_block node j ≤ c)
    → covers node j c ≡ false
covers_not node j c whole out = ground arith

find_extent_lem :
    (node : Buffer) (c i rounds k : ℕ)
    → k ≤ i
    → i < k + rounds
    → covers node i c ≡ true
    → ((j : ℕ) → j < i → covers node j c ≡ false)
    → find_extent node c rounds k ≡ some (block_in node i c)
unfolding find_extent
find_extent_lem node c i zero k h l e others = absurd (omega arith)
find_extent_lem node c i (suc rounds) k h l e others = elim (Bool-cases (k == i)) [
  | inl here ↦ let same : k ≡ i = ground arith in rw same (rw e refl)
  | inr later ↦
      rw (others k (ground arith))
        (find_extent_lem node c i rounds (k + 1) (ground arith) (omega arith) e others)
]

find_child_lem :
    (node : Buffer) (c i rounds k : ℕ)
    → k ≤ i
    → i < k + rounds
    → k + rounds ≡ eh_entries node 0
    → ((j : ℕ) → 0 < j → j ≤ i → ei_block node (index_place j) ≤ c)
    → (i + 1 < eh_entries node 0 → c < ei_block node (index_place (i + 1)))
    → find_child node c rounds k ≡ i
unfolding find_child
find_child_lem node c i zero k h l e before after = absurd (omega arith)
find_child_lem node c i (suc rounds) k h l e before after = elim (Bool-cases (k == i)) [
  | inl here ↦ let same : k ≡ i = ground arith in rw same (grind (arith, after))
  | inr later ↦
      let rest =
        find_child_lem node c i rounds (k + 1) (ground arith) (omega arith) (omega arith) before
          after in
      ground (arith, rest, before (k + 1))
]

module _ {W : Type 0} (services : Services W) (Ready : ℕ → List Ptr → W → Type 0) (fs : Fs)
    (disk : ℕ → Buffer) (d : IsDisk services Ready fs disk) where
  descend_lem :
      (c depth : ℕ) (node : Buffer) (p : ℕ) (w : W) {spare : ℕ} {held : List Ptr}
      → Maps disk fs.block_size c depth node p
      → Ready spare held w
      → let ((result, node'), w') = descend services fs c depth node w in
        (result ≡ pos 0)
        × Ready spare held w'
        × (find_extent node' c (eh_entries node' 0) 0 ≡ some p)
  unfolding descend
  descend_lem c zero node p w (leaf i l whole from to others) ready = (
    refl,
    ready,
    find_extent_lem node c i (eh_entries node 0) 0 (omega arith) (omega arith)
        (covers_lem node i c (whole i (omega arith)) from to)
        (λ j u. covers_not node j c (whole j (omega arith)) (others j u)),
  )
  descend_lem c (suc depth) node p w (inner i l before after magic below) ready =
      let child =
        find_child_lem node c i (eh_entries node 0) 0 (omega arith) (omega arith) (omega arith)
          before after in
      let (w', ready', e) = d.reads (child_block node i) node w ready in
      let node' = filled node fs.block_size (disk (child_block node i)) in
      let rest = descend_lem c depth node' p w' below ready' in
      let inside : leb (eh_entries node 0) i ≡ false = ground arith in
      let is_node : (eh_magic node' 0 == ext4_extent_header_magic) ≡ true = ground arith in
      let run : descend services fs c (suc depth) node w ≡ descend services fs c depth node' w' =
        simp (child, e, inside, is_node) refl in
      rw run rest

  -- The root in the buffer, which held `m` before.
  abbrev root_node : Buffer → Buffer → Buffer
  root_node m raw = copy_bytes m 0 raw root_place extent_node_size

  -- An inode with a tree of extents that has every block of the file, block `c` at `phys c`.
  pub record IsTree (raw : Buffer) (phys : ℕ → ℕ) : Type 0 where
    pub extents : has_extents fs ≡ true
    pub flag : uses_extents raw ≡ true
    pub magic : eh_magic raw root_place ≡ ext4_extent_header_magic
    pub maps :
        (m : Buffer) (c : ℕ)
        → c < blocks_of fs (file_size raw)
        → Maps disk fs.block_size c (eh_depth (root_node m raw) 0) (root_node m raw) (phys c)

  pub ext4_read_extent_block_lem :
      (raw : Buffer) (phys : ℕ → ℕ) (c out : ℕ) (w : W) {spare : ℕ} {held : List Ptr}
      → IsTree raw phys
      → c < blocks_of fs (file_size raw)
      → Ready (suc spare) held w
      → (w' : W) × Ready (suc spare) held w'
        × (ext4_read_extent_block services fs raw c out w ≡ ((pos 0, phys c), w'))
  unfolding ext4_read_extent_block
  ext4_read_extent_block_lem raw phys c out w t h ready =
      let (got, w') = services.kmalloc fs.block_size w in
      let (some_room, ready') = d.room w ready in
      let node = root_node got.1 raw in
      let (zero_result, ready'', found) =
        descend_lem c (eh_depth node 0) node (phys c) w' (t.maps got.1 c h) ready' in
      let w'' = (descend services fs c (eh_depth node 0) node w').1 in
      let not_null : (got.0 == null) ≡ false = ground arith in
      let is_node : (eh_magic raw root_place == ext4_extent_header_magic) ≡ true =
        ground (arith, t.magic) in
      (
        services.kfree got.0 w'',
        d.release got.0 w'' ready'',
        simp (t.extents, t.flag, is_node, not_null, zero_result, found) refl,
      )

  -- While the blocks of the device can be read and the heap has buffers to give, a file whose inode
  -- has a tree of extents for all of its blocks can be read by ext4_read_file_block, and its
  -- blocks are those of the device that the tree gives.
  pub IsTree-IsReadable :
      (raw : Buffer) (phys : ℕ → ℕ)
      → IsTree raw phys
      → IsReadable services Ready fs raw (λ c. disk (phys c))
  unfolding ext4_read_file_block
  IsTree-IsReadable raw phys t = record {
    reads = λ c h b w {spare} {held} ready.
        let (w', ready', e) = ext4_read_extent_block_lem raw phys c 0 w t h ready in
        let (w'', ready'', e') = d.reads (phys c) b w' ready' in
        let within : leb (blocks_of fs (file_size raw)) c ≡ false = ground arith in
        (w'', ready'', rw (within, t.extents) (simp (e, e') refl));
    room = λ w {spare} {held} ready. d.room w ready;
  }
