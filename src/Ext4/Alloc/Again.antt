-- ===== src/Ext4/Alloc/Again.antt =====
-- A second write of kernel/src/fs/ext4/ext4.c to a file, and the reading of what the first one wrote.
use freecore.Prelude.{
  ℕ, ◌+◌, ◌*◌, ◌%◌, ◌≤◌, ◌≡◌, ◌⊎◌, inl, inr, refl, ◌∙◌, arith, true, false, ◌==◌, ltb, Bool-cases,
  minus_one, is_negative,
}
use freecore.Memory.{word_mod}
use freecore.Ext4.Layout.{
  Buffer, Layout, set_field, offset_of, width_of, size_of, inode, extent_header, extent, i_flags,
  eh_magic,
}
use freecore.Ext4.Layout.Frame.{field-set_field}
use freecore.Ext4.Device.{Services, Fs}
use freecore.Ext4.Extents.{
  ext4_extent_header_magic, uses_extents, root_place, extent_place, file_size,
  ext4_read_extent_block,
}
use freecore.Ext4.Alloc.{first_extent, grown, ext4_write_extent_block}

-- The flags are the bytes 32 to 35 of the inode.
flags_kept :
    (l : Layout) (k : ℕ) (b : Buffer) (p v : ℕ)
    → (36 ≤ p + offset_of l k) ⊎ (p + offset_of l k + width_of l k ≤ 32)
    → i_flags (set_field l k b p v) ≡ i_flags b
unfolding offset_of width_of
flags_kept l k b p v (inl h) = field-set_field inode l 10 k b 0 p v (inl (omega arith))
flags_kept l k b p v (inr h) = field-set_field inode l 10 k b 0 p v (inr (omega arith))

flags-first_extent : (raw : Buffer) (n phys : ℕ) → i_flags (first_extent raw n phys) ≡ i_flags raw
unfolding offset_of width_of size_of
flags-first_extent raw n phys =
    let place = root_place + extent_place 0 in
    flags_kept extent 2 _ place _ (inl (omega arith))
    ∙ flags_kept extent 3 _ place _ (inl (omega arith))
    ∙ flags_kept extent 1 _ place _ (inl (omega arith))
    ∙ flags_kept extent 0 _ place _ (inl (omega arith))
    ∙ flags_kept extent_header 4 _ root_place _ (inl (omega arith))
    ∙ flags_kept extent_header 3 _ root_place _ (inl (omega arith))
    ∙ flags_kept extent_header 2 _ root_place _ (inl (omega arith))
    ∙ flags_kept extent_header 1 _ root_place _ (inl (omega arith))
    ∙ flags_kept extent_header 0 _ root_place _ (inl (omega arith))

flags-grown : (fs : Fs) (n : ℕ) (raw : Buffer) → i_flags (grown fs n raw) ≡ i_flags raw
unfolding offset_of width_of
flags-grown fs n raw =
    let end = (n * fs.block_size + fs.block_size) % word_mod in
    elim (Bool-cases (ltb (file_size raw) end)) [
      | inl e ↦ rw e (
          flags_kept inode 15 _ 0 _ (inl (omega arith))
          ∙ flags_kept inode 2 _ 0 _ (inr (omega arith)))
      | inr e ↦ rw e refl
    ]

module _ {W : Type 0} (services : Services W) where
  -- An inode that has an extent header is not changed, and the write of a block to it fails.
  pub ext4_write_extent_block-fails :
      (fs : Fs) (raw : Buffer) (n : ℕ) (b : Buffer) (w : W)
      → eh_magic raw root_place ≡ ext4_extent_header_magic
      → let (result, raw') = (ext4_write_extent_block services fs raw n b w).0 in
        (is_negative result ≡ true) × (raw' ≡ raw)
  unfolding ext4_write_extent_block
  ext4_write_extent_block-fails fs raw n b w h =
      let is_node : (eh_magic raw root_place == ext4_extent_header_magic) ≡ true = ground arith in
      ground arith

  flags_written :
      (fs : Fs) (raw : Buffer) (n : ℕ) (b : Buffer) (w : W)
      → i_flags (ext4_write_extent_block services fs raw n b w).0.1 ≡ i_flags raw
  unfolding ext4_write_extent_block
  flags_written fs raw n b w = grind (arith, flags-grown, flags-first_extent)

  -- Whatever a write of a block answers, an inode that lacks the flag of the extents still lacks it, so
  -- that no block of the file can be read.
  pub ext4_read_extent_block-write :
      (fs fs' : Fs) (raw : Buffer) (n c out : ℕ) (b : Buffer) (w w' : W)
      → uses_extents raw ≡ false
      → let raw' = (ext4_write_extent_block services fs raw n b w).0.1 in
        (ext4_read_extent_block services fs' raw' c out w').0 ≡ (minus_one, out)
  unfolding ext4_read_extent_block
  ext4_read_extent_block-write fs fs' raw n c out b w w' h =
      let raw' = (ext4_write_extent_block services fs raw n b w).0.1 in
      let lacks : uses_extents raw' ≡ false = rw (flags_written fs raw n b w) h in ground arith
