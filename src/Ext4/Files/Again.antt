-- ===== src/Ext4/Files/Again.antt =====
-- The writing of kernel/src/fs/ext4/ext4.c to a file that has an extent.
use freecore.Prelude.{
  ℕ, zero, suc, ◌+◌, ◌*◌, ◌/◌, ◌≤◌, ◌<◌, ◌≡◌, refl, ap, arith, true, ltb, is_negative, Bool-cases,
  inl, inr,
}
use native.Mathlib.Nat.{div-add-mod'}
use freecore.Memory.{word_mod}
use freecore.Ext4.Layout.{Buffer, copy_bytes, eh_magic}
use freecore.Ext4.Device.{Services, Fs}
use freecore.Ext4.Extents.{ext4_extent_header_magic, root_place, ext4_read_file_block}
use freecore.Ext4.Alloc.Again.{ext4_write_extent_block-fails}
use freecore.Ext4.Files.{offset_in, bytes_to_copy, blocks_over, write_loop, ext4_write_file_data}
use freecore.Ext4.Files.Read.{blocks_over-reach}

module _ {W : Type 0} (services : Services W) where
  write_loop-fails :
      (src : Buffer) (offset size rounds i done : ℕ) (fs : Fs) (raw b : Buffer) (w : W)
      → 0 < rounds
      → eh_magic raw root_place ≡ ext4_extent_header_magic
      → let (result, raw') = (write_loop services src offset size rounds i done fs raw b w).0 in
        (is_negative result ≡ true) × (raw' ≡ raw)
  unfolding write_loop
  write_loop-fails src offset size zero i done fs raw b w some_rounds h = absurd (omega arith)
  write_loop-fails src offset size (suc rounds) i done fs raw b w some_rounds h =
      let current = offset / fs.block_size + i in
      let got = ext4_read_file_block services fs raw current b w in
      let n = bytes_to_copy fs offset size i done in
      let block = copy_bytes got.0.1 (offset_in fs offset i) src done n in
      let (fails, kept) = ext4_write_extent_block-fails services fs raw current block got.1 h in
      elim (Bool-cases (is_negative got.0.0)) [
        | inl e ↦ rw e (e, refl)
        | inr e ↦ simp (e, fails) (refl, kept)
      ]

  -- With blocks of some size, no write of some bytes, up to a place below 2^64, to a file whose
  -- inode has an extent header succeeds, whatever the device does: ext4_write_file_data answers a
  -- negative number, and leaves the inode as it was.
  pub ext4_write_file_data-fails :
      (fs : Fs) (raw : Buffer) (offset size : ℕ) (src : Buffer) (w : W)
      → eh_magic raw root_place ≡ ext4_extent_header_magic
      → 0 < fs.block_size
      → 0 < size
      → offset + size < word_mod
      → let (result, raw') = (ext4_write_file_data services fs raw offset size src w).0 in
        (is_negative result ≡ true) × (raw' ≡ raw)
  unfolding ext4_write_file_data
  ext4_write_file_data-fails fs raw offset size src w h some_size more fits =
      let reach = blocks_over-reach fs offset size some_size more fits in
      let parts : offset / fs.block_size * fs.block_size ≤ offset =
        omega (arith, div-add-mod' offset fs.block_size) in
      let rounds = blocks_over fs offset size in
      elim (Bool-cases (ltb 0 rounds)) [
        | inl some_rounds ↦
            let loop = λ (b : Buffer) (w' : W).
              write_loop-fails src offset size rounds 0 0 fs raw b w' (ground arith) h in
            grind (arith, loop)
        | inr none_left ↦
            let end : (offset / fs.block_size + 0 + rounds) * fs.block_size
                ≡ offset / fs.block_size * fs.block_size =
              ap (λ x. x * fs.block_size) (ground arith) in
            absurd (omega arith)
      ]
