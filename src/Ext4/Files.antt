-- ===== src/Ext4/Files.antt =====
-- kernel/src/fs/ext4/ext4.c, the reading and the writing of the bytes of a file. The result is the
-- `int` that the 64-bit count becomes.
pub mod Count
pub mod Again
pub mod Bytes
pub mod Read
use freecore.Prelude.{
  ℕ, zero, suc, ◌+◌, ◌-◌, ◌/◌, ◌%◌, ◌^◌, ◌==◌, ltb, leb, if◌then◌else◌, ℤ, pos, minus_one,
  is_negative, sub_ℕ,
}
use freecore.Memory.{Ptr, null, word_mod}
use freecore.Ext4.Layout.{Buffer, copy_bytes, s_feature_ro_compat}
use freecore.Ext4.Device.{Services, Fs, u32_mod}
use freecore.Ext4.Extents.{file_size, ext4_read_file_block}
use freecore.Ext4.Alloc.{ext4_write_extent_block}

-- A `uint64_t` returned as an `int`.
abbrev pub to_int : ℕ → ℤ
to_int n = if ltb (n % u32_mod) (2 ^ 31) then pos (n % u32_mod) else sub_ℕ (n % u32_mod) u32_mod

-- `end_block - start_block + 1`, with `end_block` as `(offset + size - 1) / fs->block_size`
abbrev pub blocks_over : Fs → ℕ → ℕ → ℕ
blocks_over fs offset size =
    let end_pos = (offset + size) % word_mod in
    let end_block = (end_pos + (word_mod - 1)) % word_mod / fs.block_size in
    (end_block + (word_mod - offset / fs.block_size) + 1) % word_mod

-- `(i == 0) ? start_offset : 0`
abbrev pub offset_in : Fs → ℕ → ℕ → ℕ
offset_in fs offset i = if i == 0 then offset % fs.block_size else 0

-- How many bytes round `i` copies, after `done` of `size`.
abbrev pub bytes_to_copy : Fs → ℕ → ℕ → ℕ → ℕ → ℕ
bytes_to_copy fs offset size i done =
    let room = fs.block_size - offset_in fs offset i in
    if ltb size ((done + room) % word_mod) then (size - done) % u32_mod else room

-- `size`, or what the file has from the offset on
abbrev pub size_within : Buffer → ℕ → ℕ → ℕ
size_within raw offset size =
    if ltb (file_size raw) ((offset + size) % word_mod) then file_size raw - offset else size

module _ {W : Type 0} (services : Services W) where
  -- What a loop gives: the result, the caller's bytes, and the local buffer.
  abbrev Looped : Type 0
  Looped = (ℤ × Buffer) × (Buffer × W)

  -- The loop of `ext4_read_file_data`, with the rounds left, the index and the bytes so far.
  pub read_loop : Fs → Buffer → ℕ → ℕ → ℕ → ℕ → ℕ → Buffer → Buffer → W → (ℤ × Buffer) × W
  unfolding copy_bytes
  read_loop fs raw offset size zero i done dest block_buffer w = ((to_int done, dest), w)
  read_loop fs raw offset size (suc rounds) i done dest block_buffer w =
      let got = ext4_read_file_block services fs raw (offset / fs.block_size + i) block_buffer w in
      let n = bytes_to_copy fs offset size i done in
      let dest' = copy_bytes dest done got.0.1 (offset_in fs offset i) n in
      let rest = read_loop fs raw offset size rounds (i + 1) (done + n) dest' got.0.1 got.1 in
      if is_negative got.0.0
      then ((got.0.0, dest), got.1)
      else if leb size (done + n)
      then ((to_int (done + n), dest'), got.1)
      else rest

  abbrev released : {A : Type 0} → Ptr → A × W → A × W
  released p (a, w) = (a, services.kfree p w)

  abbrev read_buffered : Fs → Buffer → ℕ → ℕ → Buffer → (Ptr × Buffer) × W → (ℤ × Buffer) × W
  read_buffered fs raw offset size dest ((p, block_buffer), w) =
      if p == null
      then ((minus_one, dest), w)
      else released p
          (read_loop fs raw offset size (blocks_over fs offset size) 0 0 dest block_buffer w)

  pub ext4_read_file_data : Fs → Buffer → ℕ → ℕ → Buffer → W → (ℤ × Buffer) × W
  ext4_read_file_data fs raw offset size dest w =
      if leb (file_size raw) offset
      then ((pos 0, dest), w)
      else read_buffered fs raw offset (size_within raw offset size) dest
          (services.kmalloc fs.block_size w)

  -- The loop of `ext4_write_file_data`, with the rounds left, the index and the bytes so far.
  write_loop : Buffer → ℕ → ℕ → ℕ → ℕ → ℕ → Fs → Buffer → Buffer → W → (ℤ × Buffer) × (Fs × W)
  unfolding copy_bytes
  write_loop src offset size zero i done fs raw block_buffer w = ((to_int done, raw), (fs, w))
  write_loop src offset size (suc rounds) i done fs raw block_buffer w =
      let current = offset / fs.block_size + i in
      let got = ext4_read_file_block services fs raw current block_buffer w in
      let n = bytes_to_copy fs offset size i done in
      let block = copy_bytes got.0.1 (offset_in fs offset i) src done n in
      let put = ext4_write_extent_block services fs raw current block got.1 in
      let rest =
        write_loop src offset size rounds (i + 1) (done + n) put.1.0 put.0.1 block put.1.1 in
      if is_negative got.0.0
      then ((got.0.0, raw), (fs, got.1))
      else if is_negative put.0.0
      then put
      else if leb size (done + n)
      then ((to_int (done + n), put.0.1), put.1)
      else rest

  abbrev written_back : Ptr → (ℤ × Buffer) × (Fs × W) → (ℤ × Buffer) × (Fs × W)
  written_back p (r, (fs, w)) = (r, (fs, services.kfree p w))

  abbrev write_buffered :
      Fs → Buffer → ℕ → ℕ → Buffer → (Ptr × Buffer) × W → (ℤ × Buffer) × (Fs × W)
  write_buffered fs raw offset size src ((p, block_buffer), w) =
      if p == null
      then ((minus_one, raw), (fs, w))
      else written_back p
          (write_loop src offset size (blocks_over fs offset size) 0 0 fs raw block_buffer w)

  -- The file's inode and the filesystem come back with the result. EXT4_FEATURE_RO_COMPAT_READONLY
  -- is bit 12.
  pub ext4_write_file_data : Fs → Buffer → ℕ → ℕ → Buffer → W → (ℤ × Buffer) × (Fs × W)
  ext4_write_file_data fs raw offset size src w =
      if s_feature_ro_compat fs.sb / 2 ^ 12 % 2 == 1
      then ((minus_one, raw), (fs, w))
      else write_buffered fs raw offset size src (services.kmalloc fs.block_size w)
