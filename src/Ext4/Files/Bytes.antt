-- ===== src/Ext4/Files/Bytes.antt =====
-- The bytes that a round of `ext4_read_file_data` in kernel/src/fs/ext4/ext4.c copies.
use native.Mathlib.Nat.{add-mul-div_right, add-mul-mod_self_right, mod-eq_of_lt, div-eq_of_lt}
use freecore.Prelude.{
  ℕ, ◌+◌, ◌-◌, ◌*◌, ◌/◌, ◌%◌, ◌^◌, ◌≤◌, ◌<◌, ◌≡◌, ap, ap₂, ◌∙◌, arith, ◌&&◌, ltb, leb,
  if◌then◌else◌, Bool-cases, inl, inr,
}
use freecore.Ext4.Layout.{Buffer, copy_bytes}
use freecore.Ext4.Device.{Fs, u32_mod}
use freecore.Ext4.Extents.File.{filled}
use freecore.Ext4.Files.{offset_in, bytes_to_copy}

-- The byte at the place `k` of a file with these blocks.
abbrev pub file_byte : Fs → (ℕ → Buffer) → ℕ → ℕ
file_byte fs block k = block (k / fs.block_size) (k % fs.block_size)

-- The place `t` of the block `c`.
file_byte_at :
    (fs : Fs) (block : ℕ → Buffer) (c t : ℕ)
    → t < fs.block_size
    → file_byte fs block (c * fs.block_size + t) ≡ block c t
file_byte_at fs block c t h =
    let place : c * fs.block_size + t ≡ t + c * fs.block_size = omega arith in
    let quotient : (t + c * fs.block_size) / fs.block_size ≡ c =
      add-mul-div_right t c (omega arith) ∙ ap (λ x. x + c) (div-eq_of_lt h) ∙ omega arith in
    let rest : (t + c * fs.block_size) % fs.block_size ≡ t =
      add-mul-mod_self_right t c fs.block_size ∙ mod-eq_of_lt h in
    rw place (ap₂ block quotient rest)

-- A round copies some bytes, no more than the block and the request have left, and all of those that the
-- block has left unless it is the last.
pub bytes_to_copy_lem :
    (fs : Fs) (offset size i done : ℕ)
    → done < size
    → size < 2 ^ 31
    → fs.block_size < u32_mod
    → offset_in fs offset i < fs.block_size
    → let n = bytes_to_copy fs offset size i done in
      (0 < n)
      × (offset_in fs offset i + n ≤ fs.block_size)
      × (done + n ≤ size)
      × (done + n < size → offset_in fs offset i + n ≡ fs.block_size)
bytes_to_copy_lem fs offset size i done h s b o = ground arith

-- The bytes of a file in a buffer from `done` to `size`, where it held `dest`.
abbrev pub spliced : Fs → (ℕ → Buffer) → ℕ → ℕ → ℕ → Buffer → Buffer
spliced fs block offset size done dest j =
    if leb done j && ltb j size then file_byte fs block (offset + j) else dest j

pub spliced_all :
    (fs : Fs) (block : ℕ → Buffer) (offset size done : ℕ) (dest : Buffer) (j : ℕ)
    → done ≡ size
    → spliced fs block offset size done dest j ≡ dest j
spliced_all fs block offset size done dest j e = ground arith

pub spliced_whole :
    (fs : Fs) (block : ℕ → Buffer) (offset size : ℕ) (dest : Buffer) (j : ℕ)
    → spliced fs block offset size 0 dest j
      ≡ (if ltb j size then file_byte fs block (offset + j) else dest j)
spliced_whole fs block offset size dest j = ground arith

-- One round's copy, and the bytes behind it.
pub splice_step :
    (fs : Fs) (block : ℕ → Buffer) (offset size done n c o : ℕ) (dest b : Buffer) (j : ℕ)
    → o + n ≤ fs.block_size
    → done + n ≤ size
    → offset + done ≡ c * fs.block_size + o
    → spliced fs block offset size
        (done + n)
        (copy_bytes dest done (filled b fs.block_size (block c)) o n)
        j
      ≡ spliced fs block offset size done dest j
unfolding copy_bytes filled
splice_step fs block offset size done n c o dest b j room within place =
    elim (Bool-cases (leb done j && ltb j (done + n))) [
      | inl here ↦
          let same : offset + j ≡ c * fs.block_size + (o + (j - done)) = ground arith in
          let byte = file_byte_at fs block c (o + (j - done)) (ground arith) in
          let value : file_byte fs block (offset + j) ≡ block c (o + (j - done)) = rw same byte in
          ground arith
      | inr there ↦ ground arith
    ]
