-- ===== src/Ext4/Files/Read.antt =====
-- The bytes that kernel/src/fs/ext4/ext4.c reads from a file.
use native.Mathlib.Nat.{
  add-mul, div-add-mod', mod-lt, le-div_iff_mul-le, lt-div-mul-add, div-le_self,
}
use freecore.Prelude.{
  ℕ, zero, suc, List, ◌+◌, ◌-◌, ◌*◌, ◌/◌, ◌%◌, ◌^◌, ◌≤◌, ◌<◌, ◌≡◌, refl, ap, sym, subst, ◌∙◌, arith,
  false, ◌==◌, ltb, leb, if◌then◌else◌, Bool-cases, inl, inr, ℤ, pos,
}
use freecore.Memory.{Ptr, null, word_mod}
use freecore.Ext4.Layout.{Buffer, copy_bytes}
use freecore.Ext4.Device.{Services, Fs, u32_mod}
use freecore.Ext4.Extents.{blocks_of, file_size}
use freecore.Ext4.Extents.File.{IsReadable, filled}
use freecore.Ext4.Files.{
  to_int, offset_in, bytes_to_copy, blocks_over, size_within, read_loop, ext4_read_file_data,
}
use freecore.Ext4.Files.Bytes.{
  file_byte, bytes_to_copy_lem, spliced, spliced_all, spliced_whole, splice_step,
}

-- How many of `size` bytes the file has from the offset on.
abbrev pub bytes_left : Buffer → ℕ → ℕ → ℕ
bytes_left raw offset size =
    if ltb (file_size raw) (offset + size) then file_size raw - offset else size

-- The blocks that the code counts reach to the last byte.
pub blocks_over-reach :
    (fs : Fs) (offset size : ℕ)
    → 0 < fs.block_size
    → 0 < size
    → offset + size < word_mod
    → offset + size ≤ (offset / fs.block_size + 0 + blocks_over fs offset size) * fs.block_size
blocks_over-reach fs offset size some_size more fits =
    let last = offset + size - 1 in
    let end_pos : ((offset + size) % word_mod + (word_mod - 1)) % word_mod ≡ last = omega arith in
    let first_below : offset / fs.block_size * fs.block_size + offset % fs.block_size ≡ offset =
      div-add-mod' offset fs.block_size in
    let order : offset / fs.block_size ≤ last / fs.block_size =
      (le-div_iff_mul-le {y = last} some_size).1 (omega arith) in
    let small : last / fs.block_size ≤ last = div-le_self last fs.block_size in
    let count : offset / fs.block_size + 0 + blocks_over fs offset size ≡ last / fs.block_size + 1 =
      rw end_pos (omega arith) in
    let upper : (last / fs.block_size + 1) * fs.block_size
        ≡ last / fs.block_size * fs.block_size + fs.block_size =
      add-mul (last / fs.block_size) 1 fs.block_size ∙ omega arith in
    let beyond : last < last / fs.block_size * fs.block_size + fs.block_size =
      lt-div-mul-add some_size in
    rw count (omega arith)

module _ {W : Type 0} (services : Services W) (Ready : ℕ → List Ptr → W → Type 0) (fs : Fs)
    (raw : Buffer) (block : ℕ → Buffer) (r : IsReadable services Ready fs raw block) where
  read_loop_lem :
      (offset size rounds i done : ℕ) (dest b : Buffer) (w : W) {spare : ℕ} {held : List Ptr}
      → fs.block_size < u32_mod
      → size < 2 ^ 31
      → done < size
      → offset_in fs offset i < fs.block_size
      → offset + done ≡ (offset / fs.block_size + i) * fs.block_size + offset_in fs offset i
      → offset + size ≤ (offset / fs.block_size + i + rounds) * fs.block_size
      → ((c : ℕ) → c * fs.block_size < offset + size → c < blocks_of fs (file_size raw))
      → Ready (suc spare) held w
      → let (result, dest') = (read_loop services fs raw offset size rounds i done dest b w).0 in
        (result ≡ pos size) × ((j : ℕ) → dest' j ≡ spliced fs block offset size done dest j)
  unfolding read_loop
  read_loop_lem offset size zero i done dest b w small int more o place end inside ready =
      let same : (offset / fs.block_size + i + 0) * fs.block_size
          ≡ (offset / fs.block_size + i) * fs.block_size =
        ap (λ x. x * fs.block_size) (omega arith) in
      absurd (omega arith)
  read_loop_lem offset size (suc rounds) i done dest b w small int more o place end inside ready =
      let c = offset / fs.block_size + i in
      let n = bytes_to_copy fs offset size i done in
      let (some_bytes, room, within, full) =
        bytes_to_copy_lem fs offset size i done more int small o in
      let (w', ready', e) = r.reads c (inside c (omega arith)) b w ready in
      let b' = filled b fs.block_size (block c) in
      let dest' = copy_bytes dest done b' (offset_in fs offset i) n in
      let step = λ (j : ℕ).
        splice_step fs block offset size done n c (offset_in fs offset i) dest b j room within
          place in
      let call = read_loop services fs raw offset size (suc rounds) i done dest b w in
      let Copied : ℤ × Buffer → Type 0 = λ (a : ℤ × Buffer).
        (a.0 ≡ pos size) × ((j : ℕ) → a.1 j ≡ spliced fs block offset size done dest j) in
      elim (Bool-cases (leb size (done + n))) [
        | inl last ↦
            let all : done + n ≡ size = ground arith in
            let run : call.0 ≡ (to_int (done + n), dest') = simp (e, last) refl in
            let result : to_int (done + n) ≡ pos size = ground arith in
            let rest = λ (j : ℕ). spliced_all fs block offset size (done + n) dest' j all in
            subst Copied (sym run) (result, λ j. sym (rest j) ∙ step j)
        | inr on ↦
            let next : (c + 1) * fs.block_size ≡ c * fs.block_size + fs.block_size =
              add-mul c 1 fs.block_size ∙ omega arith in
            let to_next : (offset / fs.block_size + (i + 1)) * fs.block_size
                ≡ (c + 1) * fs.block_size =
              ap (λ x. x * fs.block_size) (omega arith) in
            let to_end : (offset / fs.block_size + (i + 1) + rounds) * fs.block_size
                ≡ (offset / fs.block_size + i + suc rounds) * fs.block_size =
              ap (λ x. x * fs.block_size) (omega arith) in
            let start : offset_in fs offset (i + 1) ≡ 0 = ground arith in
            let filled_up : offset_in fs offset i + n ≡ fs.block_size = full (ground arith) in
            let rest =
              read_loop_lem offset size rounds (i + 1) (done + n) dest' b' w' small int
                (ground arith) (omega arith) (omega arith) (omega arith) inside ready' in
            let run : call.0
                ≡ (read_loop services fs raw offset size rounds (i + 1) (done + n) dest' b' w').0 =
              simp (e, on) refl in
            subst Copied (sym run) (rest.0, λ j. rest.1 j ∙ step j)
      ]

  -- Every block that holds a byte of the file is one of its blocks.
  inside_file :
      (c : ℕ)
      → 0 < fs.block_size
      → file_size raw + fs.block_size < word_mod
      → c * fs.block_size < file_size raw
      → c < blocks_of fs (file_size raw)
  inside_file c some_size fits h =
      let padded : (file_size raw + fs.block_size + (word_mod - 1)) % word_mod
          ≡ file_size raw + fs.block_size - 1 =
        omega arith in
      let next : (c + 1) * fs.block_size ≡ c * fs.block_size + fs.block_size =
        add-mul c 1 fs.block_size ∙ omega arith in
      let below : c + 1 ≤ (file_size raw + fs.block_size - 1) / fs.block_size =
        (le-div_iff_mul-le {y = file_size raw + fs.block_size - 1} some_size).1 (omega arith) in
      rw padded (omega (arith, below))

  -- From a file whose blocks can be read, of less than 2^31 bytes, ext4_read_file_data reads as many bytes
  -- as are asked for, or as the file has from the offset on, and gives their number; each goes to its
  -- place, and the bytes of the caller's buffer behind them stay.
  pub ext4_read_file_data-file_byte :
      (offset size : ℕ) (dest : Buffer) (w : W) {spare : ℕ} {held : List Ptr}
      → 0 < fs.block_size
      → fs.block_size < u32_mod
      → file_size raw < 2 ^ 31
      → offset < file_size raw
      → 0 < size
      → offset + size < word_mod
      → Ready (suc (suc spare)) held w
      → let (result, dest') = (ext4_read_file_data services fs raw offset size dest w).0 in
        (result ≡ pos (bytes_left raw offset size))
        × ((j : ℕ)
            → dest' j ≡ (
                if ltb j (bytes_left raw offset size)
                then file_byte fs block (offset + j)
                else dest j))
  unfolding ext4_read_file_data
  ext4_read_file_data-file_byte offset size dest w some_size small int inside more fits ready =
      let (got, w') = services.kmalloc fs.block_size w in
      let (p, ready') = r.room w ready in
      let n = size_within raw offset size in
      let same : n ≡ bytes_left raw offset size = ground arith in
      let up_to : offset + n ≤ file_size raw = ground arith in
      let some_bytes : 0 < n = ground arith in
      let parts : offset / fs.block_size * fs.block_size + offset % fs.block_size ≡ offset =
        div-add-mod' offset fs.block_size in
      let start : (offset / fs.block_size + 0) * fs.block_size
          ≡ offset / fs.block_size * fs.block_size =
        ap (λ x. x * fs.block_size) (omega arith) in
      let (result, bytes) =
        read_loop_lem offset n (blocks_over fs offset n) 0 0 dest got.1 w' small (omega arith)
          some_bytes (mod-lt offset some_size) (omega arith)
          (blocks_over-reach fs offset n some_size some_bytes (omega arith))
          (λ c h. inside_file c some_size (omega arith) (omega arith)) ready' in
      let not_null : (got.0 == null) ≡ false = ground arith in
      let before : leb (file_size raw) offset ≡ false = ground arith in
      rw (before, not_null, ← same) (result, λ j. bytes j ∙ spliced_whole fs block offset n dest j)
