-- ===== src/Ext4/Extents/File.antt =====
-- The files whose blocks kernel/src/fs/ext4/ext4.c can read, for the proofs about files and directories.
use freecore.Prelude.{
  ℕ, suc, List, ◌∷◌, ◌<◌, ◌≡◌, ◌≢◌, refl, ltb, if◌then◌else◌, pos, fun_ext, Bool-cases, inl, inr,
}
use freecore.Memory.{Ptr, null}
use freecore.Ext4.Layout.{Buffer}
use freecore.Ext4.Device.{Services, Fs}
use freecore.Ext4.Extents.{blocks_of, file_size, ext4_read_file_block}

-- A buffer whose first `n` bytes have been read.
unfoldable pub filled : Buffer → ℕ → Buffer → Buffer
filled b n src i = if ltb i n then src i else b i

-- What is read later is what counts.
pub filled-filled : (b : Buffer) (n : ℕ) (x y : Buffer) → filled (filled b n x) n y ≡ filled b n y
unfolding filled
filled-filled b n x y =
    fun_ext λ i. elim (Bool-cases (ltb i n)) [ inl e ↦ rw e refl | inr e ↦ rw e refl ]

-- `Ready n held` says of the device and the heap that they can be used: `n` more buffers of a block can
-- be had from the heap, and `held` are those that are not given back, the last one first. With a buffer
-- to be had, every block of the file can be read, and it is `block`, and the heap is left as ready as it
-- was; with two, `kmalloc` gives a buffer, and one more can be had behind it.
pub record IsReadable {W : Type 0} (services : Services W) (Ready : ℕ → List Ptr → W → Type 0)
    (fs : Fs) (raw : Buffer) (block : ℕ → Buffer) : Type 0 where
  pub reads :
      (i : ℕ)
      → i < blocks_of fs (file_size raw)
      → (b : Buffer) (w : W) {spare : ℕ} {held : List Ptr} → Ready (suc spare) held w
      → (w' : W) × Ready (suc spare) held w'
        × (ext4_read_file_block services fs raw i b w
            ≡ ((pos 0, filled b fs.block_size (block i)), w'))
  pub room :
      (w : W) {spare : ℕ} {held : List Ptr}
      → Ready (suc (suc spare)) held w
      → let (got, w') = services.kmalloc fs.block_size w in
        (got.0 ≢ null) × Ready (suc spare) (got.0 ∷ held) w'
