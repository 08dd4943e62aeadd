-- ===== src/Ext4/Dirs/Directory.antt =====
-- What kernel/src/fs/ext4/ext4.c finds in a directory: the first entry with a name, and the entry of an
-- index, among the entries in use of the directory's blocks, one block after another.
use freecore.Prelude.{
  ℕ, zero, suc, ◌+◌, ◌<◌, if◌then◌else◌, Option, none, some, List, [], ◌∷◌, ◌++◌, map, ℤ, pos,
  minus_one,
}
use freecore.Memory.{Ptr}
use freecore.Vfs.Types.{Str}
use freecore.Ext4.Layout.{Buffer, entry_inode}
use freecore.Ext4.Device.{Services, Fs}
use freecore.Ext4.Extents.{blocks_of, file_size}
use freecore.Ext4.Extents.File.{IsReadable, filled}
use freecore.Ext4.Dirs.{Dirent, entry_named, dirent_of}
use freecore.Ext4.Dirs.Entries.{Entries}

-- The entries of the blocks from `i` on, each as a place in its block.
abbrev pub directory : (ℕ → Buffer) → (ℕ → List ℕ) → ℕ → ℕ → List (Buffer × ℕ)
directory content places zero i = []
directory content places (suc rounds) i =
    map (λ o. (content i, o)) (places i) ++ directory content places rounds (i + 1)

-- The inode of the first entry with a name.
abbrev pub lookup_name : Str → List (Buffer × ℕ) → Option ℕ
lookup_name name [] = none
lookup_name name ((b, o) ∷ es) =
    let rest = lookup_name name es in if entry_named b o name then some (entry_inode b o) else rest

abbrev pub find_answer : ℕ → Option ℕ → ℤ × ℕ
find_answer out none = (minus_one, out)
find_answer out (some n) = (pos 0, n)

abbrev pub list_answer : Dirent → Option (Buffer × ℕ) → ℤ × Dirent
list_answer d none = (minus_one, d)
list_answer d (some (b, o)) = (pos 0, dirent_of b o d)

abbrev or_else : {A : Type 0} → Option A → Option A → Option A
or_else none y = y
or_else (some x) y = some x

module _ {W : Type 0} (services : Services W) (Ready : ℕ → List Ptr → W → Type 0) (fs : Fs)
    (raw : Buffer) (block : ℕ → Buffer) (r : IsReadable services Ready fs raw block) (m : Buffer)
    (places : ℕ → List ℕ) where
  -- What stands in the buffer, which held `m` before the first read, after the read of a block.
  abbrev pub content : ℕ → Buffer
  content i = filled m fs.block_size (block i)

module _ {W : Type 0} (services : Services W) (Ready : ℕ → List Ptr → W → Type 0) (fs : Fs)
    (raw : Buffer) (block : ℕ → Buffer) (r : IsReadable services Ready fs raw block)
    (places : ℕ → List ℕ) (w : W) where
  -- The entries of the whole directory; the buffer is the one that `kmalloc` returns.
  abbrev pub entries_of : List (Buffer × ℕ)
  entries_of =
      let m = (services.kmalloc fs.block_size w).0.1 in
      directory (λ i. filled m fs.block_size (block i)) places (blocks_of fs (file_size raw)) 0

  -- `places` has the entries in use of every block of the directory.
  abbrev pub IsDirectory : Type 0
  IsDirectory =
      let m = (services.kmalloc fs.block_size w).0.1 in
      (j : ℕ)
      → j < blocks_of fs (file_size raw)
      → Entries (filled m fs.block_size (block j)) fs.block_size 0 (places j)
