-- ===== src/Ext4/Dirs.antt =====
-- kernel/src/fs/ext4/ext4.c, the entries of a directory: the search for a name and the listing by index.
pub mod Count
pub mod Entries
pub mod Directory
use freecore.Prelude.{
  ℕ, zero, suc, ◌+◌, ◌-◌, ◌%◌, Bool, false, not, ◌&&◌, ◌||◌, ◌==◌, ltb, if◌then◌else◌, Option, none,
  some, [], ◌∷◌, length, ℤ, pos, minus_one, is_negative, sub_ℕ,
}
use freecore.Memory.{Ptr, null, poke}
use freecore.Vfs.Types.{Str, vfs_file, vfs_directory, vfs_symlink_type, vfs_name_max}
use freecore.Ext4.Layout.{
  Buffer, copy_bytes, dir_entry, size_of, entry_inode, rec_len, name_len, file_type,
}
use freecore.Ext4.Device.{Services, Fs, u32_mod}
use freecore.Ext4.Extents.{file_size, blocks_of, ext4_read_file_block}

abbrev pub vfs_chardevice : ℕ
vfs_chardevice = 0x03

abbrev pub vfs_blockdevice : ℕ
vfs_blockdevice = 0x04

abbrev pub vfs_pipe : ℕ
vfs_pipe = 0x05

abbrev pub vfs_socket : ℕ
vfs_socket = 0x09

-- `struct vfs_dirent`
pub record Dirent : Type 0 where
  pub name : Buffer
  pub inode : ℕ
  pub type : ℕ

-- `entry->name`, as a place in the block
abbrev pub name_place : ℕ → ℕ
name_place o = o + size_of dir_entry

-- `s[0]` and `s + 1`, with the NUL at the end of the string
abbrev first_or_nul : Str → ℕ
first_or_nul [] = 0
first_or_nul (c ∷ s) = c

abbrev tail : Str → Str
tail [] = []
tail (c ∷ s) = s

-- `strncmp` of the bytes at `p` with a string, with the loop's count `n - 1` in front of it
pub compare_name : ℕ → Buffer → ℕ → Str → ℤ
compare_name zero b p s = sub_ℕ (b p) (first_or_nul s)
compare_name (suc rounds) b p s =
    let rest = compare_name rounds b (p + 1) (tail s) in
    if (b p == 0) || (first_or_nul s == 0) || not (b p == first_or_nul s)
    then sub_ℕ (b p) (first_or_nul s)
    else rest

abbrev pub strncmp_bytes : Buffer → ℕ → Str → ℕ → ℤ
strncmp_bytes b p s n = if n == 0 then pos 0 else compare_name (n - 1) b p s

abbrev pub is_equal : ℤ → Bool
is_equal (pos n) = n == 0
is_equal _ = false

-- `entry->name_len == strlen(name) && strncmp(entry->name, name, entry->name_len) == 0`
pub entry_named : Buffer → ℕ → Str → Bool
unfolding compare_name
entry_named b o name =
    (name_len b o == length name) && is_equal (strncmp_bytes b (name_place o) name (name_len b o))

-- `offset += entry->rec_len`
abbrev pub next_entry : Buffer → ℕ → ℕ
next_entry b o = (o + rec_len b o) % u32_mod

-- The search of a block of `n` bytes for a name, on fuel; each round goes at least a byte further.
pub scan_name : Buffer → ℕ → Str → ℕ → ℕ → Option ℕ
unfolding entry_named
scan_name b n name zero o = none
scan_name b n name (suc fuel) o =
    let rest = scan_name b n name fuel (next_entry b o) in
    if ltb o n && not (rec_len b o == 0)
    then (if not (entry_inode b o == 0) && entry_named b o name
        then some (entry_inode b o)
        else rest)
    else none

-- The search of a block for the entry of an index, with the number of those before: the place of the
-- entry, or the number of entries up to the end of the block.
pub data Listed : Type 0 where
  entry_at : ℕ → Listed
  passed : ℕ → Listed

pub scan_index : Buffer → ℕ → ℕ → ℕ → ℕ → ℕ → Listed
scan_index b n index zero o entry_idx = passed entry_idx
scan_index b n index (suc fuel) o entry_idx =
    let next = scan_index b n index fuel (next_entry b o) in
    let after = next ((entry_idx + 1) % u32_mod) in
    let same = next entry_idx in
    if ltb o n && not (rec_len b o == 0)
    then (if entry_inode b o == 0 then same else if entry_idx == index then entry_at o else after)
    else passed entry_idx

-- The type of an entry, by the EXT4_FT_ constant that it holds.
abbrev pub vfs_type : ℕ → ℕ
vfs_type t =
    if t == 1
    then vfs_file
    else if t == 2
    then vfs_directory
    else if t == 7
    then vfs_symlink_type
    else if t == 3
    then vfs_chardevice
    else if t == 4
    then vfs_blockdevice
    else if t == 5
    then vfs_pipe
    else if t == 6
    then vfs_socket
    else vfs_file

-- The entry at a place copied into the caller's structure.
pub dirent_of : Buffer → ℕ → Dirent → Dirent
unfolding copy_bytes poke
dirent_of b o d =
    let n = if ltb vfs_name_max (name_len b o) then vfs_name_max else name_len b o in
    record {
      name = poke (copy_bytes d.name 0 b (name_place o) n) n 0;
      inode = entry_inode b o;
      type = vfs_type (file_type b o);
    }

module _ {W : Type 0} (services : Services W) where
  -- The loop over the blocks of `ext4_find_dir_entry`, with the rounds left and the index.
  pub block_loop : Fs → Buffer → Str → ℕ → ℕ → ℕ → Buffer → W → (ℤ × ℕ) × W
  unfolding scan_name
  block_loop fs raw name out zero block_idx dir_buffer w = ((minus_one, out), w)
  block_loop fs raw name out (suc rounds) block_idx dir_buffer w =
      let got = ext4_read_file_block services fs raw block_idx dir_buffer w in
      let rest = block_loop fs raw name out rounds (block_idx + 1) got.0.1 got.1 in
      if is_negative got.0.0
      then ((got.0.0, out), got.1)
      else elim (scan_name got.0.1 fs.block_size name fs.block_size 0) [
        | some inode_num ↦ ((pos 0, inode_num), got.1)
        | none ↦ rest
      ]

  abbrev pub freed : {A : Type 0} → Ptr → A × W → A × W
  freed p (a, w) = (a, services.kfree p w)

  abbrev find_buffered : Fs → Buffer → Str → ℕ → (Ptr × Buffer) × W → (ℤ × ℕ) × W
  find_buffered fs raw name out ((p, dir_buffer), w) =
      if p == null
      then ((minus_one, out), w)
      else freed p (block_loop fs raw name out (blocks_of fs (file_size raw)) 0 dir_buffer w)

  pub ext4_find_dir_entry : Fs → Buffer → Str → ℕ → W → (ℤ × ℕ) × W
  ext4_find_dir_entry fs raw name out w =
      find_buffered fs raw name out (services.kmalloc fs.block_size w)

  -- The loop over the blocks of `ext4_readdir`, with the rounds left, the index and the entries so far.
  pub list_loop : Fs → Buffer → ℕ → Dirent → ℕ → ℕ → ℕ → Buffer → W → (ℤ × Dirent) × W
  unfolding scan_index dirent_of
  list_loop fs raw index d zero block_idx entry_idx dir_buffer w = ((minus_one, d), w)
  list_loop fs raw index d (suc rounds) block_idx entry_idx dir_buffer w =
      let got = ext4_read_file_block services fs raw block_idx dir_buffer w in
      let rest = λ (k : ℕ). list_loop fs raw index d rounds (block_idx + 1) k got.0.1 got.1 in
      if is_negative got.0.0
      then ((got.0.0, d), got.1)
      else elim (scan_index got.0.1 fs.block_size index fs.block_size 0 entry_idx) [
        | entry_at o ↦ ((pos 0, dirent_of got.0.1 o d), got.1)
        | passed k ↦ rest k
      ]

  abbrev list_buffered : Fs → Buffer → ℕ → Dirent → (Ptr × Buffer) × W → (ℤ × Dirent) × W
  list_buffered fs raw index d ((p, dir_buffer), w) =
      if p == null
      then ((minus_one, d), w)
      else freed p (list_loop fs raw index d (blocks_of fs (file_size raw)) 0 0 dir_buffer w)

  -- `ext4_readdir` behind its tests of the node.
  pub list_entry : Fs → Buffer → ℕ → Dirent → W → (ℤ × Dirent) × W
  list_entry fs raw index d w = list_buffered fs raw index d (services.kmalloc fs.block_size w)
