-- ===== src/Ext4/Operations/Read.antt =====
-- A read through kernel/src/fs/vfs.c of a file that kernel/src/fs/ext4/ext4.c can read.
use freecore.Prelude.{
  ℕ, suc, List, ◌+◌, ◌-◌, ◌^◌, ◌<◌, ◌≡◌, ◌≢◌, refl, ap, ◌∙◌, arith, false, ◌&&◌, ◌==◌, ltb, leb,
  if◌then◌else◌, some, pos, Bool-cases, inl, inr,
}
use freecore.Memory.{Ptr, null, word_mod, add_word}
use freecore.Vfs.Types.{World, Ops, Vfs, FileDescriptor, node_at, find_op}
use freecore.Vfs.Files.{vfs_read}
use freecore.Vfs.Files.Position.{IsOpen, entry_of, vfs_read-IsTransferred}
use freecore.Ext4.Layout.{Buffer}
use freecore.Ext4.Device.{Services, Fs, u32_mod}
use freecore.Ext4.Extents.{file_size}
use freecore.Ext4.Extents.File.{IsReadable}
use freecore.Ext4.Files.Bytes.{file_byte}
use freecore.Ext4.Files.Read.{bytes_left, ext4_read_file_data-file_byte}
use freecore.Ext4.Nodes.{Driven, InodeInfo}
use freecore.Ext4.Operations.{ext4_read, ext4_ops_table, to_size}

-- The structures that a node refers to.
abbrev pub info_of : {W : Type 0} → World (Driven W) → Ptr → InodeInfo
info_of w node = w.fs.infos (w.nodes node).private_data

abbrev pub fs_of : {W : Type 0} → World (Driven W) → Ptr → Fs
fs_of w node = w.fs.mounted (info_of w node).fs

module _ {W : Type 0} (services : Services W) (Ready : ℕ → List Ptr → W → Type 0)
    (w : World (Driven W)) (node : Ptr) where
  -- A node of a file of less than 2^31 bytes whose blocks can be read, with two buffers to be had.
  pub record IsFile (block : ℕ → Buffer) : Type 0 where
    pub node_there : node ≢ null
    pub info_there : (w.nodes node).private_data ≢ null
    pub some_size : 0 < (fs_of w node).block_size
    pub small : (fs_of w node).block_size < u32_mod
    pub int : file_size (info_of w node).raw_inode < 2 ^ 31
    pub blocks : IsReadable services Ready (fs_of w node) (info_of w node).raw_inode block
    pub spare : ℕ
    pub held : List Ptr
    pub ready : Ready (suc (suc spare)) held w.fs.rest

  -- How many bytes a read gives, and what it leaves in memory.
  abbrev pub Reads : (ℕ → Buffer) → ℕ → ℕ → Ptr → ℕ × World (Driven W) → Type 0
  Reads block offset size buffer (count, w') =
      let n = bytes_left (info_of w node).raw_inode offset size in
      (count ≡ n)
      × ((a : Ptr)
          → w'.fs.memory a ≡ (
              if leb buffer a && ltb a (buffer + n)
              then file_byte (fs_of w node) block (offset + (a - buffer))
              else w.fs.memory a))

  ext4_read-Reads :
      (block : ℕ → Buffer) (offset size : ℕ) (buffer : Ptr)
      → IsFile block
      → buffer ≢ null
      → offset < file_size (info_of w node).raw_inode
      → 0 < size
      → offset + size < word_mod
      → Reads block offset size buffer (ext4_read services node offset size buffer w)
  unfolding ext4_read
  ext4_read-Reads block offset size buffer f b inside more fits =
      let there : (node == null) ≡ false = ground (arith, f.node_there) in
      let there' : ((w.nodes node).private_data == null) ≡ false = ground (arith, f.info_there) in
      let buffer_there : (buffer == null) ≡ false = ground arith in
      let (result, bytes) =
        ext4_read_file_data-file_byte services Ready (fs_of w node) (info_of w node).raw_inode block
          f.blocks offset size (λ i. w.fs.memory (buffer + i)) w.fs.rest f.some_size f.small f.int
          inside more fits f.ready in
      let n = bytes_left (info_of w node).raw_inode offset size in
      rw (there, buffer_there, there')
        (
          ap to_size result,
          λ a. elim (Bool-cases (leb buffer a)) [
            | inl e ↦
                let back : buffer + (a - buffer) ≡ a = ground arith in
                let index : ltb (a - buffer) n ≡ ltb a (buffer + n) = ground arith in
                rw e (rw (back, index) at (bytes (a - buffer)))
            | inr e ↦ rw e refl
          ],
        )

-- On a virtual filesystem whose table of operations at an address other than NULL is that of the
-- ext4 driver, vfs_read of an open descriptor for a node with that table, of a file of less than
-- 2^31 bytes whose blocks can be read, at a place within the file, asked for some bytes, up to a
-- place below 2^64, into a buffer that is not NULL, gives as many of the file's bytes from that
-- place on as are asked for or as there are, puts them into the buffer, changes no other byte of
-- memory, and moves the descriptor on by their number.
pub vfs_read-file_byte :
    {W : Type 0} (services : Services W) (Ready : ℕ → List Ptr → W → Type 0) (ext4_ops : Ptr)
    (stack : Buffer) (ops_at : Ptr → Ops (Driven W)) (s : Vfs (Driven W)) (fd : ℕ)
    (block : ℕ → Buffer) (buffer : Ptr) (size : ℕ)
    → let node = (entry_of s fd).node in
      let offset = (entry_of s fd).position in
      let info = info_of s.world node in
      let fs = fs_of s.world node in
      let n = bytes_left info.raw_inode offset size in
      let (count, s') = vfs_read ops_at (pos fd) buffer size s in
      ops_at ext4_ops ≡ ext4_ops_table services ext4_ops stack
      → ext4_ops ≢ null
      → (node_at s node).ops ≡ ext4_ops
      → IsOpen s fd
      → IsFile services Ready s.world node block
      → buffer ≢ null
      → offset < file_size info.raw_inode
      → 0 < size
      → offset + size < word_mod
      → (count ≡ n)
        × ((a : Ptr)
            → s'.world.fs.memory a ≡ (
                if leb buffer a && ltb a (buffer + n)
                then file_byte fs block (offset + (a - buffer))
                else s.world.fs.memory a))
        × ((entry_of s' fd).position ≡ offset + n)
unfolding ext4_ops_table
vfs_read-file_byte services Ready ext4_ops stack ops_at s fd block buffer size table there same v f
      b inside more fits =
    let d = entry_of s fd in
    let read = ext4_read services in
    let found : find_op ops_at (λ o. o.read_op) (node_at s d.node) ≡ some read =
      rw (same, table) (ground arith) in
    let t = vfs_read-IsTransferred ops_at s fd buffer size read v found in
    let (count, bytes) =
      ext4_read-Reads services Ready s.world d.node block d.position size buffer f b inside more
        fits in
    let n = bytes_left (info_of s.world d.node).raw_inode d.position size in
    let no_wrap : add_word d.position n ≡ d.position + n = ground (arith, f.int) in
    (
      t.bytes ∙ count,
      λ a. ap (λ (w : World (Driven _)). w.fs.memory a) t.world ∙ bytes a,
      ap (λ (e : FileDescriptor). e.position) t.entry ∙ ap (add_word d.position) count ∙ no_wrap,
    )
