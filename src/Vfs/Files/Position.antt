-- ===== src/Vfs/Files/Position.antt =====
-- The position of an open file of kernel/src/fs/vfs.c: how `vfs_lseek`, `vfs_read` and `vfs_write`
-- move it.
use freecore.Prelude.{
  ℕ, ◌+◌, ◌%◌, ◌^◌, not, ◌&&◌, ◌≤◌, ◌<◌, ◌≡◌, ◌≢◌, refl, sym, ap, ◌∙◌, true, false, leb, ltb, none,
  some, length, arith, ◌⊎◌, get_or, get_or-set_self, get_or-set_ne, pos,
}
use freecore.Memory.{Ptr, add_word, word_mod}
use freecore.Vfs.Types.{World, Ops, Vfs, FileDescriptor, no_fd, max_open_files, find_op, node_at}
use freecore.Vfs.Files.{
  used_fd, may_write, word_error, vfs_read, vfs_write, vfs_lseek, transfer, seek_to, new_position,
}

abbrev pub entry_of : {F : Type 0} → Vfs F → ℕ → FileDescriptor
entry_of s fd = get_or s.fd_table fd no_fd

-- A descriptor that is open.
pub record IsOpen {F : Type 0} (s : Vfs F) (fd : ℕ) : Type 0 where
  pub size : length s.fd_table ≡ max_open_files
  pub inside : fd < max_open_files
  pub used : (entry_of s fd).used ≡ true

-- Where a seek starts from, by `whence`.
pub data From (position end : ℕ) : ℕ → ℕ → Type 0 where
  at_start : From position end 0 0
  at_position : From position end 1 position
  at_end : From position end 2 end

new_position-From :
    (position end whence base offset : ℕ)
    → offset < 2 ^ 64
    → From position end whence base
    → (p : ℕ) × (new_position whence offset position end ≡ some p) × (p ≡ (base + offset) % 2 ^ 64)
new_position-From position end whence base offset fits at_start = (offset, refl, omega arith)
new_position-From position end whence base offset fits at_position =
    (add_word position offset, refl, omega arith)
new_position-From position end whence base offset fits at_end =
    (add_word end offset, refl, omega arith)

new_position-none :
    (position end whence offset : ℕ) → 2 < whence → new_position whence offset position end ≡ none
new_position-none position end whence offset high = ground arith

module _ {F : Type 0} where
  pub used_fd-IsOpen :
      (s : Vfs F) (fd : ℕ) → IsOpen s fd → used_fd s (pos fd) ≡ some (fd, entry_of s fd)
  unfolding used_fd
  used_fd-IsOpen s fd v =
      let low : leb max_open_files fd ≡ false = ground (arith, v.inside) in simp (low, v.used)

  -- A seek that fails, and one that moves the descriptor, and no other, to the place that it returns.
  abbrev pub Refused : Vfs F → ℕ × Vfs F → Type 0
  Refused s (p, s') = (p ≡ word_error) × (s' ≡ s)

  pub record IsMovedTo (s : Vfs F) (fd place : ℕ) (r : ℕ × Vfs F) : Type 0 where
    pub result : r.0 ≡ place
    pub entry : entry_of r.1 fd ≡ record (entry_of s fd) { position = place }
    pub others : (j : ℕ) → j ≢ fd → entry_of r.1 j ≡ entry_of s j
    pub world : r.1.world ≡ s.world

  -- What `vfs_lseek` does to an open descriptor, from the start, the position or the end of the file: it
  -- moves it by the offset, as words wrap, to a place within the file, or to any where the descriptor is
  -- open for writing; and it refuses a place behind the end of the file otherwise, and a `whence` above 2.
  abbrev pub SeekAnswer : Vfs F → (fd offset whence : ℕ) → ℕ × Vfs F → Type 0
  SeekAnswer s fd offset whence r =
      let d = entry_of s fd in
      let end = (node_at s d.node).size in
      (2 < whence → Refused s r)
      × ((base : ℕ)
          → From d.position end whence base
          → (((base + offset) % 2 ^ 64 ≤ end) ⊎ (may_write d.flags ≡ true)
              → IsMovedTo s fd ((base + offset) % 2 ^ 64) r)
            × (end < (base + offset) % 2 ^ 64 → may_write d.flags ≡ false → Refused s r))

  seek_to-IsMovedTo :
      (s : Vfs F) (fd q p : ℕ)
      → IsOpen s fd
      → p ≡ q
      → (q ≤ (node_at s (entry_of s fd).node).size) ⊎ (may_write (entry_of s fd).flags ≡ true)
      → IsMovedTo s fd q (seek_to (some p) fd (entry_of s fd) s)
  seek_to-IsMovedTo s fd q p v e allowed =
      let d = record (entry_of s fd) { position = q } in
      let taken : (ltb (node_at s (entry_of s fd).node).size q
            && not (may_write (entry_of s fd).flags))
          ≡ false =
        ground arith in
      rw (e, taken)
        (record {
          result = refl;
          entry = get_or-set_self s.fd_table fd d no_fd (omega (arith, v.size, v.inside));
          others = λ j ne. get_or-set_ne s.fd_table fd j d no_fd (λ e. ne (sym e));
          world = refl;
        })

  seek_to-Refused :
      (s : Vfs F) (fd q p : ℕ)
      → p ≡ q
      → (node_at s (entry_of s fd).node).size < q
      → may_write (entry_of s fd).flags ≡ false
      → Refused s (seek_to (some p) fd (entry_of s fd) s)
  seek_to-Refused s fd q p e behind reader =
      let beyond : ltb (node_at s (entry_of s fd).node).size q ≡ true = ground arith in
      rw (e, beyond, reader) (refl, refl)

  -- `vfs_lseek` on an open descriptor, for every whence and every offset, a word of 64 bits: from the
  -- start, the position or the end of the file it moves the descriptor by the offset, modulo 2^64, to the
  -- place that it returns, and changes nothing else, if the place is within the file or the descriptor is
  -- open for writing; otherwise, and for another whence, it returns (uint64_t)-1 and changes nothing.
  pub vfs_lseek-SeekAnswer :
      (s : Vfs F) (fd offset whence : ℕ)
      → IsOpen s fd
      → offset < 2 ^ 64
      → SeekAnswer s fd offset whence (vfs_lseek (pos fd) offset whence s)
  unfolding vfs_lseek
  vfs_lseek-SeekAnswer s fd offset whence v fits =
      let d = entry_of s fd in
      let end = (node_at s d.node).size in
      (
        λ high.
            rw (used_fd-IsOpen s fd v, new_position-none d.position end whence offset high)
              (refl, refl),
        λ base f.
            let (p, e, same) = new_position-From d.position end whence base offset fits f in
            (
              λ allowed.
                  rw (used_fd-IsOpen s fd v, e)
                    (seek_to-IsMovedTo s fd ((base + offset) % 2 ^ 64) p v same allowed),
              λ behind reader.
                  rw (used_fd-IsOpen s fd v, e)
                    (seek_to-Refused s fd ((base + offset) % 2 ^ 64) p same behind reader),
            ),
      )

module _ {F : Type 0} (ops_at : Ptr → Ops F) (s : Vfs F) (fd : ℕ) (buffer : Ptr) (size : ℕ)
    (f : Ptr → ℕ → ℕ → Ptr → World F → ℕ × World F) (v : IsOpen s fd) where
  -- What a driver's function that moves data answers at the position of the descriptor.
  abbrev pub moved_bytes : ℕ × World F
  moved_bytes = f (entry_of s fd).node (entry_of s fd).position size buffer s.world

  -- What a read or a write leaves: the answer of the driver, its world, and the descriptor advanced by
  -- the answer; no other descriptor differs.
  pub record IsTransferred (r : ℕ × Vfs F) : Type 0 where
    pub bytes : r.0 ≡ moved_bytes.0
    pub world : r.1.world ≡ moved_bytes.1
    pub entry :
        entry_of r.1 fd
        ≡ record (entry_of s fd) { position = add_word (entry_of s fd).position moved_bytes.0 }
    pub others : (j : ℕ) → j ≢ fd → entry_of r.1 j ≡ entry_of s j

  transfer-IsTransferred : IsTransferred (transfer ops_at (some f) fd (entry_of s fd) size buffer s)
  transfer-IsTransferred =
      let d = record (entry_of s fd) {
        position = add_word (entry_of s fd).position moved_bytes.0;
      } in
      record {
        bytes = refl;
        world = refl;
        entry = get_or-set_self s.fd_table fd d no_fd (omega (arith, v.size, v.inside));
        others = λ j ne. get_or-set_ne s.fd_table fd j d no_fd (λ e. ne (sym e));
      }

  -- `vfs_read` of an open descriptor whose node has a read operation calls it at the position of the
  -- descriptor, returns its answer, and moves the position on by that answer, whatever it is.
  pub vfs_read-IsTransferred :
      find_op ops_at (λ o. o.read_op) (node_at s (entry_of s fd).node) ≡ some f
      → IsTransferred (vfs_read ops_at (pos fd) buffer size s)
  unfolding vfs_read
  vfs_read-IsTransferred e = rw (used_fd-IsOpen s fd v, e) transfer-IsTransferred

  -- `vfs_write` of an open descriptor whose node has a write operation calls it at the position of the
  -- descriptor, returns its answer, and moves the position on by that answer, whatever it is.
  vfs_write-IsTransferred :
      find_op ops_at (λ o. o.write_op) (node_at s (entry_of s fd).node) ≡ some f
      → IsTransferred (vfs_write ops_at (pos fd) buffer size s)
  unfolding vfs_write
  vfs_write-IsTransferred e = rw (used_fd-IsOpen s fd v, e) transfer-IsTransferred

  -- An error of the driver, the answer (size_t)-1, takes one from the position of the descriptor where
  -- that is not 0.
  vfs_read_error :
      find_op ops_at (λ o. o.read_op) (node_at s (entry_of s fd).node) ≡ some f
      → moved_bytes.0 ≡ word_error
      → 0 < (entry_of s fd).position
      → (entry_of s fd).position < word_mod
      → ((vfs_read ops_at (pos fd) buffer size s).0 ≡ word_error)
        × ((entry_of (vfs_read ops_at (pos fd) buffer size s).1 fd).position + 1
            ≡ (entry_of s fd).position)
  vfs_read_error e failed low high =
      let t = vfs_read-IsTransferred e in
      (t.bytes ∙ failed, omega (arith, ap (λ (d : FileDescriptor). d.position) t.entry, failed))
