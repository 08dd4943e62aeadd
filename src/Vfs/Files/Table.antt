-- ===== src/Vfs/Files/Table.antt =====
-- The table of open files of kernel/src/fs/vfs.c: which descriptor `vfs_open` hands out, and what
-- `vfs_close` gives back.
use freecore.Prelude.{
  ℕ, ◌<◌, ◌≡◌, ◌≢◌, refl, ap, subst, ◌∙◌, sym, true, false, ◌==◌, not, leb, Option, none, some,
  List, length, arith, Bool-cases, inl, inr, get_or, set, length-set, get_or-set_self,
  get_or-set_ne, ℤ, pos, negsuc, minus_one, Option-cases,
}
use freecore.Memory.{Ptr, null}
use freecore.Vfs.Types.{
  Str, World, Ops, Vfs, FileDescriptor, no_fd, max_open_files, find_op, node_at,
}
use freecore.Vfs.Lookup.{vfs_lookup}
use freecore.Vfs.Lookup.Frame.{vfs_lookup-SameTables}
use freecore.Vfs.Search.{IsFirst, find_index-IsFirst}
use freecore.Vfs.Files.{
  open_fd, free_fd, install, opened, open_node, open_found, close_quietly, closed, close_node,
  vfs_open, vfs_close, used_fd, set_fd,
}

-- What a successful `vfs_open` has done to the table: the descriptor is the lowest that was free,
-- it stands for the node at position 0, and no other descriptor has changed.
pub record IsOpened (old new : List FileDescriptor) (node : Ptr) (flags fd : ℕ) : Type 0 where
  pub inside : fd < max_open_files
  pub free : (get_or old fd no_fd).used ≡ false
  pub lowest : (j : ℕ) → j < fd → (get_or old j no_fd).used ≡ true
  pub entry : get_or new fd no_fd ≡ open_fd node flags
  pub others : (j : ℕ) → j ≢ fd → get_or new j no_fd ≡ get_or old j no_fd
  pub size : length new ≡ max_open_files

-- What the result of `vfs_open` says of the table: an error leaves it as it was.
abbrev pub OpenAnswer : {F : Type 0} → List FileDescriptor → Ptr → ℕ → ℤ × Vfs F → Type 0
OpenAnswer old node flags (pos fd, s') = IsOpened old s'.fd_table node flags fd
OpenAnswer old node flags (negsuc n, s') = s'.fd_table ≡ old

set-IsOpened :
    (old : List FileDescriptor) (node : Ptr) (flags fd : ℕ)
    → length old ≡ max_open_files
    → IsFirst (λ (d : FileDescriptor). not d.used) no_fd old fd
    → IsOpened old (set old fd (open_fd node flags)) node flags fd
set-IsOpened old node flags fd n v = record {
  inside = omega (arith, v.inside);
  free = ground (arith, v.passes);
  lowest = λ j lt. ground (arith, v.first j lt);
  entry = get_or-set_self old fd (open_fd node flags) no_fd v.inside;
  others = λ j ne. get_or-set_ne old fd j (open_fd node flags) no_fd (λ e. ne (sym e));
  size = length-set old fd (open_fd node flags) ∙ n;
}

module _ {F : Type 0} (ops_at : Ptr → Ops F) where
  close_quietly-fds :
      (o : Option (Ptr → World F → ℤ × World F)) (node : Ptr) (s : Vfs F)
      → (close_quietly o node s).fd_table ≡ s.fd_table
  close_quietly-fds none node s = refl
  close_quietly-fds (some f) node s = refl

  module _ (old : List FileDescriptor) (n : length old ≡ max_open_files) (node : Ptr)
      (flags : ℕ) where
    install-OpenAnswer :
        (s : Vfs F)
        → s.fd_table ≡ old
        → OpenAnswer old node flags (install ops_at node flags (free_fd s) s)
    install-OpenAnswer s same = elim (Option-cases (free_fd s)) [
      | inl e ↦ rw e (close_quietly-fds ((ops_at (node_at s node).ops).close_op) node s ∙ same)
      | inr (fd, e) ↦ rw e (
          subst (λ l. IsOpened old (set l fd (open_fd node flags)) node flags fd) (sym same)
            (set-IsOpened old node flags fd n (
              subst (λ l. IsFirst (λ (d : FileDescriptor). not d.used) no_fd l fd) same
                (find_index-IsFirst (λ (d : FileDescriptor). not d.used) no_fd s.fd_table fd e))))
    ]

    opened-OpenAnswer :
        (r : ℤ) (s : Vfs F)
        → s.fd_table ≡ old
        → OpenAnswer old node flags (opened ops_at node flags (r, s))
    opened-OpenAnswer (pos k) s same = install-OpenAnswer s same
    opened-OpenAnswer (negsuc k) s same = same

    open_node-OpenAnswer :
        (o : Option (Ptr → ℕ → World F → ℤ × World F)) (s : Vfs F)
        → s.fd_table ≡ old
        → OpenAnswer old node flags (open_node ops_at o node flags s)
    open_node-OpenAnswer none s same = same
    open_node-OpenAnswer (some f) s same =
        let (r, w) = f node flags s.world in opened-OpenAnswer r (record s { world = w }) same

    open_found-OpenAnswer :
        (s : Vfs F)
        → s.fd_table ≡ old
        → OpenAnswer old node flags (open_found ops_at flags (node, s))
    open_found-OpenAnswer s same = elim (Bool-cases (node == null)) [
      | inl e ↦ rw e same
      | inr e ↦
          rw e (open_node-OpenAnswer (find_op ops_at (λ o. o.open_op) (node_at s node)) s same)
    ]

  -- `vfs_open` on a table of MAX_OPEN_FILES entries: a result of 0 or more is the lowest descriptor
  -- that was free, which then stands for the node that the path leads to, with the given flags, at
  -- position 0, and no other descriptor has changed; a negative result leaves the table as it was.
  pub vfs_open-OpenAnswer :
      (path : Option Str) (flags : ℕ) (s : Vfs F)
      → length s.fd_table ≡ max_open_files
      → OpenAnswer s.fd_table (vfs_lookup ops_at path s).0 flags (vfs_open ops_at path flags s)
  unfolding vfs_open
  vfs_open-OpenAnswer path flags s n =
      open_found-OpenAnswer s.fd_table n (vfs_lookup ops_at path s).0 flags
        (vfs_lookup ops_at path s).1 (vfs_lookup-SameTables ops_at path s).fds

  -- What `vfs_close` says of the table.
  abbrev pub CloseAnswer : Vfs F → ℕ → ℤ × Vfs F → Type 0
  CloseAnswer s fd (pos k, s') =
      (k ≡ 0)
      × (fd < max_open_files)
      × ((get_or s.fd_table fd no_fd).used ≡ true)
      × ((get_or s'.fd_table fd no_fd).used ≡ false)
      × ((j : ℕ) → j ≢ fd → get_or s'.fd_table j no_fd ≡ get_or s.fd_table j no_fd)
  CloseAnswer s fd (negsuc k, s') = s'.fd_table ≡ s.fd_table

  set-CloseAnswer :
      (s s' : Vfs F) (fd : ℕ)
      → length s.fd_table ≡ max_open_files
      → fd < max_open_files
      → (get_or s.fd_table fd no_fd).used ≡ true
      → s'.fd_table ≡ set s.fd_table fd (record (get_or s.fd_table fd no_fd) { used = false })
      → CloseAnswer s fd (pos 0, s')
  set-CloseAnswer s s' fd n lt u e =
      let d = get_or s.fd_table fd no_fd in
      let at = get_or-set_self s.fd_table fd (record d { used = false }) no_fd (omega arith) in
      (
        refl,
        lt,
        u,
        ap (λ l. (get_or l fd no_fd).used) e ∙ ap (λ (x : FileDescriptor). x.used) at,
        λ j ne.
            ap (λ l. get_or l j no_fd) e
            ∙ get_or-set_ne s.fd_table fd j (record d { used = false }) no_fd (λ q. ne (sym q)),
      )

  module _ (s : Vfs F) (fd : ℕ) (n : length s.fd_table ≡ max_open_files) (lt : fd < max_open_files)
      (u : (get_or s.fd_table fd no_fd).used ≡ true) where
    closed-CloseAnswer :
        (r : ℤ) (w : World F)
        → CloseAnswer s fd
            (closed ops_at fd (get_or s.fd_table fd no_fd) (r, record s { world = w }))
    closed-CloseAnswer (pos k) w =
        let d = record (get_or s.fd_table fd no_fd) { used = false } in
        set-CloseAnswer s (set_fd (record s { world = w }) fd d) fd n lt u refl
    closed-CloseAnswer (negsuc k) w = refl

    close_node-CloseAnswer :
        (o : Option (Ptr → World F → ℤ × World F))
        → CloseAnswer s fd (close_node ops_at o fd (get_or s.fd_table fd no_fd) s)
    close_node-CloseAnswer none =
        let d = record (get_or s.fd_table fd no_fd) { used = false } in
        set-CloseAnswer s (set_fd s fd d) fd n lt u refl
    close_node-CloseAnswer (some f) =
        let (r, w) = f (get_or s.fd_table fd no_fd).node s.world in closed-CloseAnswer r w

  used_fd-used :
      (s : Vfs F) (fd : ℕ)
      → fd < max_open_files
      → (get_or s.fd_table fd no_fd).used ≡ true
      → used_fd s (pos fd) ≡ some (fd, get_or s.fd_table fd no_fd)
  unfolding used_fd
  used_fd-used s fd lt u = let low : leb max_open_files fd ≡ false = ground arith in simp (low, u)

  -- `vfs_close` on a table of MAX_OPEN_FILES entries: if it returns 0, the descriptor was open and is
  -- now free, and no other has changed; it never returns another number that is not negative; and an
  -- error, be it of a descriptor that is not open or of the driver, leaves the table as it was.
  pub vfs_close-CloseAnswer :
      (s : Vfs F) (fd : ℕ)
      → length s.fd_table ≡ max_open_files
      → CloseAnswer s fd (vfs_close ops_at (pos fd) s)
  unfolding vfs_close
  vfs_close-CloseAnswer s fd n = elim (Bool-cases (leb max_open_files fd)) [
    | inl e ↦ simp e refl
    | inr e ↦ elim (Bool-cases (get_or s.fd_table fd no_fd).used) [
      | inl u ↦ rw (used_fd-used s fd (ground arith) u) (
          close_node-CloseAnswer s fd n (ground arith) u
            (find_op ops_at (λ o. o.close_op) (node_at s (get_or s.fd_table fd no_fd).node)))
      | inr u ↦ simp (e, u) refl
    ]
  ]

  -- A descriptor that is not open is refused, and nothing changes.
  vfs_close-unused :
      (s : Vfs F) (fd : ℕ)
      → (get_or s.fd_table fd no_fd).used ≡ false
      → vfs_close ops_at (pos fd) s ≡ (minus_one, s)
  unfolding vfs_close
  vfs_close-unused s fd u = elim (Bool-cases (leb max_open_files fd)) [
    | inl e ↦ simp e
    | inr e ↦ simp (e, u)
  ]

  CloseAnswer-free :
      (s : Vfs F) (fd : ℕ) (r : ℤ × Vfs F)
      → CloseAnswer s fd r
      → r.0 ≡ pos 0
      → (get_or r.1.fd_table fd no_fd).used ≡ false
  CloseAnswer-free s fd (pos k, s') c e = c.3
  CloseAnswer-free s fd (negsuc k, s') c e = cc

  -- After a close that succeeds, a second close of the same descriptor fails and changes nothing.
  vfs_close-vfs_close :
      (s : Vfs F) (fd : ℕ)
      → length s.fd_table ≡ max_open_files
      → (vfs_close ops_at (pos fd) s).0 ≡ pos 0
      → vfs_close ops_at (pos fd) (vfs_close ops_at (pos fd) s).1
        ≡ (minus_one, (vfs_close ops_at (pos fd) s).1)
  vfs_close-vfs_close s fd n ok =
      vfs_close-unused (vfs_close ops_at (pos fd) s).1 fd
        (CloseAnswer-free s fd (vfs_close ops_at (pos fd) s) (vfs_close-CloseAnswer s fd n) ok)
