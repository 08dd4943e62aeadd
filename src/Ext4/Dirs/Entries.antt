-- ===== src/Ext4/Dirs/Entries.antt =====
-- The entries of a block of a directory, and what the two scans of kernel/src/fs/ext4/ext4.c find among
-- them.
use freecore.Prelude.{
  ℕ, zero, suc, ◌+◌, ◌-◌, ◌≤◌, ◌<◌, ◌≡◌, ◌≢◌, refl, ap, arith, ◌==◌, if◌then◌else◌, Option, none,
  some, List, [], ◌∷◌, length, get_elem?, Bool-cases, Option-cases, inl, inr,
}
use freecore.Vfs.Types.{Str}
use freecore.Ext4.Layout.{Buffer, entry_inode, rec_len}
use freecore.Ext4.Device.{u32_mod}
use freecore.Ext4.Dirs.{entry_named, scan_name, scan_index, Listed, entry_at, passed, next_entry}

-- The places of the entries in use of a block of `n` bytes, from the place `o` on.
pub data Entries (b : Buffer) (n : ℕ) : ℕ → List ℕ → Type 0 where
  past : {o : ℕ} → n ≤ o → Entries b n o []
  stop : {o : ℕ} → rec_len b o ≡ 0 → Entries b n o []
  unused :
      {o : ℕ} {es : List ℕ}
      → o < n
      → 0 < rec_len b o
      → o + rec_len b o < u32_mod
      → entry_inode b o ≡ 0
      → Entries b n (o + rec_len b o) es
      → Entries b n o es
  used :
      {o : ℕ} {es : List ℕ}
      → o < n
      → 0 < rec_len b o
      → o + rec_len b o < u32_mod
      → entry_inode b o ≢ 0
      → Entries b n (o + rec_len b o) es
      → Entries b n o (o ∷ es)

-- The first entry with a name.
abbrev pub named : Buffer → Str → List ℕ → Option ℕ
named b name [] = none
named b name (o ∷ es) = let rest = named b name es in if entry_named b o name then some o else rest

abbrev pub inode_of : Buffer → Option ℕ → Option ℕ
inode_of b none = none
inode_of b (some o) = some (entry_inode b o)

-- The entry of an index, with the number of those before it.
abbrev pub listed_at : ℕ → List ℕ → Option ℕ → Listed
listed_at k es none = passed (k + length es)
listed_at k es (some o) = entry_at o

next_entry_lem : (b : Buffer) (o : ℕ) → o + rec_len b o < u32_mod → next_entry b o ≡ o + rec_len b o
next_entry_lem b o h = ground arith

-- As many rounds as there are bytes are enough for the search.
pub scan_name_lem :
    (b : Buffer) (n : ℕ) (name : Str) (fuel o : ℕ) (es : List ℕ)
    → n ≤ o + fuel
    → Entries b n o es
    → scan_name b n name fuel o ≡ inode_of b (named b name es)
unfolding scan_name
scan_name_lem b n name zero o es h (past l) = refl
scan_name_lem b n name zero o es h (stop z) = refl
scan_name_lem b n name zero o es h (unused l r w z e) = absurd (omega arith)
scan_name_lem b n name zero o es h (used l r w z e) = absurd (omega arith)
scan_name_lem b n name (suc fuel) o es h (past l) = ground arith
scan_name_lem b n name (suc fuel) o es h (stop z) = ground arith
scan_name_lem b n name (suc fuel) o es h (unused l r w z e) =
    let rest = scan_name_lem b n name fuel (o + rec_len b o) es (omega arith) e in
    ground (arith, rest, next_entry_lem b o w)
scan_name_lem b n name (suc fuel) o es h (used {es = tail} l r w z e) =
    let rest = scan_name_lem b n name fuel (o + rec_len b o) tail (omega arith) e in
    ground (arith, rest, next_entry_lem b o w)

listed_at-cons :
    (k g o : ℕ) (es : List ℕ)
    → listed_at (k + 1) es (get_elem? es g) ≡ listed_at k (o ∷ es) (get_elem? (o ∷ es) (suc g))
listed_at-cons k g o es = elim (Option-cases (get_elem? es g)) [
  | inl e ↦ rw e (ap passed (omega arith))
  | inr (a, e) ↦ rw e refl
]

-- The listing passes over the entries in front of the index.
pub scan_index_lem :
    (b : Buffer) (n index fuel o k : ℕ) (es : List ℕ)
    → n ≤ o + fuel
    → k ≤ index
    → index < u32_mod
    → Entries b n o es
    → scan_index b n index fuel o k ≡ listed_at k es (get_elem? es (index - k))
unfolding scan_index
scan_index_lem b n index zero o k es h m u (past l) = ground arith
scan_index_lem b n index zero o k es h m u (stop z) = ground arith
scan_index_lem b n index zero o k es h m u (unused l r w z e) = absurd (omega arith)
scan_index_lem b n index zero o k es h m u (used l r w z e) = absurd (omega arith)
scan_index_lem b n index (suc fuel) o k es h m u (past l) = ground arith
scan_index_lem b n index (suc fuel) o k es h m u (stop z) = ground arith
scan_index_lem b n index (suc fuel) o k es h m u (unused l r w z e) =
    let rest = scan_index_lem b n index fuel (o + rec_len b o) k es (omega arith) m u e in
    ground (arith, rest, next_entry_lem b o w)
scan_index_lem b n index (suc fuel) o k es h m u (used {es = tail} l r w z e) =
    elim (Bool-cases (k == index)) [
      | inl same ↦ ground arith
      | inr other ↦
          let rest =
            scan_index_lem b n index fuel (o + rec_len b o) (k + 1) tail (omega arith)
              (ground arith) u e in
          let cons = listed_at-cons k (index - k - 1) o tail in
          let gap : index - k ≡ suc (index - k - 1) = ground arith in
          let gap' : index - (k + 1) ≡ index - k - 1 = omega arith in
          let same_rest = rw gap' at rest in
          rw gap (ground (arith, same_rest, cons, next_entry_lem b o w))
    ]
