-- ===== src/Minstd/Block.antt =====
-- The block functions of kernel/src/lib/minstd.c against their descriptions.
use freecore.Prelude.{
  ℕ, zero, suc, ◌+◌, ◌-◌, ◌%◌, ◌≤◌, ◌<◌, ◌≡◌, ◌≢◌, refl, ◌⊎◌, inl, inr, if◌then◌else◌, arith, ltb,
  ◌==◌, Bool-cases, pos, minus_one,
}
use freecore.Memory.{Memory, Ptr, null, word_mod, in_range, poke}
use freecore.Minstd.{
  copy_forward, copy_backward, memmove, memcpy, fill, memset, compare_bytes, memcmp,
}

-- The memory after the `n` bytes from `src` on were moved to `dest`, all read before any is written.
abbrev pub moved : Memory → Ptr → Ptr → ℕ → Memory
moved m dest src n a = if in_range dest n a then m (src + (a - dest)) else m a

-- Forwards, a source above its destination is read before it is overwritten.
copy_forward-moved :
    (k i : ℕ) (dest src : Ptr) (m : Memory) (a : Ptr)
    → (dest ≤ src) ⊎ (src + (i + k) ≤ dest)
    → copy_forward k i dest src m a ≡ moved m (dest + i) (src + i) k a
unfolding copy_forward poke
copy_forward-moved zero i dest src m a h = ground arith
copy_forward-moved (suc k) i dest src m a h =
    ground (arith, copy_forward-moved k (i + 1) dest src (poke m (dest + i) (m (src + i))) a)

copy_backward-moved :
    (k : ℕ) (dest src : Ptr) (m : Memory) (a : Ptr)
    → (src ≤ dest) ⊎ (dest + k ≤ src)
    → copy_backward k dest src m a ≡ moved m dest src k a
unfolding copy_backward poke
copy_backward-moved zero dest src m a h = ground arith
copy_backward-moved (suc k) dest src m a h =
    ground (arith, copy_backward-moved k dest src (poke m (dest + k) (m (src + k))) a)

fill_lem :
    (k i : ℕ) (s : Ptr) (v : ℕ) (m : Memory) (a : Ptr)
    → fill k i s v m a ≡ (if in_range (s + i) k a then v else m a)
unfolding fill poke
fill_lem zero i s v m a = ground arith
fill_lem (suc k) i s v m a = ground (arith, fill_lem k (i + 1) s v (poke m (s + i) v) a)

-- `memmove` between pointers that are not NULL moves its bytes as if all were read before any is written, whether or not the two ranges
-- overlap, returns its destination, and leaves every other byte alone.
pub memmove-moved :
    (dest src : Ptr) (n : ℕ) (m : Memory)
    → dest ≢ null
    → src ≢ null
    → ((memmove dest src n m).0 ≡ dest)
      × ((a : Ptr) → (memmove dest src n m).1 a ≡ moved m dest src n a)
unfolding memmove
memmove-moved dest src n m d s = (
  ground arith,
  λ a. ground (arith, copy_forward-moved n 0 dest src m a, copy_backward-moved n dest src m a),
)

-- `memcpy` between pointers that are not NULL, of ranges that end within the address space, moves its
-- bytes as if all were read before any is written, returns its destination, and leaves every other
-- byte alone.
pub memcpy-moved :
    (dest src : Ptr) (n : ℕ) (m : Memory)
    → dest ≢ null
    → src ≢ null
    → dest + n < word_mod
    → src + n < word_mod
    → ((memcpy dest src n m).0 ≡ dest)
      × ((a : Ptr) → (memcpy dest src n m).1 a ≡ moved m dest src n a)
unfolding memcpy
memcpy-moved dest src n m d s hd hs = (
  ground (arith, memmove-moved dest src n m d s),
  λ a. ground (arith, copy_forward-moved n 0 dest src m a, (memmove-moved dest src n m d s).1 a),
)

-- `memset` at a pointer that is not NULL makes the `n` bytes from it on the low byte of `c`, returns
-- the pointer, and leaves every other byte alone.
pub memset_lem :
    (s : Ptr) (c n : ℕ) (m : Memory)
    → s ≢ null
    → ((memset s c n m).0 ≡ s)
      × ((a : Ptr) → (memset s c n m).1 a ≡ (if in_range s n a then c % 256 else m a))
unfolding memset
memset_lem s c n m h = (ground arith, λ a. ground (arith, fill_lem n 0 s (c % 256) m a))

-- A null pointer stops each of the writing functions before it writes.
null_writes_nothing :
    (p : Ptr) (c n : ℕ) (m : Memory)
    → (memset null c n m ≡ (null, m))
      × (memcpy null p n m ≡ (null, m))
      × (memcpy p null n m ≡ (p, m))
      × (memmove null p n m ≡ (null, m))
      × (memmove p null n m ≡ (p, m))
unfolding memset memcpy memmove
null_writes_nothing p c n m = (ground arith, ground arith, ground arith, ground arith, ground arith)

module _ (s1 s2 : Ptr) (m : Memory) where
  abbrev pub SameBytes : ℕ → ℕ → Type 0
  SameBytes i j = (t : ℕ) → i ≤ t → t < j → m (s1 + t) ≡ m (s2 + t)

  compare_bytes-same : (k i : ℕ) → SameBytes i (i + k) → compare_bytes k i s1 s2 m ≡ pos 0
  unfolding compare_bytes
  compare_bytes-same zero i h = refl
  compare_bytes-same (suc k) i h =
      ground (arith, h i, compare_bytes-same k (i + 1) (λ t lo hi. h t (omega arith) (omega arith)))

  -- The loop decides at the first place where the bytes differ.
  compare_bytes-first :
      (k i j : ℕ)
      → i ≤ j
      → j < i + k
      → SameBytes i j
      → m (s1 + j) ≢ m (s2 + j)
      → compare_bytes k i s1 s2 m ≡ (if ltb (m (s1 + j)) (m (s2 + j)) then minus_one else pos 1)
  unfolding compare_bytes
  compare_bytes-first zero i j lo hi h ne = absurd (omega arith)
  compare_bytes-first (suc k) i j lo hi h ne = elim (Bool-cases (i == j)) [
    | inl e ↦ ground arith
    | inr e ↦ ground (
      arith,
      h i,
      compare_bytes-first k (i + 1) j (ground arith) (omega arith) (λ t l u. h t (omega arith) u)
          ne,
    )
  ]

  -- `memcmp` of two ranges, not at NULL, that hold the same bytes is 0.
  memcmp_same : (n : ℕ) → s1 ≢ null → s2 ≢ null → SameBytes 0 n → memcmp s1 s2 n m ≡ pos 0
  unfolding memcmp
  memcmp_same n h1 h2 same =
      ground (arith, compare_bytes-same n 0 (λ t l u. same t l (omega arith)))

  -- `memcmp` of two ranges, not at NULL, that differ is -1 or 1, by the order of the first two bytes
  -- that differ.
  memcmp_first :
      (n j : ℕ)
      → s1 ≢ null
      → s2 ≢ null
      → j < n
      → SameBytes 0 j
      → m (s1 + j) ≢ m (s2 + j)
      → memcmp s1 s2 n m ≡ (if ltb (m (s1 + j)) (m (s2 + j)) then minus_one else pos 1)
  unfolding memcmp
  memcmp_first n j h1 h2 lt same ne =
      ground (arith, compare_bytes-first n 0 j (omega arith) (omega arith) same ne)
