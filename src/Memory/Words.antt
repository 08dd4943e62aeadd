-- ===== src/Memory/Words.antt =====
-- What a word stored in memory reads back as, and what a load and a store depend on.
use freecore.Prelude.{ℕ, ◌+◌, ◌%◌, ◌/◌, ◌^◌, ◌≤◌, ◌<◌, ◌≡◌, ◌⊎◌, inl, arith}
use freecore.Memory.{Memory, Ptr, poke, load32, load64, store32, store64}

-- Two memories that agree on the `n` bytes from `p` on.
abbrev pub SameOn : Ptr → ℕ → Memory → Memory → Type 0
SameOn p n m m' = (a : Ptr) → p ≤ a → a < p + n → m' a ≡ m a

-- Two memories that agree on all bytes but the `n` from `p` on.
abbrev pub SameOff : Ptr → ℕ → Memory → Memory → Type 0
SameOff p n m m' = (a : Ptr) → (a < p) ⊎ (p + n ≤ a) → m' a ≡ m a

pub poke-SameOff : (m : Memory) (p v : ℕ) → SameOff p 1 m (poke m p v)
unfolding poke
poke-SameOff m p v a h = ground arith

pub poke_self : (m : Memory) (p v : ℕ) → poke m p v p ≡ v
unfolding poke
poke_self m p v = ground arith

pub store32-SameOff : (m : Memory) (p v : ℕ) → SameOff p 4 m (store32 m p v)
unfolding store32
store32-SameOff m p v a h = ground arith

pub store64-SameOff : (m : Memory) (p v : ℕ) → SameOff p 8 m (store64 m p v)
unfolding store64
store64-SameOff m p v a h =
    let low = store32 m p (v % 2 ^ 32) in
    omega (
      arith,
      store32-SameOff m p (v % 2 ^ 32) a (omega arith),
      store32-SameOff low (p + 4) (v / 2 ^ 32 % 2 ^ 32) a (omega arith),
    )

pub load32-SameOn : (m m' : Memory) (p : Ptr) → SameOn p 4 m m' → load32 m' p ≡ load32 m p
unfolding load32
load32-SameOn m m' p h = ground (arith, h p, h (p + 1), h (p + 2), h (p + 3))

pub load64-SameOn : (m m' : Memory) (p : Ptr) → SameOn p 8 m m' → load64 m' p ≡ load64 m p
unfolding load64
load64-SameOn m m' p h = omega (
  arith,
  load32-SameOn m m' p (λ a l u. h a l (omega arith)),
  load32-SameOn m m' (p + 4) (λ a l u. h a (omega arith) (omega arith)),
)

pub load32-store32 : (m : Memory) (p v : ℕ) → v < 2 ^ 32 → load32 (store32 m p v) p ≡ v
unfolding load32 store32
load32-store32 m p v h = ground arith

pub load64-store64 : (m : Memory) (p v : ℕ) → v < 2 ^ 64 → load64 (store64 m p v) p ≡ v
unfolding load64 store64
load64-store64 m p v h =
    let low = store32 m p (v % 2 ^ 32) in
    let both = store32 low (p + 4) (v / 2 ^ 32 % 2 ^ 32) in
    let keep =
      load32-SameOn low both p (λ a l u. store32-SameOff low (p + 4) _ a (inl (omega arith))) in
    omega (
      arith,
      keep,
      load32-store32 m p (v % 2 ^ 32) (omega arith),
      load32-store32 low (p + 4) (v / 2 ^ 32 % 2 ^ 32) (omega arith),
    )
