-- ===== src/Kmalloc/Blocks.antt =====
-- The blocks of kernel/src/mm/kmalloc.c as they lie in memory: a chain of headers, each leading to
-- the next by its size.
use freecore.Prelude.{
  ℕ, ◌+◌, ◌%◌, ◌^◌, ◌≤◌, ◌<◌, ◌≡◌, ap, ◌∙◌, Bool, true, false, not, ◌==◌, List, [], ◌∷◌, arith,
}
use freecore.Memory.{Memory, Ptr}
use freecore.Memory.Words.{
  SameOn, SameOff, poke-SameOff, poke_self, store32-SameOff, store64-SameOff, load32-SameOn,
  load64-SameOn, load32-store32, load64-store64,
}
use freecore.Kmalloc.{
  alloc_magic, header_size, size_at, magic_at, used_at, set_size, set_magic, set_used,
}
use freecore.Kmalloc.Policy.{Block, block}

-- The header at `p` is that of block `b`.
pub record IsBlock (m : Memory) (p : Ptr) (b : Block) : Type 0 where
  pub size : size_at m p ≡ b.size
  pub magic : magic_at m p ≡ alloc_magic
  pub used : used_at m p ≡ b.used
  pub room : header_size ≤ b.size
  pub aligned : b.size % 16 ≡ 0

-- From `p` the blocks follow one another up to `e`.
abbrev pub Chain : Memory → Ptr → List Block → Ptr → Type 0
Chain m p [] e = p ≡ e
Chain m p (b ∷ bs) e = IsBlock m p b × Chain m (p + b.size) bs e

-- A header depends on its 16 bytes only.
pub IsBlock-SameOn :
    {m m' : Memory} {p : Ptr} {b : Block} → SameOn p 16 m m' → IsBlock m p b → IsBlock m' p b
IsBlock-SameOn {m} {m'} {p} h v = record {
  size = load64-SameOn m m' p (λ a l u. h a l (omega arith)) ∙ v.size;
  magic = load32-SameOn m m' (p + 8) (λ a l u. h a (omega arith) (omega arith)) ∙ v.magic;
  used = ap (λ n. not (n == 0)) (h (p + 12) (omega arith) (omega arith)) ∙ v.used;
  room = v.room;
  aligned = v.aligned;
}

pub set_used-SameOff : (m : Memory) (p : Ptr) (u : Bool) → SameOff p 16 m (set_used m p u)
set_used-SameOff m p u a h = poke-SameOff m (p + 12) _ a (omega arith)

pub set_magic-SameOff : (m : Memory) (p v : ℕ) → SameOff p 16 m (set_magic m p v)
set_magic-SameOff m p v a h = store32-SameOff m (p + 8) v a (omega arith)

pub set_size-SameOff : (m : Memory) (p v : ℕ) → SameOff p 16 m (set_size m p v)
set_size-SameOff m p v a h = store64-SameOff m p v a (omega arith)

-- Each field reads back after its own store, and after those of the other fields.
module _ (m : Memory) (p : Ptr) where
  pub used_at-set_used : (u : Bool) → used_at (set_used m p u) p ≡ u
  used_at-set_used true = rw poke_self
  used_at-set_used false = rw poke_self

  pub size_at-set_used : (u : Bool) → size_at (set_used m p u) p ≡ size_at m p
  size_at-set_used u = load64-SameOn m _ p (λ a l h. poke-SameOff m (p + 12) _ a (omega arith))

  pub magic_at-set_used : (u : Bool) → magic_at (set_used m p u) p ≡ magic_at m p
  magic_at-set_used u =
      load32-SameOn m _ (p + 8) (λ a l h. poke-SameOff m (p + 12) _ a (omega arith))

  pub size_at-set_magic : (v : ℕ) → size_at (set_magic m p v) p ≡ size_at m p
  size_at-set_magic v = load64-SameOn m _ p (λ a l h. store32-SameOff m (p + 8) v a (omega arith))

  pub magic_at-set_size : (v : ℕ) → magic_at (set_size m p v) p ≡ magic_at m p
  magic_at-set_size v = load32-SameOn m _ (p + 8) (λ a l h. store64-SameOff m p v a (omega arith))

  pub used_at-set_size : (v : ℕ) → used_at (set_size m p v) p ≡ used_at m p
  used_at-set_size v = ap (λ n. not (n == 0)) (store64-SameOff m p v (p + 12) (omega arith))

-- A header that is written whole.
pub new_block :
    (m : Memory) (p : Ptr) (n : ℕ) (u : Bool)
    → n < 2 ^ 64
    → header_size ≤ n
    → n % 16 ≡ 0
    → IsBlock (set_used (set_magic (set_size m p n) p alloc_magic) p u) p (block n u)
new_block m p n u h r a =
    let m1 = set_size m p n in
    let m2 = set_magic m1 p alloc_magic in
    record {
      size = size_at-set_used m2 p u ∙ size_at-set_magic m1 p alloc_magic ∙ load64-store64 m p n h;
      magic = magic_at-set_used m2 p u ∙ load32-store32 m1 (p + 8) alloc_magic (omega arith);
      used = used_at-set_used m2 p u;
      room = r;
      aligned = a;
    }

-- A header whose size is written anew.
pub resized_block :
    {m : Memory} {p : Ptr} {b : Block} (n : ℕ)
    → n < 2 ^ 64
    → header_size ≤ n
    → n % 16 ≡ 0
    → IsBlock m p b
    → IsBlock (set_size m p n) p (block n b.used)
resized_block {m} {p} n h r a v = record {
  size = load64-store64 m p n h;
  magic = magic_at-set_size m p n ∙ v.magic;
  used = used_at-set_size m p n ∙ v.used;
  room = r;
  aligned = a;
}

-- A header whose mark is written anew.
pub marked_block :
    {m : Memory} {p : Ptr} {b : Block} (u : Bool)
    → IsBlock m p b
    → IsBlock (set_used m p u) p (block b.size u)
marked_block {m} {p} u v = record {
  size = size_at-set_used m p u ∙ v.size;
  magic = magic_at-set_used m p u ∙ v.magic;
  used = used_at-set_used m p u;
  room = v.room;
  aligned = v.aligned;
}
