-- ===== src/Memory.antt =====
-- The kernel's flat address space: a byte at each address, pointers as numbers, NULL as 0, and the
-- little-endian words that a C structure keeps in it. Addresses are those of an x86-64.
pub mod Words
use freecore.Prelude.{ℕ, ◌+◌, ◌*◌, ◌/◌, ◌%◌, ◌^◌, ◌-◌, Bool, ◌&&◌, ◌==◌, ltb, leb, if◌then◌else◌}

abbrev pub Ptr : Type 0
Ptr = ℕ

abbrev pub null : Ptr
null = 0

abbrev pub Memory : Type 0
Memory = Ptr → ℕ

-- One more than the largest `size_t` and `uintptr_t`.
abbrev pub word_mod : ℕ
word_mod = 2 ^ 64

-- Addition of `size_t` or `uintptr_t` values wraps.
abbrev pub add_word : ℕ → ℕ → ℕ
add_word a b = (a + b) % word_mod

-- So does subtraction.
abbrev pub sub_word : ℕ → ℕ → ℕ
sub_word a b = (a + word_mod - b) % word_mod

-- `*(uint8_t *)p = v`
unfoldable pub poke : Memory → Ptr → ℕ → Memory
poke m p v a = if a == p then v else m a

-- Whether an address lies in the `n` bytes from `p` on.
abbrev pub in_range : Ptr → ℕ → Ptr → Bool
in_range p n a = leb p a && ltb a (p + n)

-- A word of four bytes, and one of eight.
pub load32 : Memory → Ptr → ℕ
load32 m p = m p + 256 * (m (p + 1) + 256 * (m (p + 2) + 256 * m (p + 3)))

pub load64 : Memory → Ptr → ℕ
load64 m p = load32 m p + 2 ^ 32 * load32 m (p + 4)

-- The byte at place `i` of a word.
abbrev pub byte : ℕ → ℕ → ℕ
byte v i = v / 256 ^ i % 256

pub store32 : Memory → Ptr → ℕ → Memory
store32 m p v a =
    if in_range p 4 a
    then (if a == p
        then byte v 0
        else if a == p + 1
        then byte v 1
        else if a == p + 2
        then byte v 2
        else byte v 3)
    else m a

pub store64 : Memory → Ptr → ℕ → Memory
store64 m p v = store32 (store32 m p (v % 2 ^ 32)) (p + 4) (v / 2 ^ 32 % 2 ^ 32)
