-- ===== src/Minstd/Tests.antt =====
-- The theorems on kernel/src/lib/minstd.c at a small memory.
use freecore.Prelude.{
  ℕ, ◌+◌, ◌%◌, ◌<◌, ◌≡◌, ◌≢◌, refl, arith, false, ◌==◌, if◌then◌else◌, some, inl,
}
use freecore.Memory.{Memory, Ptr}
use freecore.Minstd.Unbounded.{strcpy, IsCopy, strcpy-IsCopy}
use freecore.Minstd.{memmove}
use freecore.Minstd.Block.{moved, memmove-moved}

-- Each byte holds its address.
abbrev counting : Memory
counting a = a % 256

memmove-moved_example :
    ((memmove 90 100 20 counting).0 ≡ 90)
    × ((a : Ptr) → (memmove 90 100 20 counting).1 a ≡ moved counting 90 100 20 a)
memmove-moved_example = memmove-moved 90 100 20 counting (omega arith) (omega arith)

-- A string of three bytes at 100.
abbrev three_bytes : Memory
three_bytes a = if a == 103 then 0 else 1

three_bytes_front : (i : ℕ) → i < 3 → three_bytes (100 + i) ≢ 0
three_bytes_front i h = let e : (100 + i == 103) ≡ false = ground arith in rw e (λ e. omega arith)

strcpy-IsCopy_example :
    (m' : Memory) × (strcpy 10 200 100 three_bytes ≡ some (200, m'))
    × IsCopy 3 200 100 three_bytes m'
strcpy-IsCopy_example =
    strcpy-IsCopy 10 3 200 100 three_bytes (λ e. omega arith) (λ e. omega arith) three_bytes_front
      refl (omega arith) (inl (omega arith))
