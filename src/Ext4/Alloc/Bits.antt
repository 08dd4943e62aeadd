-- ===== src/Ext4/Alloc/Bits.antt =====
-- The bitmap of kernel/src/fs/ext4/ext4.c: its first clear bit, and the setting of a bit.
use freecore.Prelude.{
  ℕ, zero, suc, ◌+◌, ◌/◌, ◌%◌, ◌^◌, ◌≤◌, ◌<◌, ◌≡◌, ◌≢◌, refl, arith, true, false, ◌==◌,
  if◌then◌else◌, some, Bool-cases, inl, inr,
}
use freecore.Ext4.Layout.{Buffer}
use freecore.Ext4.Alloc.{bit_at, set_bit, find_clear}

-- The first clear bit of a bitmap from the bit `from` on, below `end`.
pub record IsFirstClear (bitmap : Buffer) (from end j : ℕ) : Type 0 where
  pub behind : from ≤ j
  pub below : j < end
  pub clear : bit_at bitmap j ≡ 0
  pub before : (k : ℕ) → from ≤ k → k < j → bit_at bitmap k ≢ 0

pub find_clear_first :
    (bitmap : Buffer) (rounds from j : ℕ)
    → IsFirstClear bitmap from (from + rounds) j
    → find_clear bitmap rounds from ≡ some j
unfolding find_clear
find_clear_first bitmap zero from j f = absurd (omega (arith, f.behind, f.below))
find_clear_first bitmap (suc rounds) from j f = elim (Bool-cases (from == j)) [
  | inl here ↦
      let same : from ≡ j = ground arith in
      let clear : (bit_at bitmap j == 0) ≡ true = ground (arith, f.clear) in rw (same, clear) refl
  | inr later ↦
      let used : (bit_at bitmap from == 0) ≡ false =
        ground (arith, f.before from (omega arith) (ground (arith, f.behind))) in
      rw used (
        find_clear_first bitmap rounds (from + 1) j (record {
          behind = ground (arith, f.behind);
          below = omega (arith, f.below);
          clear = f.clear;
          before = λ k l u. f.before k (omega arith) u;
        }))
]

-- 2^n, for a place in a byte
bit_value :
    (n : ℕ)
    → n < 8
    → 2 ^ n ≡ (
        if n == 0
        then 1
        else if n == 1
        then 2
        else if n == 2
        then 4
        else if n == 3
        then 8
        else if n == 4
        then 16
        else if n == 5
        then 32
        else if n == 6
        then 64
        else 128)
bit_value n h = ground arith

-- In a byte, a clear bit can be set without a change of the others.
set_in_byte :
    (b j k : ℕ)
    → j < 8
    → k < 8
    → b / 2 ^ j % 2 ≡ 0
    → (b + 2 ^ j) / 2 ^ k % 2 ≡ (if k == j then 1 else b / 2 ^ k % 2)
set_in_byte b j k hj hk c =
    rw (bit_value j hj, bit_value k hk) (ground (arith, rw (bit_value j hj) at c))

-- Setting a clear bit leaves every other bit as it is.
pub bit_at-set_bit :
    (bitmap : Buffer) (j k : ℕ)
    → bit_at bitmap j ≡ 0
    → bit_at (set_bit bitmap j) k ≡ (if k == j then 1 else bit_at bitmap k)
unfolding set_bit
bit_at-set_bit bitmap j k c = elim (Bool-cases (k / 8 == j / 8)) [
  | inl same_byte ↦
      let same : k / 8 ≡ j / 8 = ground arith in
      let value = set_in_byte (bitmap (j / 8)) (j % 8) (k % 8) (omega arith) (omega arith) c in
      let index : (k % 8 == j % 8) ≡ (k == j) = ground arith in rw (same_byte, same, ← index) value
  | inr other_byte ↦ let index : (k == j) ≡ false = ground arith in rw (other_byte, index) refl
]
