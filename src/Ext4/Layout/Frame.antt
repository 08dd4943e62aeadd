-- ===== src/Ext4/Layout/Frame.antt =====
-- The fields of the structures of kernel/src/fs/ext4/ext4.h, and the bytes of other fields.
use freecore.Prelude.{ℕ, zero, suc, ◌+◌, ◌≤◌, ◌≡◌, ◌⊎◌, refl, arith}
use freecore.Ext4.Layout.{Buffer, Layout, number, set_number, field, set_field, offset_of, width_of}

set_number_other :
    (m : ℕ) (b : Buffer) (o p v : ℕ) → (p + 1 ≤ o) ⊎ (o + m ≤ p) → set_number m b o v p ≡ b p
unfolding set_number
set_number_other m b o p v h = ground arith

number-set_number :
    (n m : ℕ) (b : Buffer) (o p v : ℕ)
    → (p + n ≤ o) ⊎ (o + m ≤ p)
    → number n (set_number m b o v) p ≡ number n b p
unfolding number
number-set_number zero m b o p v h = refl
number-set_number (suc n) m b o p v h =
    let rest = number-set_number n m b o (p + 1) v (ground arith) in
    let here = set_number_other m b o p v (ground arith) in omega (arith, rest, here)

pub field-set_field :
    (l l' : Layout) (k k' : ℕ) (b : Buffer) (p p' v : ℕ)
    → (p + offset_of l k + width_of l k ≤ p' + offset_of l' k')
      ⊎ (p' + offset_of l' k' + width_of l' k' ≤ p + offset_of l k)
    → field l k (set_field l' k' b p' v) p ≡ field l k b p
unfolding field set_field
field-set_field l l' k k' b p p' v h =
    number-set_number (width_of l k) (width_of l' k') b (p' + offset_of l' k') (p + offset_of l k) v
      h
