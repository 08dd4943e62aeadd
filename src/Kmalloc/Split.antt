-- ===== src/Kmalloc/Split.antt =====
-- `split_block` of kernel/src/mm/kmalloc.c against the cut of the policy.
use freecore.Prelude.{
  ℕ, ◌+◌, ◌-◌, ◌%◌, ◌^◌, ◌≤◌, ◌<◌, ◌≡◌, refl, ◌∙◌, Bool, true, false, leb, arith, inl, inr,
  Bool-cases, leb→le,
}
use freecore.Memory.{Memory, Ptr, add_word, sub_word}
use freecore.Memory.Words.{SameOff}
use freecore.Kmalloc.{
  alloc_magic, header_size, min_alloc_size, kernel_heap_size, size_at, set_size, set_magic,
  set_used, split_block,
}
use freecore.Kmalloc.Policy.{Block, block, carve, granted}
use freecore.Kmalloc.Blocks.{
  IsBlock, Chain, IsBlock-SameOn, new_block, resized_block, marked_block, set_used-SameOff,
  set_magic-SameOff, set_size-SameOff,
}

-- What `split_block` has done to the block `b` at `q`: it reads as the pieces that the policy
-- cuts, and nothing outside it is written.
pub record IsCarved (n : ℕ) (q : Ptr) (b : Block) (m m' : Memory) : Type 0 where
  pub pieces : Chain m' q (carve n b) (q + b.size)
  pub size : size_at m' q ≡ granted n b
  pub outside : SameOff q b.size m m'

-- The three stores of a header.
abbrev write_header : Memory → Ptr → ℕ → Bool → Memory
write_header m p n u = set_used (set_magic (set_size m p n) p alloc_magic) p u

write_header-SameOff : (m : Memory) (p n : ℕ) (u : Bool) → SameOff p 16 m (write_header m p n u)
write_header-SameOff m p n u a h =
    let m1 = set_size m p n in
    let m2 = set_magic m1 p alloc_magic in
    set_used-SameOff m2 p u a h
    ∙ set_magic-SameOff m1 p alloc_magic a h
    ∙ set_size-SameOff m p n a h

-- A block cut in two: the new header behind, then the size and the mark of the old one.
split_header :
    (m : Memory) (q n : ℕ) (b : Block)
    → IsBlock m q b
    → n + min_alloc_size ≤ b.size
    → header_size ≤ n
    → n % 16 ≡ 0
    → b.size < 2 ^ 64
    → let m' = set_used (set_size (write_header m (q + n) (b.size - n) false) q n) q true in
      IsBlock m' q (block n true)
      × IsBlock m' (q + n) (block (b.size - n) false)
      × SameOff q b.size m m'
split_header m q n b v fit r al small =
    let m3 = write_header m (q + n) (b.size - n) false in
    let m4 = set_size m3 q n in
    let off3 = write_header-SameOff m (q + n) (b.size - n) false in
    let old : IsBlock m3 q b = IsBlock-SameOn (λ a l u. off3 a (omega arith)) v in
    let new : IsBlock m3 (q + n) (block (b.size - n) false) =
      new_block m (q + n) (b.size - n) false (omega arith) (omega arith)
        (omega (arith, v.aligned)) in
    (
      marked_block true (resized_block n (omega arith) r al old),
      IsBlock-SameOn
          (λ a l u.
            set_used-SameOff m4 q true a (omega arith) ∙ set_size-SameOff m3 q n a (omega arith))
          new,
      λ a h.
          set_used-SameOff m4 q true a (omega arith)
          ∙ set_size-SameOff m3 q n a (omega arith)
          ∙ off3 a (omega arith),
    )

pub split_block-IsCarved :
    (m : Memory) (q n : ℕ) (b : Block)
    → IsBlock m q b
    → n ≤ b.size
    → header_size ≤ n
    → n % 16 ≡ 0
    → q + b.size < 2 ^ 64
    → b.size ≤ kernel_heap_size
    → IsCarved n q b m (split_block m q n)
unfolding split_block
split_block-IsCarved m q n b v enough r al small within =
    elim (Bool-cases (leb (n + min_alloc_size) b.size)) [
      | inl e ↦
          let fit : n + min_alloc_size ≤ b.size = leb→le _ _ e in
          let (here, behind, outside) = split_header m q n b v fit r al (omega arith) in
          let sum : add_word n min_alloc_size ≡ n + min_alloc_size = omega arith in
          let next : add_word q n ≡ q + n = omega arith in
          let left : sub_word b.size n ≡ b.size - n = omega arith in
          let end : q + n + (b.size - n) ≡ q + b.size = omega arith in
          rw (v.size, sum, e, next, left)
            (record {
              pieces = rw e (here, (behind, end));
              size = rw e here.size;
              outside = outside;
            })
      | inr e ↦
          let sum : add_word n min_alloc_size ≡ n + min_alloc_size = omega arith in
          let here = marked_block true v in
          rw (v.size, sum, e)
            (record {
              pieces = rw e (here, refl);
              size = rw e here.size;
              outside = λ a h. set_used-SameOff m q true a (omega (arith, v.room));
            })
    ]
