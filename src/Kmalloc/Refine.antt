-- ===== src/Kmalloc/Refine.antt =====
-- `kmalloc` of kernel/src/mm/kmalloc.c refines the policy: it answers as the first fit does, and the
-- headers that it leaves are those of the list that the policy makes.
use freecore.Prelude.{
  ℕ, ◌+◌, ◌-◌, ◌*◌, ◌/◌, ◌%◌, ◌≤◌, ◌<◌, ◌≡◌, refl, ap, ◌∙◌, false, ◌==◌, if◌then◌else◌, List, ◌∷◌,
  ◌++◌, arith, inl, inr, Option, some, none, subst,
}
use freecore.Memory.{Memory, Ptr, null, add_word, word_mod}
use freecore.Memory.Words.{SameOff}
use freecore.Kmalloc.{
  header_size, heap_end, size_at, split_block, Mm, kmalloc, take_block, total_size,
}
use freecore.Kmalloc.Policy.{
  Block, total, used_total, used_total-append, used_total-le, carve, granted, Place, IsFit, Fits,
  first_fit, first_fit-Fits,
}
use freecore.Kmalloc.Blocks.{Chain}
use freecore.Kmalloc.Heap.{
  IsPlaced, IsHeap, Chain-total, Chain-append, Chain-cut, Chain-SameOn, address,
  find_free_block-first_fit,
}
use freecore.Kmalloc.Split.{split_block-IsCarved}

-- The list after the block at `w` was granted to a request of `n` bytes, its header counted.
abbrev pub after : ℕ → Place → List Block
after n w = w.front ++ (carve n w.here ++ w.back)

-- What an answered request leaves: its pointer, right behind the header of the block; a heap that
-- consists of the new list; and all bytes outside the block that was free as they were.
pub record IsGranted (kernel_heap : Ptr) (s : Mm) (n : ℕ) (w : Place) (r : Option (Ptr × Mm))
    : Type 0 where
  pub state : Mm
  pub answer : r ≡ some (kernel_heap + total w.front + header_size, state)
  pub heap : IsHeap kernel_heap state (after n w)
  pub outside : SameOff (kernel_heap + total w.front) w.here.size s.memory state.memory

-- The answer that the policy asks for.
abbrev pub Answers : Ptr → Mm → ℕ → Option Place → Option (Ptr × Mm) → Type 0
Answers kernel_heap s n none r = r ≡ some (null, s)
Answers kernel_heap s n (some w) r = IsGranted kernel_heap s n w r

used_total-carve :
    (n : ℕ) (b : Block) (bs : List Block)
    → used_total (carve n b ++ bs) ≡ granted n b + used_total bs
used_total-carve n b bs = ground arith

module _ (kernel_heap : Ptr) (s : Mm) (bs : List Block) (n : ℕ) (placed : IsPlaced kernel_heap)
    (h : IsHeap kernel_heap s bs) (room : header_size ≤ n) (aligned : n % 16 ≡ 0) where
  account :
      (w : Place)
      → IsFit n bs w
      → (m' : Memory) → kernel_heap + total (after n w) ≡ heap_end kernel_heap
      → size_at m' (kernel_heap + total w.front) ≡ granted n w.here
      → add_word s.heap_used (size_at m' (kernel_heap + total w.front)) ≡ used_total (after n w)
  account w fit m' t g =
      let old : used_total bs ≡ used_total w.front + used_total w.back =
        ap used_total fit.split
        ∙ used_total-append w.front (w.here ∷ w.back)
        ∙ ap (λ u. used_total w.front + ((if u then w.here.size else 0) + used_total w.back))
            fit.free
        ∙ omega arith in
      omega (
        arith,
        old,
        h.accounted,
        g,
        used_total-le (after n w),
        used_total-append w.front (carve n w.here ++ w.back),
        used_total-carve n w.here w.back,
      )

  take_block-IsGranted :
      (w : Place)
      → IsFit n bs w
      → IsGranted kernel_heap s n w (take_block s n (address kernel_heap (some w)))
  unfolding take_block
  take_block-IsGranted w fit =
      let q = kernel_heap + total w.front in
      let m = s.memory in
      let m' = split_block m q n in
      let end = heap_end kernel_heap in
      let chain = subst (λ l. Chain m kernel_heap l end) fit.split h.chain in
      let (front, rest) = Chain-cut m kernel_heap w.front (w.here ∷ w.back) end chain in
      let span = Chain-total m (q + w.here.size) w.back end rest.1 in
      let cut =
        split_block-IsCarved m q n w.here rest.0 fit.enough room aligned
          (omega (arith, placed.below_end)) (omega arith) in
      let front' = Chain-SameOn m m' kernel_heap w.front q (λ a l u. cut.outside a (inl u)) front in
      let back' =
        Chain-SameOn m m' (q + w.here.size) w.back end (λ a l u. cut.outside a (inr l)) rest.1 in
      let tail = Chain-append m' q (q + w.here.size) (carve n w.here) w.back end cut.pieces back' in
      let all = Chain-append m' kernel_heap q w.front (carve n w.here ++ w.back) end front' tail in
      record {
        state = record s { memory = m'; heap_used = add_word s.heap_used (size_at m' q) };
        answer =
            ap
              (λ p.
                some (p, record s { memory = m'; heap_used = add_word s.heap_used (size_at m' q) }))
              (omega (arith, placed.below_end, rest.0.room));
        heap = record {
          ready = h.ready;
          chain = all;
          accounted = account w fit m' (Chain-total m' kernel_heap (after n w) end all) cut.size;
        };
        outside = cut.outside;
      }

  pub take_block-Answers :
      (o : Option Place)
      → Fits n bs o
      → Answers kernel_heap s n o (take_block s n (address kernel_heap o))
  unfolding take_block
  take_block-Answers none fit = refl
  take_block-Answers (some w) fit = take_block-IsGranted w fit

-- The size that a request of `size` bytes asks the policy for: rounded up to 16, with a header.
abbrev pub request : ℕ → ℕ
request size = (size + 15) / 16 * 16 + header_size

-- On a well-formed heap `kmalloc` returns. It answers as the first fit does: NULL and an unchanged
-- state if no free block is large enough; otherwise a pointer right behind the header of the first
-- that is, after which the heap is the list that the policy makes, `heap_used` counts its used
-- blocks, and no byte outside the block that was free has changed. The size must be short of the
-- values at which the rounding or the header wraps.
pub kmalloc_refines :
    (kernel_heap : Ptr) (s : Mm) (bs : List Block) (size : ℕ)
    → IsPlaced kernel_heap
    → IsHeap kernel_heap s bs
    → 0 < size
    → size ≤ word_mod - 32
    → Answers kernel_heap s
        (request size)
        (first_fit (request size) bs)
        (kmalloc kernel_heap size s)
unfolding kmalloc
kmalloc_refines kernel_heap s bs size placed h pos_size small =
    let n = request size in
    let exact : total_size size ≡ n = omega arith in
    let nonzero : (size == 0) ≡ false = ground arith in
    simp (nonzero, h.ready, exact, find_free_block-first_fit kernel_heap s bs n placed h)
      (take_block-Answers kernel_heap s bs n placed h (omega arith) (omega arith) (first_fit n bs)
        (first_fit-Fits n bs))
