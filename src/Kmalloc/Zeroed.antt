-- ===== src/Kmalloc/Zeroed.antt =====
-- `kzalloc` of kernel/src/mm/kmalloc.c, and a request that is freed again.
use freecore.Prelude.{
  ℕ, ◌+◌, ◌-◌, ◌≤◌, ◌<◌, ◌≡◌, refl, sym, true, false, ◌==◌, leb, List, ◌++◌, arith, Option, some,
  subst,
}
use freecore.Memory.{Ptr, null, word_mod}
use freecore.Memory.Words.{SameOff}
use freecore.Minstd.{memset}
use freecore.Minstd.Block.{memset_lem}
use freecore.Kmalloc.{
  header_size, min_alloc_size, heap_end, Mm, kmalloc, kzalloc, clear_data, kfree,
}
use freecore.Kmalloc.Policy.{
  Block, block, total, Place, join, granted, cut_off, first_fit, IsFit, Fits, first_fit-Fits,
}
use freecore.Kmalloc.Heap.{IsPlaced, IsHeap, Chain-data}
use freecore.Kmalloc.Refine.{request, after, Answers, IsGranted, kmalloc_refines}
use freecore.Kmalloc.Release.{kfree-IsReleased, data_at}

-- The place of the granted block in the new list.
abbrev pub granted_place : ℕ → Place → Place
granted_place n w = record {
  front = w.front;
  here = block (granted n w.here) true;
  back = cut_off n w.here ++ w.back;
}

-- What an answered `kzalloc` leaves: `size` zero bytes behind the header, and all else as after
-- `kmalloc`.
pub record IsZeroed (kernel_heap : Ptr) (s : Mm) (size : ℕ) (w : Place) (r : Option (Ptr × Mm))
    : Type 0 where
  pub state : Mm
  pub answer : r ≡ some (kernel_heap + total w.front + header_size, state)
  pub heap : IsHeap kernel_heap state (after (request size) w)
  pub outside : SameOff (kernel_heap + total w.front) w.here.size s.memory state.memory
  pub zeroed :
      (a : Ptr)
      → kernel_heap + total w.front + header_size ≤ a
      → a < kernel_heap + total w.front + header_size + size
      → state.memory a ≡ 0

module _ (kernel_heap : Ptr) (s : Mm) (bs : List Block) (size : ℕ) (w : Place)
    (placed : IsPlaced kernel_heap) (h : IsHeap kernel_heap s bs) (positive : 0 < size)
    (small : size ≤ word_mod - 32) (found : first_fit (request size) bs ≡ some w) where
  granted_here : IsGranted kernel_heap s (request size) w (kmalloc kernel_heap size s)
  granted_here =
      subst (λ o. Answers kernel_heap s (request size) o (kmalloc kernel_heap size s)) found
        (kmalloc_refines kernel_heap s bs size placed h positive small)

  IsFit-here : IsFit (request size) bs w
  IsFit-here = subst (Fits (request size) bs) found (first_fit-Fits (request size) bs)

  -- Where the first fit finds a block for 1 to 2^64 - 32 bytes on a well-formed heap, `kzalloc` grants
  -- the same block as `kmalloc`, with its `size` bytes zero.
  pub kzalloc-IsZeroed : IsZeroed kernel_heap s size w (kzalloc kernel_heap size s)
  unfolding kzalloc clear_data
  kzalloc-IsZeroed =
      let g = granted_here in
      let p = kernel_heap + total w.front + header_size in
      let nonnull : (p == null) ≡ false = ground arith in
      let m' = (memset p 0 size g.state.memory).1 in
      let bytes = (memset_lem p 0 size g.state.memory (omega arith)).1 in
      let room : size + header_size ≤ granted (request size) w.here =
        ground (arith, IsFit-here.enough) in
      record {
        state = record g.state { memory = m' };
        answer = rw (g.answer, nonnull);
        heap = record {
          ready = g.heap.ready;
          chain =
              Chain-data g.state.memory m' kernel_heap w.front
                (block (granted (request size) w.here) true)
                (cut_off (request size) w.here ++ w.back) (heap_end kernel_heap)
                (λ a o. ground (arith, bytes a)) g.heap.chain;
          accounted = g.heap.accounted;
        };
        outside = λ a o. ground (arith, bytes a, g.outside a o, IsFit-here.enough);
        zeroed = λ a l u. ground (arith, bytes a);
      }

  -- A block that was cut off for such a request and is freed at once leaves the list of blocks, and the
  -- count of used bytes, as they were.
  pub kfree-kmalloc :
      request size + min_alloc_size ≤ w.here.size
      → (s' : Mm) × (kmalloc kernel_heap size s
          ≡ some (kernel_heap + total w.front + header_size, s'))
        × IsHeap kernel_heap (kfree kernel_heap (kernel_heap + total w.front + header_size) s') bs
  kfree-kmalloc cut =
      let n = request size in
      let g = granted_here in
      let gp = granted_place n w in
      let freed = kfree-IsReleased kernel_heap placed g.state gp g.heap refl in
      let can : leb (n + min_alloc_size) w.here.size ≡ true = ground arith in
      let whole : n + (w.here.size - n) ≡ w.here.size = omega arith in
      let back : w.front ++ join (granted n w.here) (cut_off n w.here ++ w.back) ≡ bs =
        simp (can, whole, ← IsFit-here.free) (sym IsFit-here.split) in
      (
        g.state,
        g.answer,
        subst
            (λ l.
              IsHeap kernel_heap
                (kfree kernel_heap (data_at kernel_heap placed g.state gp g.heap) g.state) l)
            back freed.heap,
      )
