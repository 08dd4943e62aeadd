-- ===== src/Kmalloc/Overflow.antt =====
-- Requests near the largest `size_t`, at which the arithmetic of `kmalloc` in
-- kernel/src/mm/kmalloc.c wraps.
use freecore.Prelude.{
  ℕ, zero, suc, ◌+◌, ◌-◌, ◌^◌, ◌≤◌, ◌<◌, ◌≡◌, refl, ap, ◌∙◌, true, false, ◌==◌, ltb, leb, List, [],
  ◌∷◌, ◌++◌, arith, inl, some, none, lt→ltb,
}
use freecore.Memory.{Memory, Ptr, add_word, sub_word, word_mod}
use freecore.Memory.Words.{SameOff, load64-store64, load32-store32}
use freecore.Kmalloc.{
  alloc_magic, header_size, min_alloc_size, heap_end, size_at, magic_at, used_at, set_size,
  set_magic, set_used, Mm, kmalloc, total_size, find_free_block, find_loop, take_block, split_block,
  diverges, search_fuel,
}
use freecore.Kmalloc.Policy.{Block, total, Place, blocks, fits, first_fit, first_fit-Fits}
use freecore.Kmalloc.Blocks.{
  IsBlock, Chain, used_at-set_used, size_at-set_used, magic_at-set_used, magic_at-set_size,
  set_used-SameOff, set_magic-SameOff, set_size-SameOff,
}
use freecore.Kmalloc.Heap.{
  IsPlaced, IsHeap, Chain-total, Chain-cut, Chain-SameOn, address, find_free_block-first_fit,
}
use freecore.Kmalloc.Refine.{Answers, take_block-Answers}

-- A request within 15 bytes of the largest `size_t` is answered as a request for a bare header: the
-- rounding wraps to 0, and the block that is granted need have no room for data at all.
kmalloc_rounds_to_zero :
    (kernel_heap : Ptr) (s : Mm) (bs : List Block) (size : ℕ)
    → IsPlaced kernel_heap
    → IsHeap kernel_heap s bs
    → word_mod - 15 ≤ size
    → size < word_mod
    → Answers kernel_heap s header_size (first_fit header_size bs) (kmalloc kernel_heap size s)
unfolding kmalloc
kmalloc_rounds_to_zero kernel_heap s bs size placed h low high =
    let exact : total_size size ≡ header_size = omega arith in
    let nonzero : (size == 0) ≡ false = ground arith in
    simp (nonzero, h.ready, exact, find_free_block-first_fit kernel_heap s bs header_size placed h)
      (take_block-Answers kernel_heap s bs header_size placed h (omega arith) (omega arith)
        (first_fit header_size bs) (first_fit-Fits header_size bs))

abbrev pub AllUsed : List Block → Type 0
AllUsed [] = Unit
AllUsed (b ∷ bs) = (b.used ≡ true) × AllUsed bs

-- A header with size 0 that is marked as used, in front of which all blocks are used.
pub record IsStuck (kernel_heap : Ptr) (s : Mm) (front : List Block) : Type 0 where
  pub ready : s.heap_initialized ≡ true
  pub chain : Chain s.memory kernel_heap front (kernel_heap + total front)
  pub all_used : AllUsed front
  pub within : kernel_heap + total front < heap_end kernel_heap
  pub magic : magic_at s.memory (kernel_heap + total front) ≡ alloc_magic
  pub size : size_at s.memory (kernel_heap + total front) ≡ 0
  pub used : used_at s.memory (kernel_heap + total front) ≡ true

module _ (kernel_heap : Ptr) (placed : IsPlaced kernel_heap) (m : Memory) (n : ℕ) (q : Ptr)
    (within : q < heap_end kernel_heap) where
  -- The walk stays at such a header for as long as it runs.
  find_loop-stay :
      magic_at m q ≡ alloc_magic
      → size_at m q ≡ 0
      → used_at m q ≡ true
      → (fuel : ℕ) → find_loop kernel_heap fuel m n q ≡ diverges
  unfolding find_loop
  find_loop-stay a b c zero = refl
  find_loop-stay a b c (suc fuel) =
      let low : ltb q (heap_end kernel_heap) ≡ true = lt→ltb _ _ within in
      let stay : add_word q 0 ≡ q = omega (arith, placed.below_end) in
      simp (low, a, b, c, stay) (find_loop-stay a b c fuel)

  find_loop-reach :
      ((fuel : ℕ) → find_loop kernel_heap fuel m n q ≡ diverges)
      → (fuel : ℕ) (p : Ptr) (xs : List Block) → Chain m p xs q
      → AllUsed xs
      → find_loop kernel_heap fuel m n p ≡ diverges
  unfolding find_loop
  find_loop-reach stay zero p xs c u = refl
  find_loop-reach stay (suc fuel) p [] c u = rw c (stay (suc fuel))
  find_loop-reach stay (suc fuel) p (b ∷ bs) c u =
      let span = Chain-total m p (b ∷ bs) q c in
      let low : ltb p (heap_end kernel_heap) ≡ true = lt→ltb _ _ (omega arith) in
      let step : add_word p b.size ≡ p + b.size = omega (arith, placed.below_end) in
      let used : used_at m p ≡ true = c.0.used ∙ u.0 in
      simp (low, c.0.magic, used, c.0.size, step)
        (find_loop-reach stay fuel (p + b.size) bs c.1 u.1)

-- On such a heap no request returns.
pub kmalloc_diverges :
    (kernel_heap : Ptr) (s : Mm) (front : List Block) (size : ℕ)
    → IsPlaced kernel_heap
    → IsStuck kernel_heap s front
    → 0 < size
    → kmalloc kernel_heap size s ≡ none
unfolding kmalloc find_free_block take_block
kmalloc_diverges kernel_heap s front size placed h positive =
    let q = kernel_heap + total front in
    let n = total_size size in
    let nonzero : (size == 0) ≡ false = ground arith in
    let stay = find_loop-stay kernel_heap placed s.memory n q h.within h.magic h.size h.used in
    let walk =
      find_loop-reach kernel_heap placed s.memory n q h.within stay search_fuel kernel_heap front
        h.chain h.all_used in
    simp (nonzero, h.ready, walk)

-- The block after `kmalloc` has cut it for a total of 0 bytes: its size is 0, its other fields those
-- of a used block, and no byte outside its header differs.
record IsCollapsed (q : Ptr) (m m' : Memory) : Type 0 where
  magic : magic_at m' q ≡ alloc_magic
  size : size_at m' q ≡ 0
  used : used_at m' q ≡ true
  outside : SameOff q 16 m m'

split_block-IsCollapsed :
    (m : Memory) (q : Ptr) (b : Block)
    → IsBlock m q b
    → min_alloc_size ≤ b.size
    → q < 2 ^ 64
    → b.size < 2 ^ 64
    → IsCollapsed q m (split_block m q 0)
unfolding split_block
split_block-IsCollapsed m q b v enough low small =
    let fits : leb min_alloc_size b.size ≡ true = ground arith in
    let there : add_word q 0 ≡ q = omega arith in
    let m1 = set_size m q (sub_word b.size 0) in
    let m2 = set_magic m1 q alloc_magic in
    let m3 = set_used m2 q false in
    let m4 = set_size m3 q 0 in
    rw (v.size, fits, there)
      (record {
        magic =
            magic_at-set_used m4 q true
            ∙ magic_at-set_size m3 q 0
            ∙ magic_at-set_used m2 q false
            ∙ load32-store32 m1 (q + 8) alloc_magic (omega arith);
        size = size_at-set_used m4 q true ∙ load64-store64 m3 q 0 (omega arith);
        used = used_at-set_used m4 q true;
        outside = λ a h.
            set_used-SameOff m4 q true a h
            ∙ set_size-SameOff m3 q 0 a h
            ∙ set_used-SameOff m2 q false a h
            ∙ set_magic-SameOff m1 q alloc_magic a h
            ∙ set_size-SameOff m q (sub_word b.size 0) a h;
      })

first_fit_zero :
    (xs : List Block) (b : Block) (ys : List Block)
    → AllUsed xs
    → b.used ≡ false
    → first_fit 0 (xs ++ (b ∷ ys)) ≡ some (record { front = xs; here = b; back = ys })
unfolding first_fit
first_fit_zero [] b ys u f = ground arith
first_fit_zero (x ∷ xs) b ys u f =
    let skip : fits 0 x ≡ false = ground (arith, u.0) in simp (skip, first_fit_zero xs b ys u.1 f)

-- A request of 16 to 31 bytes less than 2 ^ 64 wraps to a total of 0. It takes the first free block,
-- writes a size of 0 into its header, and from then on no request at all returns: the search stays
-- at that header.
pub kmalloc_collapses :
    (kernel_heap : Ptr) (s : Mm) (w : Place) (size : ℕ)
    → IsPlaced kernel_heap
    → IsHeap kernel_heap s (blocks w)
    → AllUsed w.front
    → w.here.used ≡ false
    → min_alloc_size ≤ w.here.size
    → word_mod - 31 ≤ size
    → size ≤ word_mod - 16
    → (s' : Mm) × (kmalloc kernel_heap size s
        ≡ some (kernel_heap + total w.front + header_size, s'))
      × ((later : ℕ) → 0 < later → kmalloc kernel_heap later s' ≡ none)
unfolding kmalloc take_block
kmalloc_collapses kernel_heap s w size placed h used free enough low high =
    let end = heap_end kernel_heap in
    let q = kernel_heap + total w.front in
    let m = s.memory in
    let (front, rest) = Chain-cut m kernel_heap w.front (w.here ∷ w.back) end h.chain in
    let span = Chain-total m (q + w.here.size) w.back end rest.1 in
    let exact : total_size size ≡ 0 = omega arith in
    let nonzero : (size == 0) ≡ false = ground arith in
    let search =
      find_free_block-first_fit kernel_heap s (blocks w) 0 placed h
      ∙ ap (address kernel_heap) (first_fit_zero w.front w.here w.back used free) in
    let done =
      split_block-IsCollapsed m q w.here rest.0 enough (omega (arith, placed.below_end))
        (omega (arith, placed.below_end)) in
    let m' = split_block m q 0 in
    let s' : Mm = record s { memory = m'; heap_used = add_word s.heap_used (size_at m' q) } in
    let behind : add_word q header_size ≡ q + header_size = omega (arith, placed.below_end) in
    (
      s',
      simp (nonzero, h.ready, exact, search, behind),
      λ later positive.
          kmalloc_diverges kernel_heap s' w.front later placed
            (record {
              ready = h.ready;
              chain =
                  Chain-SameOn m m' kernel_heap w.front q (λ a l u. done.outside a (inl u)) front;
              all_used = used;
              within = omega (arith, rest.0.room);
              magic = done.magic;
              size = done.size;
              used = done.used;
            })
            positive,
    )
