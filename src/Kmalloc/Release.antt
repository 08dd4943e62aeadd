-- ===== src/Kmalloc/Release.antt =====
-- `kfree` of kernel/src/mm/kmalloc.c: it gives a block back to the list, joined with a free block
-- behind it, and refuses what is no used block.
use freecore.Prelude.{
  ℕ, ◌+◌, ◌≤◌, ◌<◌, ◌≡◌, refl, ap, ◌∙◌, true, false, not, ◌||◌, ◌==◌, ltb, leb, if◌then◌else◌, List,
  [], ◌∷◌, ◌++◌, arith, inl, inr, ◌⊎◌, Bool-cases, subst,
}
use freecore.Memory.{Memory, Ptr, null, add_word, sub_word}
use freecore.Kmalloc.{
  header_size, heap_end, set_size, set_magic, set_used, Mm, kfree, validate_block, merge_blocks,
}
use freecore.Kmalloc.Policy.{
  Block, block, total, used_total, used_total-append, used_total-le, Place, blocks, join,
}
use freecore.Kmalloc.Blocks.{
  IsBlock, Chain, IsBlock-SameOn, resized_block, marked_block, set_used-SameOff, set_magic-SameOff,
  set_size-SameOff,
}
use freecore.Kmalloc.Heap.{IsPlaced, IsHeap, Chain-total, Chain-append, Chain-cut, Chain-SameOn}

-- Only the headers at `q` and at `q + n` may differ.
abbrev pub SameButHeaders : Ptr → ℕ → Memory → Memory → Type 0
SameButHeaders q n m m' =
    (a : Ptr) → (a < q) ⊎ (q + 16 ≤ a) → (a < q + n) ⊎ (q + n + 16 ≤ a) → m' a ≡ m a

module _ (kernel_heap : Ptr) (placed : IsPlaced kernel_heap) where
  -- A header in the chain is valid.
  pub validate_block-IsBlock :
      (m : Memory) (q : Ptr) (b : Block)
      → IsBlock m q b
      → kernel_heap ≤ q
      → q + b.size ≤ heap_end kernel_heap
      → validate_block kernel_heap m q ≡ true
  unfolding validate_block
  validate_block-IsBlock m q b v low high =
      let inside : (ltb q kernel_heap || leb (heap_end kernel_heap) q) ≡ false =
        ground (arith, v.room) in
      let fits : (ltb b.size header_size || ltb (heap_end kernel_heap) (add_word q b.size))
          ≡ false =
        ground (arith, v.room, placed.below_end) in
      rw (inside, v.magic, v.size, fits)

  record IsMerged (m : Memory) (q : Ptr) (n : ℕ) (bs : List Block) (m' : Memory) : Type 0 where
    chain : Chain m' q (join n bs) (heap_end kernel_heap)
    same : SameButHeaders q n m m'

  merge_blocks-IsMerged :
      (m : Memory) (q : Ptr) (n : ℕ) (bs : List Block)
      → kernel_heap ≤ q
      → IsBlock m q (block n false)
      → Chain m (q + n) bs (heap_end kernel_heap)
      → IsMerged m q n bs (merge_blocks kernel_heap m q)
  unfolding merge_blocks
  merge_blocks-IsMerged m q n [] low v c =
      let next : add_word q n ≡ heap_end kernel_heap = omega (arith, placed.below_end) in
      let stop : leb (heap_end kernel_heap) (heap_end kernel_heap) ≡ true = ground arith in
      rw (v.size, next, stop) (record { chain = (v, c); same = λ a h k. refl })
  merge_blocks-IsMerged m q n (b ∷ bs) low v c =
      let span = Chain-total m (q + n) (b ∷ bs) (heap_end kernel_heap) c in
      let next : add_word q n ≡ q + n = omega (arith, placed.below_end) in
      let go : leb (heap_end kernel_heap) (q + n) ≡ false = ground (arith, span, c.0.room) in
      let valid = validate_block-IsBlock m (q + n) b c.0 (omega arith) (omega arith) in
      let m1 = set_size m q (n + b.size) in
      let m2 = set_magic m1 (q + n) 0 in
      let sum : add_word n b.size ≡ n + b.size = omega (arith, placed.below_end) in
      let old1 = set_size-SameOff m q (n + b.size) in
      let old2 = set_magic-SameOff m1 (q + n) 0 in
      simp (v.size, next, go, valid, c.0.used, c.0.size, sum)
        (elim (Bool-cases b.used) [
          | inl e ↦ simp e (record { chain = simp e (v, c); same = λ a h k. refl })
          | inr e ↦ simp e (record {
            chain = simp e (
              IsBlock-SameOn (λ a l u. old2 a (omega (arith, v.room)))
                  (resized_block (n + b.size) (omega (arith, placed.below_end))
                    (omega (arith, v.room)) (omega (arith, v.aligned, c.0.aligned)) v),
              subst (λ p. Chain m2 p bs (heap_end kernel_heap)) (omega arith)
                  (Chain-SameOn m m2 (q + n + b.size) bs (heap_end kernel_heap)
                    (λ a l u. old2 a (omega (arith, c.0.room)) ∙ old1 a (omega (arith, v.room)))
                    c.1),
            );
            same = λ a h k. old2 a k ∙ old1 a h;
          })
        ])

  -- What the call does to a used block: the list with the block given back, and no byte of another
  -- block's data, nor of this one's, changed.
  pub record IsReleased (s : Mm) (w : Place) (s' : Mm) : Type 0 where
    pub heap : IsHeap kernel_heap s' (w.front ++ join w.here.size w.back)
    pub same : SameButHeaders (kernel_heap + total w.front) w.here.size s.memory s'.memory
    pub less : s'.heap_used + w.here.size ≡ s.heap_used

  used_total-join : (n : ℕ) (bs : List Block) → used_total (join n bs) ≡ used_total bs
  used_total-join n [] = omega arith
  used_total-join n (b ∷ bs) = ground arith

  -- The two ways into the body of `kfree` that a block of the heap takes.
  module _ (s : Mm) (w : Place) (h : IsHeap kernel_heap s (blocks w)) where
    abbrev here_at : Ptr
    here_at = kernel_heap + total w.front

    abbrev pub data_at : Ptr
    data_at = kernel_heap + total w.front + header_size

    here_within : here_at + w.here.size ≤ heap_end kernel_heap
    here_within =
        let end = heap_end kernel_heap in
        let (front, rest) = Chain-cut s.memory kernel_heap w.front (w.here ∷ w.back) end h.chain in
        omega (arith, Chain-total s.memory (here_at + w.here.size) w.back end rest.1)

    here_valid : validate_block kernel_heap s.memory here_at ≡ true
    here_valid =
        let end = heap_end kernel_heap in
        let (front, rest) = Chain-cut s.memory kernel_heap w.front (w.here ∷ w.back) end h.chain in
        validate_block-IsBlock s.memory here_at w.here rest.0 (omega arith) here_within

    header_of_data : sub_word data_at header_size ≡ here_at
    header_of_data = omega (arith, placed.below_end, here_within)

    data_nonnull : ((data_at == null) || not s.heap_initialized) ≡ false
    data_nonnull = ground (arith, h.ready)

    -- A used block of a well-formed heap is given back: the heap is the list with the block free, joined with the block
    -- behind it if that one is free; `heap_used` falls by its size; and no byte but those of the two
    -- headers changes.
    pub kfree-IsReleased : w.here.used ≡ true → IsReleased s w (kfree kernel_heap data_at s)
    unfolding kfree
    kfree-IsReleased live =
        let end = heap_end kernel_heap in
        let q = here_at in
        let (front, rest) = Chain-cut s.memory kernel_heap w.front (w.here ∷ w.back) end h.chain in
        let m = set_used s.memory q false in
        let off = set_used-SameOff s.memory q false in
        let freed = marked_block false rest.0 in
        let back =
          Chain-SameOn s.memory m (q + w.here.size) w.back end
            (λ a l u. off a (omega (arith, rest.0.room))) rest.1 in
        let merged = merge_blocks-IsMerged m q w.here.size w.back (omega arith) freed back in
        let front' =
          Chain-SameOn s.memory (merge_blocks kernel_heap m q) kernel_heap w.front q
            (λ a l u. merged.same a (inl u) (inl (omega arith)) ∙ off a (inl u)) front in
        let all =
          Chain-append (merge_blocks kernel_heap m q) kernel_heap q w.front
            (join w.here.size w.back) end front' merged.chain in
        let count : s.heap_used ≡ used_total w.front + (w.here.size + used_total w.back) =
          h.accounted
          ∙ used_total-append w.front (w.here ∷ w.back)
          ∙ ap (λ u. used_total w.front + ((if u then w.here.size else 0) + used_total w.back))
              live in
        let small = used_total-le (blocks w) in
        let span = Chain-total s.memory kernel_heap (blocks w) end h.chain in
        simp (data_nonnull, header_of_data, here_valid, rest.0.used, live, freed.size)
          (record {
            heap = record {
              ready = h.ready;
              chain = all;
              accounted = omega (
                arith,
                count,
                h.accounted,
                small,
                span,
                used_total-join w.here.size w.back,
                used_total-append w.front (join w.here.size w.back),
              );
            };
            same = λ a k l. merged.same a k l ∙ off a k;
            less = omega (arith, count, h.accounted, small, span);
          })

    -- `kfree` of the data of a free block of a well-formed heap changes nothing.
    kfree_twice : w.here.used ≡ false → kfree kernel_heap data_at s ≡ s
    unfolding kfree
    kfree_twice free =
        let end = heap_end kernel_heap in
        let (front, rest) = Chain-cut s.memory kernel_heap w.front (w.here ∷ w.back) end h.chain in
        simp (data_nonnull, header_of_data, here_valid, rest.0.used, free)
