-- ===== src/Kmalloc/Resize.antt =====
-- `krealloc` of kernel/src/mm/kmalloc.c: it keeps the block where it is large enough, and otherwise
-- moves the data to a new block and frees the old one.
use freecore.Prelude.{
  ℕ, ◌+◌, ◌-◌, ◌%◌, ◌≤◌, ◌<◌, ◌≡◌, ap, ◌∙◌, true, false, ◌==◌, leb, List, ◌∷◌, ◌++◌, arith, Option,
  some, none, subst,
}
use freecore.Memory.{Memory, Ptr, null, sub_word, word_mod}
use freecore.Minstd.{memcpy}
use freecore.Minstd.Block.{memcpy-moved, moved}
use freecore.Kmalloc.{header_size, heap_end, Mm, kmalloc, krealloc, move_block, kfree}
use freecore.Kmalloc.Policy.{
  used_total, Block, block, total, total-append, Place, blocks, join, granted, cut_off, first_fit,
  IsFit, Fits, first_fit-Fits,
}
use freecore.Kmalloc.Blocks.{IsBlock, Chain}
use freecore.Kmalloc.Heap.{IsPlaced, IsHeap, Chain-total, Chain-data, Chain-cut, Chain-aligned}
use freecore.Kmalloc.Refine.{request, after, Answers, IsGranted, kmalloc_refines}
use freecore.Kmalloc.Release.{IsReleased, kfree-IsReleased, data_at, validate_block-IsBlock}
use freecore.Kmalloc.Kept.{IsKept, granted-le, carve-IsKept}

-- What an answered `krealloc` leaves that had to move: a new pointer, behind the header of the block at
-- `v`; a well-formed heap that is the list with that block granted, in which the old block, still at its
-- place, is free and joined with a free block behind it; and behind the pointer the data of the old block.
pub record IsMoved (kernel_heap : Ptr) (s : Mm) (size : ℕ) (w v : Place) (r : Option (Ptr × Mm))
    : Type 0 where
  pub state : Mm
  pub front : List Block
  pub back : List Block
  pub answer : r ≡ some (kernel_heap + total v.front + header_size, state)
  pub granted_list : after (request size) v ≡ front ++ (w.here ∷ back)
  pub old_place : total front ≡ total w.front
  pub heap : IsHeap kernel_heap state (front ++ join w.here.size back)
  pub copied :
      (i : ℕ)
      → i < w.here.size - header_size
      → state.memory (kernel_heap + total v.front + header_size + i)
        ≡ s.memory (kernel_heap + total w.front + header_size + i)

module _ (kernel_heap : Ptr) (s : Mm) (w : Place) (size : ℕ) (placed : IsPlaced kernel_heap)
    (h : IsHeap kernel_heap s (blocks w)) (live : w.here.used ≡ true) (positive : 0 < size) where
  abbrev pub old : Ptr
  old = kernel_heap + total w.front + header_size

  abbrev pub capacity : ℕ
  capacity = w.here.size - header_size

  old-IsBlock : IsBlock s.memory (kernel_heap + total w.front) w.here
  old-IsBlock =
      (Chain-cut s.memory kernel_heap w.front (w.here ∷ w.back) (heap_end kernel_heap) h.chain).1.0

  old_end : kernel_heap + total w.front + w.here.size ≤ heap_end kernel_heap
  old_end =
      let end = heap_end kernel_heap in
      let (front, rest) = Chain-cut s.memory kernel_heap w.front (w.here ∷ w.back) end h.chain in
      omega
        (arith, Chain-total s.memory (kernel_heap + total w.front + w.here.size) w.back end rest.1)

  -- `krealloc` of a used block to a size of at least 1 that the block has room for returns the same
  -- pointer and changes nothing.
  krealloc-keep : size ≤ capacity → krealloc kernel_heap old size s ≡ some (old, s)
  unfolding krealloc
  krealloc-keep small =
      let nonnull : (old == null) ≡ false = ground arith in
      let nonzero : (size == 0) ≡ false = ground arith in
      let header : sub_word old header_size ≡ kernel_heap + total w.front =
        omega (arith, placed.below_end, old_end) in
      let valid =
        validate_block-IsBlock kernel_heap placed s.memory (kernel_heap + total w.front) w.here
          old-IsBlock (omega arith) old_end in
      let room : sub_word w.here.size header_size ≡ capacity =
        omega (arith, old-IsBlock.room, old_end, placed.below_end) in
      let test : leb size capacity ≡ true = ground arith in
      simp (nonnull, nonzero, header, valid, old-IsBlock.size, room, test)

  krealloc-step :
      capacity < size
      → krealloc kernel_heap old size s
        ≡ move_block kernel_heap old capacity (kmalloc kernel_heap size s)
  unfolding krealloc
  krealloc-step large =
      let nonnull : (old == null) ≡ false = ground arith in
      let nonzero : (size == 0) ≡ false = ground arith in
      let header : sub_word old header_size ≡ kernel_heap + total w.front =
        omega (arith, placed.below_end, old_end) in
      let valid =
        validate_block-IsBlock kernel_heap placed s.memory (kernel_heap + total w.front) w.here
          old-IsBlock (omega arith) old_end in
      let room : sub_word w.here.size header_size ≡ capacity =
        omega (arith, old-IsBlock.room, old_end, placed.below_end) in
      let test : leb size capacity ≡ false = ground arith in
      simp (nonnull, nonzero, header, valid, old-IsBlock.size, room, test)

  module _ (v : Place) (large : capacity < size) (small : size ≤ word_mod - 32)
      (fit : IsFit (request size) (blocks w) v)
      (g : IsGranted kernel_heap s (request size) v (kmalloc kernel_heap size s)) where
    abbrev new : Ptr
    new = kernel_heap + total v.front + header_size

    abbrev copy : Memory
    copy = (memcpy new old capacity g.state.memory).1

    abbrev copied_state : Mm
    copied_state = record g.state { memory = copy }

    kept : IsKept (request size) w.front w.here v.front v.here v.back
    kept =
        carve-IsKept (request size) w.front w.here w.back v.front v.here v.back fit.split live
          fit.free fit.enough

    new_room : size + header_size ≤ granted (request size) v.here
    new_room = ground (arith, fit.enough)

    new_end : kernel_heap + total v.front + v.here.size ≤ heap_end kernel_heap
    new_end = omega (
      arith,
      Chain-total s.memory kernel_heap (blocks w) (heap_end kernel_heap) h.chain,
      ap total fit.split,
      total-append v.front (v.here ∷ v.back),
    )

    copy-moved : (a : Ptr) → copy a ≡ moved g.state.memory new old capacity a
    copy-moved =
        (memcpy-moved new old capacity g.state.memory (omega arith) (omega arith)
          (omega (arith, new_end, fit.enough, placed.below_end))
          (omega (arith, old_end, old-IsBlock.room, placed.below_end))).1

    copied-IsHeap : IsHeap kernel_heap copied_state (kept.front ++ (w.here ∷ kept.back))
    copied-IsHeap = record {
      ready = g.heap.ready;
      chain =
          subst (λ l. Chain copy kernel_heap l (heap_end kernel_heap)) kept.list
            (Chain-data g.state.memory copy kernel_heap v.front
              (block (granted (request size) v.here) true) (cut_off (request size) v.here ++ v.back)
              (heap_end kernel_heap) (λ a o. ground (arith, copy-moved a, new_room)) g.heap.chain);
      accounted = g.heap.accounted ∙ ap used_total kept.list;
    }

    abbrev kept_place : Place
    kept_place = record { front = kept.front; here = w.here; back = kept.back }

    old_kept : data_at kernel_heap placed copied_state kept_place copied-IsHeap ≡ old
    old_kept = omega (arith, kept.place)

    released :
        IsReleased kernel_heap placed copied_state kept_place (kfree kernel_heap old copied_state)
    released =
        subst
          (λ p.
            IsReleased kernel_heap placed copied_state kept_place
              (kfree kernel_heap p copied_state))
          old_kept (kfree-IsReleased kernel_heap placed copied_state kept_place copied-IsHeap live)

    -- The places of the two blocks are multiples of 16, so blocks that do not meet leave room for a
    -- header between them.
    old_aligned : total w.front % 16 ≡ 0
    old_aligned =
        let end = heap_end kernel_heap in
        let (front, rest) = Chain-cut s.memory kernel_heap w.front (w.here ∷ w.back) end h.chain in
        Chain-aligned s.memory kernel_heap w.front (kernel_heap + total w.front) front

    new_aligned : total v.front % 16 ≡ 0
    new_aligned =
        let end = heap_end kernel_heap in
        let chain = subst (λ l. Chain s.memory kernel_heap l end) fit.split h.chain in
        let (front, rest) = Chain-cut s.memory kernel_heap v.front (v.here ∷ v.back) end chain in
        Chain-aligned s.memory kernel_heap v.front (kernel_heap + total v.front) front

    copied_data :
        (i : ℕ)
        → i < capacity
        → (kfree kernel_heap old copied_state).memory (new + i) ≡ s.memory (old + i)
    copied_data i lt =
        let small_grant = granted-le (request size) v.here fit.enough in
        released.same (new + i)
          (omega (arith, kept.place, kept.apart, new_room, small_grant, old-IsBlock.room))
          (omega (
            arith, kept.place, kept.apart, old_aligned, new_aligned, old-IsBlock.aligned,
            old-IsBlock.room, new_room, small_grant,
          ))
        ∙ copy-moved (new + i)
        ∙ moved_at
        ∙ g.outside (old + i) (omega (arith, kept.apart, old-IsBlock.room))
      where
        moved_at : moved g.state.memory new old capacity (new + i) ≡ g.state.memory (old + i)
        moved_at = ground arith

    krealloc-IsMoved : IsMoved kernel_heap s size w v (krealloc kernel_heap old size s)
    unfolding move_block
    krealloc-IsMoved =
        let nonnull : (new == null) ≡ false = ground arith in
        record {
          state = kfree kernel_heap old copied_state;
          front = kept.front;
          back = kept.back;
          answer = krealloc-step large ∙ simp (g.answer, nonnull);
          granted_list = kept.list;
          old_place = kept.place;
          heap = released.heap;
          copied = copied_data;
        }

  -- The answer that the policy asks for where the block is too small.
  abbrev pub Resizes : Option Place → Option (Ptr × Mm) → Type 0
  Resizes none r = r ≡ some (null, s)
  Resizes (some v) r = IsMoved kernel_heap s size w v r

  krealloc-none :
      capacity < size
      → kmalloc kernel_heap size s ≡ some (null, s)
      → krealloc kernel_heap old size s ≡ some (null, s)
  unfolding move_block
  krealloc-none large e = krealloc-step large ∙ simp e

  krealloc-Resizes :
      (o : Option Place)
      → capacity < size
      → size ≤ word_mod - 32
      → Fits (request size) (blocks w) o
      → Answers kernel_heap s (request size) o (kmalloc kernel_heap size s)
      → Resizes o (krealloc kernel_heap old size s)
  krealloc-Resizes none large small fit a = krealloc-none large a
  krealloc-Resizes (some v) large small fit a = krealloc-IsMoved v large small fit a

  -- `krealloc` of a used block, to a size of up to 2^64 - 32 that the block has no room for, is
  -- answered as the first fit in the list of blocks says: with NULL and an unchanged state, or with a
  -- new block that holds the old data, in a well-formed heap of the list in which that block was granted
  -- and the old block, at the place where it was, is free and joined with a free block behind it.
  pub krealloc_refines :
      capacity < size
      → size ≤ word_mod - 32
      → Resizes (first_fit (request size) (blocks w)) (krealloc kernel_heap old size s)
  krealloc_refines large small =
      krealloc-Resizes (first_fit (request size) (blocks w)) large small
        (first_fit-Fits (request size) (blocks w))
        (kmalloc_refines kernel_heap s (blocks w) size placed h positive small)
