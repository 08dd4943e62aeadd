-- ===== src/Kmalloc/Heap.antt =====
-- The well-formed states of the kernel heap, and the search through one.
use freecore.Prelude.{
  ℕ, zero, suc, ◌+◌, ◌-◌, ◌*◌, ◌%◌, ◌^◌, ◌≤◌, ◌<◌, ◌≡◌, refl, ap, sym, true, ltb, List, [], ◌∷◌,
  ◌++◌, arith, length, inl, inr, Option, some, none, Bool-cases, lt→ltb, subst,
}
use freecore.Memory.{Memory, Ptr, add_word}
use freecore.Memory.Words.{SameOn, SameOff}
use freecore.Kmalloc.{
  header_size, heap_end, Mm, Found, found, missing, find_loop, find_free_block, search_fuel,
}
use freecore.Kmalloc.Policy.{Block, total, used_total, Place, fits, first_fit, deeper}
use freecore.Kmalloc.Blocks.{Chain, IsBlock-SameOn}

-- Where the linker may put the heap: aligned, not at NULL, and short of the end of the addresses.
pub record IsPlaced (kernel_heap : Ptr) : Type 0 where
  pub above_null : 16 ≤ kernel_heap
  pub aligned : kernel_heap % 16 ≡ 0
  pub below_end : heap_end kernel_heap < 2 ^ 64

-- The heap consists of the blocks `bs`, and `heap_used` counts those in use.
pub record IsHeap (kernel_heap : Ptr) (s : Mm) (bs : List Block) : Type 0 where
  pub ready : s.heap_initialized ≡ true
  pub chain : Chain s.memory kernel_heap bs (heap_end kernel_heap)
  pub accounted : s.heap_used ≡ used_total bs

-- Chains that meet make one.
pub Chain-append :
    (m : Memory) (p q : Ptr) (xs ys : List Block) (e : Ptr)
    → Chain m p xs q
    → Chain m q ys e
    → Chain m p (xs ++ ys) e
Chain-append m p q [] ys e a b = rw a b
Chain-append m p q (x ∷ xs) ys e a b = (a.0, Chain-append m (p + x.size) q xs ys e a.1 b)

module _ (m : Memory) where
  pub Chain-total : (p : Ptr) (bs : List Block) (e : Ptr) → Chain m p bs e → p + total bs ≡ e
  Chain-total p [] e c = omega arith
  Chain-total p (b ∷ bs) e c = omega (arith, Chain-total (p + b.size) bs e c.1)

  pub Chain-length :
      (p : Ptr) (bs : List Block) (e : Ptr) → Chain m p bs e → header_size * length bs ≤ total bs
  Chain-length p [] e c = omega arith
  Chain-length p (b ∷ bs) e c = omega (arith, Chain-length (p + b.size) bs e c.1, c.0.room)

  pub Chain-aligned : (p : Ptr) (bs : List Block) (e : Ptr) → Chain m p bs e → total bs % 16 ≡ 0
  Chain-aligned p [] e c = omega arith
  Chain-aligned p (b ∷ bs) e c = omega (arith, Chain-aligned (p + b.size) bs e c.1, c.0.aligned)

  -- A chain is cut at any block.
  pub Chain-cut :
      (p : Ptr) (xs ys : List Block) (e : Ptr)
      → Chain m p (xs ++ ys) e
      → Chain m p xs (p + total xs) × Chain m (p + total xs) ys e
  Chain-cut p [] ys e c =
      let here : p ≡ p + 0 = omega arith in (here, subst (λ q. Chain m q ys e) here c)
  Chain-cut p (x ∷ xs) ys e c =
      let (front, back) = Chain-cut (p + x.size) xs ys e c.1 in
      let there : p + x.size + total xs ≡ p + (x.size + total xs) = omega arith in
      (
        (c.0, subst (λ q. Chain m (p + x.size) xs q) there front),
        subst (λ q. Chain m q ys e) there back,
      )

  -- A chain depends on the bytes that it spans only.
  pub Chain-SameOn :
      (m' : Memory) (p : Ptr) (bs : List Block) (e : Ptr)
      → SameOn p (total bs) m m'
      → Chain m p bs e
      → Chain m' p bs e
  Chain-SameOn m' p [] e h c = c
  Chain-SameOn m' p (b ∷ bs) e h c = (
    IsBlock-SameOn (λ a l u. h a l (omega (arith, c.0.room))) c.0,
    Chain-SameOn m' (p + b.size) bs e (λ a l u. h a (omega arith) (omega arith)) c.1,
  )

  -- Writes to a block's data leave every header as it was.
  pub Chain-data :
      (m' : Memory) (p : Ptr) (xs : List Block) (b : Block) (ys : List Block) (e : Ptr)
      → SameOff (p + total xs + header_size) (b.size - header_size) m m'
      → Chain m p (xs ++ (b ∷ ys)) e
      → Chain m' p (xs ++ (b ∷ ys)) e
  Chain-data m' p xs b ys e off c =
      let q = p + total xs in
      let (front, rest) = Chain-cut p xs (b ∷ ys) e c in
      Chain-append m' p q xs (b ∷ ys) e
        (Chain-SameOn m' p xs q (λ a l u. off a (inl (omega arith))) front)
        (
          IsBlock-SameOn (λ a l u. off a (inl (omega arith))) rest.0,
          Chain-SameOn m' (q + b.size) ys e (λ a l u. off a (inr (omega (arith, rest.0.room))))
              rest.1,
        )

-- What the walk from `p` on makes of the place that the policy picks.
abbrev pub address : Ptr → Option Place → Found
address p none = missing
address p (some w) = found (p + total w.front)

address-deeper :
    (p : Ptr) (b : Block) (o : Option Place) → address p (deeper b o) ≡ address (p + b.size) o
address-deeper p b none = refl
address-deeper p b (some w) = ap found (omega arith)

module _ (kernel_heap : Ptr) (placed : IsPlaced kernel_heap) (m : Memory) (n : ℕ) where
  find_loop-first_fit :
      (fuel : ℕ) (p : Ptr) (bs : List Block)
      → length bs < fuel
      → Chain m p bs (heap_end kernel_heap)
      → find_loop kernel_heap fuel m n p ≡ address p (first_fit n bs)
  unfolding find_loop first_fit
  find_loop-first_fit zero p bs h c = absurd (omega arith)
  find_loop-first_fit (suc fuel) p [] h c = ground arith
  find_loop-first_fit (suc fuel) p (b ∷ bs) h c =
      let rest = find_loop-first_fit fuel (p + b.size) bs (omega arith) c.1 in
      let span = Chain-total m p (b ∷ bs) (heap_end kernel_heap) c in
      let low : ltb p (heap_end kernel_heap) ≡ true = lt→ltb _ _ (omega (arith, c.0.room)) in
      let step : add_word p b.size ≡ p + b.size = omega (arith, placed.below_end) in
      rw (low, c.0.magic, c.0.used, c.0.size, step, rest)
        (elim (Bool-cases (fits n b)) [
          | inl e ↦ rw e (ap found (omega arith))
          | inr e ↦ rw e (sym (address-deeper p b (first_fit n bs)))
        ])

-- The search of a well-formed heap ends, and comes to the place that the policy picks.
pub find_free_block-first_fit :
    (kernel_heap : Ptr) (s : Mm) (bs : List Block) (n : ℕ)
    → IsPlaced kernel_heap
    → IsHeap kernel_heap s bs
    → find_free_block kernel_heap s.memory n ≡ address kernel_heap (first_fit n bs)
unfolding find_free_block
find_free_block-first_fit kernel_heap s bs n placed h =
    find_loop-first_fit kernel_heap placed s.memory n search_fuel kernel_heap bs
      (omega (
        arith,
        Chain-length s.memory kernel_heap bs (heap_end kernel_heap) h.chain,
        Chain-total s.memory kernel_heap bs (heap_end kernel_heap) h.chain,
      ))
      h.chain
