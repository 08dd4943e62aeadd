-- ===== src/Kmalloc/Init.antt =====
-- `kmalloc_init` of kernel/src/mm/kmalloc.c, and what the other functions do before it.
use freecore.Prelude.{ℕ, ◌≡◌, ◌≢◌, refl, false, ◌==◌, [], ◌∷◌, arith, pos}
use freecore.Memory.{Ptr}
use freecore.Kmalloc.{kernel_heap_size, Mm, kmalloc, kmalloc_init}
use freecore.Minstd.{memset}
use freecore.Kmalloc.Policy.{block}
use freecore.Kmalloc.Blocks.{new_block}
use freecore.Kmalloc.Heap.{IsPlaced, IsHeap}

-- From any memory, the first call makes the heap one free block of the whole array, with nothing
-- counted as used; a second call changes nothing.
pub kmalloc_init-IsHeap :
    (kernel_heap : Ptr) (s : Mm)
    → IsPlaced kernel_heap
    → s.heap_initialized ≡ false
    → let (code, s') = kmalloc_init kernel_heap s in
      (code ≡ pos 0)
      × IsHeap kernel_heap s' (block kernel_heap_size false ∷ [])
      × (kmalloc_init kernel_heap s' ≡ (pos 0, s'))
unfolding kmalloc_init
kmalloc_init-IsHeap kernel_heap s placed fresh =
    let m = (memset kernel_heap 0 kernel_heap_size s.memory).1 in
    let first =
      new_block m kernel_heap kernel_heap_size false (omega arith) (omega arith) (omega arith) in
    rw fresh (refl, record { ready = refl; chain = (first, refl); accounted = refl }, refl)

-- `kmalloc` makes the heap ready itself: before the first call of `kmalloc_init` it answers as it
-- does right after one.
kmalloc-kmalloc_init :
    (kernel_heap : Ptr) (s : Mm) (size : ℕ)
    → s.heap_initialized ≡ false
    → size ≢ 0
    → kmalloc kernel_heap size s ≡ kmalloc kernel_heap size (kmalloc_init kernel_heap s).1
unfolding kmalloc kmalloc_init
kmalloc-kmalloc_init kernel_heap s size fresh nonzero =
    let e : (size == 0) ≡ false = ground arith in rw (fresh, e)
