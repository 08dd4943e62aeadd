-- ===== src/Kmalloc/Tests.antt =====
-- The theorems on kernel/src/mm/kmalloc.c at a heap of one megabyte from address 4096 on.
use freecore.Prelude.{ℕ, ◌-◌, ◌≡◌, ◌<◌, refl, false, [], arith, subst, none, some, pos, ◌+◌}
use freecore.Memory.{Ptr, word_mod}
use freecore.Kmalloc.{
  kernel_heap_size, header_size, Mm, kmalloc_init, kmalloc, kzalloc, kfree, krealloc,
  find_free_block,
}
use freecore.Kmalloc.Policy.{block, Place, blocks, first_fit}
use freecore.Kmalloc.Heap.{IsPlaced, IsHeap, address, find_free_block-first_fit}
use freecore.Kmalloc.Init.{kmalloc_init-IsHeap}
use freecore.Kmalloc.Refine.{request, Answers, IsGranted, kmalloc_refines}
use freecore.Kmalloc.Release.{IsReleased, data_at, kfree-IsReleased}
use freecore.Kmalloc.Zeroed.{granted_place, IsZeroed, kzalloc-IsZeroed}
use freecore.Kmalloc.Resize.{old, Resizes, krealloc_refines}
use freecore.Kmalloc.Overflow.{kmalloc_collapses}

abbrev base : Ptr
base = 4096

abbrev fresh : Mm
fresh = record { memory = λ a. 0; heap_initialized = false; heap_used = 0 }

abbrev booted : Mm
booted = (kmalloc_init base fresh).1

abbrev whole : Place
whole = record { front = []; here = block kernel_heap_size false; back = [] }

placed : IsPlaced base
placed = record { above_null = omega arith; aligned = refl; below_end = omega arith }

booted-IsHeap : IsHeap base booted (blocks whole)
booted-IsHeap = (kmalloc_init-IsHeap base fresh placed refl).1

first_fit-whole : first_fit (request 100) (blocks whole) ≡ some whole
unfolding first_fit
first_fit-whole = refl

-- The heap after a request of 100 bytes.
granted_100 : IsGranted base booted (request 100) whole (kmalloc base 100 booted)
granted_100 =
    subst (λ o. Answers base booted (request 100) o (kmalloc base 100 booted)) first_fit-whole
      (kmalloc_refines base booted (blocks whole) 100 placed booted-IsHeap (omega arith)
        (omega arith))

abbrev one_used : Mm
one_used = granted_100.state

abbrev used_place : Place
used_place = granted_place (request 100) whole

kmalloc_refines_example :
    Answers base booted
      (request 100)
      (first_fit (request 100) (blocks whole))
      (kmalloc base 100 booted)
kmalloc_refines_example =
    kmalloc_refines base booted (blocks whole) 100 placed booted-IsHeap (omega arith) (omega arith)

kfree-IsReleased_example :
    IsReleased base placed one_used used_place
      (kfree base (data_at base placed one_used used_place granted_100.heap) one_used)
kfree-IsReleased_example = kfree-IsReleased base placed one_used used_place granted_100.heap refl

krealloc_refines_example :
    Resizes base one_used used_place 200 placed granted_100.heap refl
      (omega arith)
      (first_fit (request 200) (blocks used_place))
      (krealloc base
        (old base one_used used_place 200 placed granted_100.heap refl (omega arith))
        200
        one_used)
krealloc_refines_example =
    krealloc_refines base one_used used_place 200 placed granted_100.heap refl (omega arith)
      (omega arith) (omega arith)

kzalloc-IsZeroed_example : IsZeroed base booted 100 whole (kzalloc base 100 booted)
kzalloc-IsZeroed_example =
    kzalloc-IsZeroed base booted (blocks whole) 100 whole placed booted-IsHeap (omega arith)
      (omega arith) first_fit-whole

kmalloc_init-IsHeap_example :
    ((kmalloc_init base fresh).0 ≡ pos 0)
    × IsHeap base booted (blocks whole)
    × (kmalloc_init base booted ≡ (pos 0, booted))
kmalloc_init-IsHeap_example = kmalloc_init-IsHeap base fresh placed refl

find_free_block-first_fit_example :
    find_free_block base booted.memory 128 ≡ address base (first_fit 128 (blocks whole))
find_free_block-first_fit_example =
    find_free_block-first_fit base booted (blocks whole) 128 placed booted-IsHeap

kmalloc_collapses_example :
    (s' : Mm) × (kmalloc base (word_mod - 20) booted ≡ some (base + header_size, s'))
    × ((later : ℕ) → 0 < later → kmalloc base later s' ≡ none)
kmalloc_collapses_example =
    kmalloc_collapses base booted whole (word_mod - 20) placed booted-IsHeap tt refl (omega arith)
      (omega arith) (omega arith)
