-- ===== src/Kmalloc.antt =====
-- kernel/src/mm/kmalloc.c: the kernel heap, an array of blocks each with a header in front, searched
-- first fit. The headers live in the memory beside the data, as in C. `kernel_heap` is the address
-- that the linker gives to the array. What is printed is left out.
pub mod Policy
pub mod Blocks
pub mod Heap
pub mod Split
pub mod Refine
pub mod Release
pub mod Kept
pub mod Resize
mod Tests
pub mod Overflow
pub mod Zeroed
pub mod Init
use freecore.Prelude.{
  ℕ, zero, suc, ◌+◌, ◌*◌, ◌/◌, ◌%◌, ◌^◌, Bool, true, false, not, ◌&&◌, ◌||◌, ◌==◌, ltb, leb,
  if◌then◌else◌, Option, none, some, ℤ, pos, minus_one,
}
use freecore.Memory.{Memory, Ptr, null, add_word, sub_word, poke, load32, load64, store32, store64}
use freecore.Minstd.{memset, memcpy}

-- KERNEL_HEAP_SIZE, ALLOC_MAGIC, sizeof(alloc_header_t) and MIN_ALLOC_SIZE
abbrev pub kernel_heap_size : ℕ
kernel_heap_size = 4 * 1024 * 1024

abbrev pub alloc_magic : ℕ
alloc_magic = 0xABCD1234

abbrev pub header_size : ℕ
header_size = 16

abbrev pub min_alloc_size : ℕ
min_alloc_size = header_size + 16

-- The fields of the `alloc_header_t` at an address: `size` at offset 0, `magic` at 8, `used` at 12.
abbrev pub size_at : Memory → Ptr → ℕ
size_at m p = load64 m p

abbrev pub magic_at : Memory → Ptr → ℕ
magic_at m p = load32 m (p + 8)

abbrev pub used_at : Memory → Ptr → Bool
used_at m p = not (m (p + 12) == 0)

abbrev pub set_size : Memory → Ptr → ℕ → Memory
set_size m p v = store64 m p v

abbrev pub set_magic : Memory → Ptr → ℕ → Memory
set_magic m p v = store32 m (p + 8) v

abbrev pub set_used : Memory → Ptr → Bool → Memory
set_used m p v = poke m (p + 12) (if v then 1 else 0)

-- The static variables of the file and the memory.
pub record Mm : Type 0 where
  pub memory : Memory
  pub heap_initialized : Bool
  pub heap_used : ℕ

-- What a search of the heap comes to: a block, NULL, or a walk that does not end within its fuel.
pub data Found : Type 0 where
  found : Ptr → Found
  missing : Found
  diverges : Found

-- A walk over a well-formed heap takes a step for each block, and a block has 16 bytes or more.
abbrev pub search_fuel : ℕ
search_fuel = kernel_heap_size / header_size + 1

pub split_block : Memory → Ptr → ℕ → Memory
split_block m block size =
    if leb (add_word size min_alloc_size) (size_at m block)
    then (let new_block = add_word block size in
        let m1 = set_size m new_block (sub_word (size_at m block) size) in
        let m2 = set_magic m1 new_block alloc_magic in
        let m3 = set_used m2 new_block false in
        let m4 = set_size m3 block size in set_used m4 block true)
    else set_used m block true

-- `(size + 15) & ~15`
abbrev pub align_size : ℕ → ℕ
align_size size = add_word size 15 / 16 * 16

abbrev pub total_size : ℕ → ℕ
total_size size = add_word (align_size size) header_size

-- The part of `kmalloc` behind the search.
pub take_block : Mm → ℕ → Found → Option (Ptr × Mm)
take_block s total diverges = none
take_block s total missing = some (null, s)
take_block s total (found block) =
    let m = split_block s.memory block total in
    some (
      add_word block header_size,
      record s { memory = m; heap_used = add_word s.heap_used (size_at m block) },
    )

clear_data : ℕ → Option (Ptr × Mm) → Option (Ptr × Mm)
clear_data size none = none
clear_data size (some (ptr, s)) =
    if ptr == null
    then some (ptr, s)
    else some (ptr, record s { memory = (memset ptr 0 size s.memory).1 })

-- A result that is stored through a pointer, if there is one.
abbrev store_through : Ptr → ℕ → Memory → Memory
store_through p v m = if p == null then m else store64 m p v

unfoldable kmalloc_stats : Ptr → Ptr → Ptr → Mm → ℤ × Mm
kmalloc_stats total_mem used_mem free_mem s =
    if not s.heap_initialized
    then (minus_one, s)
    else (let m1 = store_through total_mem kernel_heap_size s.memory in
        let m2 = store_through used_mem s.heap_used m1 in
        let m3 = store_through free_mem (sub_word kernel_heap_size s.heap_used) m2 in
        (pos 0, record s { memory = m3 }))

module _ (kernel_heap : Ptr) where
  abbrev pub heap_end : Ptr
  heap_end = kernel_heap + kernel_heap_size

  pub kmalloc_init : Mm → ℤ × Mm
  kmalloc_init s =
      if s.heap_initialized
      then (pos 0, s)
      else (let m = (memset kernel_heap 0 kernel_heap_size s.memory).1 in
          let m = set_size m kernel_heap kernel_heap_size in
          let m = set_magic m kernel_heap alloc_magic in
          let m = set_used m kernel_heap false in
          (pos 0, record { memory = m; heap_initialized = true; heap_used = 0 }))

  -- The `while` loop of `find_free_block`.
  find_loop : ℕ → Memory → ℕ → Ptr → Found
  find_loop zero m size current = diverges
  find_loop (suc fuel) m size current =
      let next = find_loop fuel m size (add_word current (size_at m current)) in
      if ltb current heap_end
      then (if not (magic_at m current == alloc_magic)
          then missing
          else if not (used_at m current) && leb size (size_at m current)
          then found current
          else next)
      else missing

  pub find_free_block : Memory → ℕ → Found
  find_free_block m size = find_loop search_fuel m size kernel_heap

  -- `none` is a call that does not return.
  pub kmalloc : ℕ → Mm → Option (Ptr × Mm)
  kmalloc size s =
      if size == 0
      then some (null, s)
      else (let s1 = if s.heap_initialized then s else (kmalloc_init s).1 in
          take_block s1 (total_size size) (find_free_block s1.memory (total_size size)))

  pub kzalloc : ℕ → Mm → Option (Ptr × Mm)
  kzalloc size s = clear_data size (kmalloc size s)

  pub validate_block : Memory → Ptr → Bool
  validate_block m header =
      if ltb header kernel_heap || leb heap_end header
      then false
      else if not (magic_at m header == alloc_magic)
      then false
      else if ltb (size_at m header) header_size
          || ltb heap_end (add_word header (size_at m header))
      then false
      else true

  pub merge_blocks : Memory → Ptr → Memory
  merge_blocks m block =
      let next_block = add_word block (size_at m block) in
      if leb heap_end next_block
      then m
      else if not (validate_block m next_block)
      then m
      else if not (used_at m next_block)
      then (let m1 = set_size m block (add_word (size_at m block) (size_at m next_block)) in
          set_magic m1 next_block 0)
      else m

  pub kfree : Ptr → Mm → Mm
  kfree ptr s =
      let header = sub_word ptr header_size in
      if (ptr == null) || not s.heap_initialized
      then s
      else if not (validate_block s.memory header)
      then s
      else if not (used_at s.memory header)
      then s
      else (let m = set_used s.memory header false in
          record s {
            memory = merge_blocks m header;
            heap_used = sub_word s.heap_used (size_at m header);
          })

  -- The part of `krealloc` behind the call of `kmalloc`.
  move_block : Ptr → ℕ → Option (Ptr × Mm) → Option (Ptr × Mm)
  move_block ptr curr_size none = none
  move_block ptr curr_size (some (new_ptr, s)) =
      if new_ptr == null
      then some (null, s)
      else some
          (new_ptr, kfree ptr (record s { memory = (memcpy new_ptr ptr curr_size s.memory).1 }))

  pub krealloc : Ptr → ℕ → Mm → Option (Ptr × Mm)
  krealloc ptr size s =
      let header = sub_word ptr header_size in
      let curr_size = sub_word (size_at s.memory header) header_size in
      if ptr == null
      then kmalloc size s
      else if size == 0
      then some (null, kfree ptr s)
      else if not (validate_block s.memory header)
      then some (null, s)
      else if leb size curr_size
      then some (ptr, s)
      else move_block ptr curr_size (kmalloc size s)
