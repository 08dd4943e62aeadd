-- ===== src/Descriptors/Gdt/Fields.antt =====
-- What the processor reads from the descriptors that kernel/src/arch/x86/gdt.c stores.
use freecore.Prelude.{ℕ, ◌+◌, ◌*◌, ◌/◌, ◌%◌, ◌<◌, ◌≡◌, refl, arith, true, false, ◌==◌, ◌≢◌}
use freecore.Descriptors.Gdt.{
  GdtEntry, TssEntry, Gdt, GdtPtr, entry_of, tss_entry_of, gdt_set_entry, gdt_set_tss, tss_init,
  set_segments, gdt_init,
}

-- The base, the limit and the flags of a descriptor.
pub base_of : GdtEntry → ℕ
base_of e = e.base_low + e.base_middle * 0x10000 + e.base_high * 0x1000000

pub limit_of : GdtEntry → ℕ
limit_of e = e.limit_low + e.granularity % 0x10 * 0x10000

pub flags_of : GdtEntry → ℕ
flags_of e = e.granularity / 0x10 * 0x10

-- The base and the limit of the descriptor of a task state segment.
pub tss_base_of : TssEntry → ℕ
tss_base_of e =
    e.base_low + e.base_middle1 * 0x10000 + e.base_middle2 * 0x1000000 + e.base_high * 0x100000000

pub tss_limit_of : TssEntry → ℕ
tss_limit_of e = e.length_low + e.granularity % 0x10 * 0x10000

-- A segment with a base, a limit, an access byte and flags.
pub record IsSegment (e : GdtEntry) (b l a f : ℕ) : Type 0 where
  pub base : base_of e ≡ b
  pub limit : limit_of e ≡ l
  pub access : e.access ≡ a
  pub flags : flags_of e ≡ f

entry_of-IsSegment :
    (base limit access granularity : ℕ)
    → base < 0x100000000
    → limit < 0x100000
    → granularity < 0x100
    → IsSegment
        (entry_of base limit access granularity)
        base
        limit
        access
        (granularity / 0x10 * 0x10)
unfolding base_of limit_of flags_of entry_of
entry_of-IsSegment base limit access granularity b l g = record {
  base = omega arith;
  limit = omega arith;
  access = refl;
  flags = omega arith;
}

module _ {W : Type 0} where
  -- A descriptor that `gdt_set_entry` stores, of a base of 32 bits and a limit of 20, reads back as
  -- the base, the limit, the access byte and the upper four bits of the granularity byte; the other
  -- descriptors are as they were.
  gdt_set_entry-IsSegment :
      (idx base limit access granularity : ℕ) (s : Gdt W)
      → base < 0x100000000
      → limit < 0x100000
      → granularity < 0x100
      → IsSegment
          ((gdt_set_entry idx base limit access granularity s).entries idx)
          base
          limit
          access
          (granularity / 0x10 * 0x10)
        × ((i : ℕ)
            → i ≢ idx
            → (gdt_set_entry idx base limit access granularity s).entries i ≡ s.entries i)
  unfolding gdt_set_entry
  gdt_set_entry-IsSegment idx base limit access granularity s b l g =
      let here : (idx == idx) ≡ true = ground arith in
      (
        simp here (entry_of-IsSegment base limit access granularity b l g),
        λ i ne. let there : (i == idx) ≡ false = ground arith in simp there refl,
      )

-- The table that `gdt_init` leaves: a null descriptor, flat code and data segments for the kernel and
-- the user, and a task state segment at `tss_address`.
pub record IsTable {W : Type 0} (tss_address : ℕ) (s : Gdt W) : Type 0 where
  pub null_segment : IsSegment (s.entries 0) 0 0 0 0
  pub kernel_code : IsSegment (s.entries 1) 0 0xFFFFF 0x9A 0xA0
  pub kernel_data : IsSegment (s.entries 2) 0 0xFFFFF 0x92 0xC0
  pub user_code : IsSegment (s.entries 3) 0 0xFFFFF 0xFA 0xA0
  pub user_data : IsSegment (s.entries 4) 0 0xFFFFF 0xF2 0xC0
  pub tss_base : tss_base_of s.tss_entry ≡ tss_address
  pub tss_limit : tss_limit_of s.tss_entry ≡ 103
  pub tss_access : s.tss_entry.access ≡ 0x89
  pub io_map : s.tss.iomap_base ≡ tss_limit_of s.tss_entry + 1

-- `gdt_init` leaves flat segments for the kernel, of ring 0, and for the user, of ring 3, and the
-- descriptor of the task state segment at its address of 64 bits, whose limit is its last byte, with
-- the I/O map behind it; it loads the table before the task register.
pub gdt_init-IsTable :
    {W : Type 0} (gdt_load : GdtPtr → W → W) (tss_load : ℕ → W → W) (gdt_address tss_address : ℕ)
    (s : Gdt W)
    → tss_address < 0x10000000000000000
    → IsTable tss_address (gdt_init gdt_load tss_load gdt_address tss_address s)
      × ((gdt_init gdt_load tss_load gdt_address tss_address s).machine
          ≡ tss_load 40 (gdt_load (record { limit = 55; base = gdt_address }) s.machine))
unfolding gdt_init set_segments tss_init gdt_set_tss gdt_set_entry entry_of tss_entry_of base_of
    limit_of flags_of tss_base_of tss_limit_of
gdt_init-IsTable gdt_load tss_load gdt_address tss_address s small = (
  record {
    null_segment = record { base = refl; limit = refl; access = refl; flags = refl };
    kernel_code = record { base = refl; limit = refl; access = refl; flags = refl };
    kernel_data = record { base = refl; limit = refl; access = refl; flags = refl };
    user_code = record { base = refl; limit = refl; access = refl; flags = refl };
    user_data = record { base = refl; limit = refl; access = refl; flags = refl };
    tss_base = omega arith;
    tss_limit = refl;
    tss_access = refl;
    io_map = refl;
  },
  refl,
)
