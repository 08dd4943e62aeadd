-- ===== src/Descriptors/Gdt.antt =====
-- The segment descriptors of kernel/src/arch/x86/gdt.c and kernel/src/arch/x86/include/gdt.h. `& mask`
-- is a remainder and `>>` a division by a power of 2; `|` of masks without a common bit is a sum. The
-- instructions LGDT and LTR, in assembly, are parameters on a state of the machine of any type.
pub mod Fields
use freecore.Prelude.{ℕ, ◌+◌, ◌*◌, ◌/◌, ◌-◌, ◌%◌, ◌==◌, bit_or, if◌then◌else◌}

-- `struct gdt_entry_64`
pub record GdtEntry : Type 0 where
  pub limit_low : ℕ
  pub base_low : ℕ
  pub base_middle : ℕ
  pub access : ℕ
  pub granularity : ℕ
  pub base_high : ℕ

-- `struct tss_entry_64`
pub record TssEntry : Type 0 where
  pub length_low : ℕ
  pub base_low : ℕ
  pub base_middle1 : ℕ
  pub access : ℕ
  pub granularity : ℕ
  pub base_middle2 : ℕ
  pub base_high : ℕ
  pub reserved : ℕ

-- `struct tss_struct`
pub record Tss : Type 0 where
  pub reserved0 : ℕ
  pub rsp0 : ℕ
  pub rsp1 : ℕ
  pub rsp2 : ℕ
  pub reserved1 : ℕ
  pub ist : ℕ → ℕ
  pub reserved2 : ℕ
  pub reserved3 : ℕ
  pub iomap_base : ℕ

-- `struct gdt_ptr`
pub record GdtPtr : Type 0 where
  pub limit : ℕ
  pub base : ℕ

-- The variables of gdt.c, with the state of the machine.
pub record Gdt (W : Type 0) : Type 0 where
  pub entries : ℕ → GdtEntry
  pub tss_entry : TssEntry
  pub tss : Tss
  pub gdt_ptr : GdtPtr
  pub machine : W

-- `sizeof(tss)` and `sizeof(gdt)`: both structures are packed.
abbrev pub sizeof_tss : ℕ
sizeof_tss = 104

abbrev pub sizeof_gdt : ℕ
sizeof_gdt = 56

abbrev gdt_flag_granularity : ℕ
gdt_flag_granularity = 0x80

abbrev gdt_flag_size : ℕ
gdt_flag_size = 0x40

abbrev gdt_flag_long_mode : ℕ
gdt_flag_long_mode = 0x20

abbrev gdt_access_present : ℕ
gdt_access_present = 0x80

abbrev gdt_access_ring0 : ℕ
gdt_access_ring0 = 0x00

abbrev gdt_access_ring3 : ℕ
gdt_access_ring3 = 0x60

abbrev gdt_access_system : ℕ
gdt_access_system = 0x10

abbrev gdt_access_executable : ℕ
gdt_access_executable = 0x08

abbrev gdt_access_rw : ℕ
gdt_access_rw = 0x02

abbrev pub gdt_kernel_code_selector : ℕ
gdt_kernel_code_selector = 1 * 8

abbrev pub gdt_tss_selector : ℕ
gdt_tss_selector = 5 * 8

abbrev pub no_entry : GdtEntry
no_entry = record {
  limit_low = 0;
  base_low = 0;
  base_middle = 0;
  access = 0;
  granularity = 0;
  base_high = 0;
}

abbrev pub no_tss_entry : TssEntry
no_tss_entry = record {
  length_low = 0;
  base_low = 0;
  base_middle1 = 0;
  access = 0;
  granularity = 0;
  base_middle2 = 0;
  base_high = 0;
  reserved = 0;
}

abbrev pub no_tss : Tss
no_tss = record {
  reserved0 = 0;
  rsp0 = 0;
  rsp1 = 0;
  rsp2 = 0;
  reserved1 = 0;
  ist = λ i. 0;
  reserved2 = 0;
  reserved3 = 0;
  iomap_base = 0;
}

-- The fields that `gdt_set_entry` stores.
pub entry_of : ℕ → ℕ → ℕ → ℕ → GdtEntry
entry_of base limit access granularity = record {
  limit_low = limit % 0x10000;
  base_low = base % 0x10000;
  base_middle = base / 0x10000 % 0x100;
  access = access;
  granularity = limit / 0x10000 % 0x10 + granularity / 0x10 % 0x10 * 0x10;
  base_high = base / 0x1000000 % 0x100;
}

-- The fields that `gdt_set_tss` stores.
pub tss_entry_of : ℕ → ℕ → TssEntry
tss_entry_of base limit = record {
  length_low = limit % 0x10000;
  base_low = base % 0x10000;
  base_middle1 = base / 0x10000 % 0x100;
  access = 0x89;
  granularity = limit / 0x10000 % 0x10;
  base_middle2 = base / 0x1000000 % 0x100;
  base_high = base / 0x100000000 % 0x100000000;
  reserved = 0;
}

module _ {W : Type 0} where
  pub gdt_set_entry : ℕ → ℕ → ℕ → ℕ → ℕ → Gdt W → Gdt W
  gdt_set_entry idx base limit access granularity s = record s {
    entries = λ i. if i == idx then entry_of base limit access granularity else s.entries i;
  }

  pub gdt_set_tss : ℕ → ℕ → Gdt W → Gdt W
  gdt_set_tss base limit s = record s { tss_entry = tss_entry_of base limit }

  -- `tss_address` is `&tss`.
  pub tss_init : ℕ → Gdt W → Gdt W
  tss_init tss_address s =
      gdt_set_tss tss_address (sizeof_tss - 1)
        (record s { tss = record no_tss { rsp0 = 0; iomap_base = sizeof_tss } })

  -- The five segments, in the order of the calls.
  pub set_segments : Gdt W → Gdt W
  set_segments s =
      let kernel = bit_or (bit_or gdt_access_present gdt_access_ring0) gdt_access_system in
      let user = bit_or (bit_or gdt_access_present gdt_access_ring3) gdt_access_system in
      let code_flags = bit_or gdt_flag_granularity gdt_flag_long_mode in
      let data_flags = bit_or gdt_flag_granularity gdt_flag_size in
      let s0 = gdt_set_entry 0 0 0 0 0 s in
      let s1 =
        gdt_set_entry 1 0 0xFFFFF (bit_or (bit_or kernel gdt_access_executable) gdt_access_rw)
          code_flags s0 in
      let s2 = gdt_set_entry 2 0 0xFFFFF (bit_or kernel gdt_access_rw) data_flags s1 in
      let s3 =
        gdt_set_entry 3 0 0xFFFFF (bit_or (bit_or user gdt_access_executable) gdt_access_rw)
          code_flags s2 in
      gdt_set_entry 4 0 0xFFFFF (bit_or user gdt_access_rw) data_flags s3

  -- `gdt_address` is `&gdt`.
  pub gdt_init : (GdtPtr → W → W) → (ℕ → W → W) → ℕ → ℕ → Gdt W → Gdt W
  gdt_init gdt_load tss_load gdt_address tss_address s =
      let pointer : GdtPtr = record { limit = sizeof_gdt - 1; base = gdt_address } in
      let cleared = record s {
        gdt_ptr = pointer;
        entries = λ i. no_entry;
        tss_entry = no_tss_entry;
      } in
      let filled = tss_init tss_address (set_segments cleared) in
      record filled { machine = tss_load gdt_tss_selector (gdt_load pointer filled.machine) }
