-- ===== src/Descriptors/Tests.antt =====
-- The theorems on kernel/src/arch/x86/gdt.c and kernel/src/arch/x86/idt.c at concrete tables.
use freecore.Prelude.{ℕ, ◌+◌, ◌*◌, ◌≡◌, arith, false, none, some}
use freecore.Descriptors.Gdt.{GdtPtr, Gdt, no_entry, no_tss_entry, no_tss, gdt_init}
use freecore.Descriptors.Gdt.Fields.{IsTable, gdt_init-IsTable}
use freecore.Descriptors.Idt.{IdtPtr, Idt, no_gate, idt_register_handler, idt_init}
use freecore.Descriptors.Idt.Gates.{
  is_present, IsIdt, idt_init-IsIdt, idt_register_handler-is_present,
}

abbrev empty_gdt : Gdt ℕ
empty_gdt = record {
  entries = λ i. no_entry;
  tss_entry = no_tss_entry;
  tss = no_tss;
  gdt_ptr = record { limit = 0; base = 0 };
  machine = 5;
}

-- Machines that count what was loaded.
abbrev load_table : GdtPtr → ℕ → ℕ
load_table pointer w = w + 1

abbrev load_task : ℕ → ℕ → ℕ
load_task selector w = w * 2

gdt_init-IsTable_example :
    IsTable 0xFFFF800012345678 (gdt_init load_table load_task 0x1000 0xFFFF800012345678 empty_gdt)
    × ((gdt_init load_table load_task 0x1000 0xFFFF800012345678 empty_gdt).machine ≡ 12)
gdt_init-IsTable_example =
    gdt_init-IsTable load_table load_task 0x1000 0xFFFF800012345678 empty_gdt (omega arith)

abbrev empty_idt : Idt ℕ
empty_idt = record {
  idt = λ v. no_gate;
  idt_ptr = record { limit = 0; base = 0 };
  exception_handlers = λ v. none;
  machine = 5;
}

abbrev load_idt : IdtPtr → ℕ → ℕ
load_idt pointer w = w + 1

abbrev stubs : ℕ → ℕ
stubs v = 0x10000 + v * 16

idt_init-IsIdt_example : IsIdt stubs (idt_init load_idt stubs 0x2000 empty_idt)
idt_init-IsIdt_example = idt_init-IsIdt load_idt stubs 0x2000 empty_idt

idt_register_handler-is_present_example :
    is_present (
      (idt_register_handler 0x21
          (some (λ w. some (w + 2)))
          (idt_init load_idt stubs 0x2000 empty_idt)).idt
        0x21)
    ≡ false
idt_register_handler-is_present_example =
    idt_register_handler-is_present load_idt stubs 0x2000 empty_idt 0x21 (some (λ w. some (w + 2)))
      (omega arith)
