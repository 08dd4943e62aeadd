-- ===== src/Descriptors/Idt.antt =====
-- The interrupt gates and the handlers of kernel/src/arch/x86/idt.c and
-- kernel/src/arch/x86/include/idt.h. What is printed is left out. A handler is a function on a state of
-- the machine of any type, none if it does not return; the instruction LIDT and the stubs, in assembly,
-- are parameters.
pub mod Gates
use freecore.Prelude.{
  ℕ, zero, suc, ◌+◌, ◌-◌, ◌*◌, ◌/◌, ◌%◌, ◌==◌, ltb, bit_or, if◌then◌else◌, Option, none, some,
}
use freecore.Descriptors.Gdt.{gdt_kernel_code_selector}

abbrev pub idt_vector_count : ℕ
idt_vector_count = 256

abbrev idt_flags_present : ℕ
idt_flags_present = 0x80

abbrev idt_flags_interrupt_gate : ℕ
idt_flags_interrupt_gate = 0x0E

abbrev idt_flags_ring0 : ℕ
idt_flags_ring0 = 0x00

-- `struct idt_entry`
pub record IdtEntry : Type 0 where
  pub offset_low : ℕ
  pub selector : ℕ
  pub ist : ℕ
  pub flags : ℕ
  pub offset_mid : ℕ
  pub offset_high : ℕ
  pub reserved : ℕ

-- `struct idt_ptr`
pub record IdtPtr : Type 0 where
  pub limit : ℕ
  pub base : ℕ

-- `exception_handler`
abbrev pub ExceptionHandler : Type 0 → Type 0
ExceptionHandler W = W → Option W

-- The variables of idt.c, with the state of the machine; a handler may be NULL.
pub record Idt (W : Type 0) : Type 0 where
  pub idt : ℕ → IdtEntry
  pub idt_ptr : IdtPtr
  pub exception_handlers : ℕ → Option (ExceptionHandler W)
  pub machine : W

abbrev pub no_gate : IdtEntry
no_gate = record {
  offset_low = 0;
  selector = 0;
  ist = 0;
  flags = 0;
  offset_mid = 0;
  offset_high = 0;
  reserved = 0;
}

pub gate_of : ℕ → ℕ → IdtEntry
gate_of addr flags = record {
  offset_low = addr % 0x10000;
  selector = gdt_kernel_code_selector;
  ist = 0;
  flags = flags;
  offset_mid = addr / 0x10000 % 0x10000;
  offset_high = addr / 0x100000000 % 0x100000000;
  reserved = 0;
}

module _ {W : Type 0} where
  pub idt_set_entry : ℕ → ℕ → ℕ → Idt W → Idt W
  idt_set_entry vector handler flags s = record s {
    idt = λ v. if v == vector then gate_of handler flags else s.idt v;
  }

  -- It ends in `idt_hcf`, which halts for ever.
  abbrev pub default_exception_handler : ExceptionHandler W
  default_exception_handler machine = none

  abbrev pub handler_or_default : Option (ExceptionHandler W) → ExceptionHandler W
  handler_or_default none = default_exception_handler
  handler_or_default (some handler) = handler

  unfoldable pub idt_register_handler : ℕ → Option (ExceptionHandler W) → Idt W → Idt W
  idt_register_handler vector handler s =
      if ltb vector idt_vector_count
      then record s {
        exception_handlers =
            λ v. if v == vector then some (handler_or_default handler) else s.exception_handlers v;
      }
      else s

  -- The loop of `idt_init`, with the rounds left and the vector.
  pub init_loop : (ℕ → ℕ) → ℕ → ℕ → Idt W → Idt W
  init_loop interrupt_stubs zero i s = s
  init_loop interrupt_stubs (suc rounds) i s =
      let flags = bit_or (bit_or idt_flags_present idt_flags_interrupt_gate) idt_flags_ring0 in
      init_loop interrupt_stubs rounds (i + 1)
        (idt_register_handler i none (idt_set_entry i (interrupt_stubs i) flags s))

  -- `idt_address` is the address of `idt`.
  pub idt_init : (IdtPtr → W → W) → (ℕ → ℕ) → ℕ → Idt W → Idt W
  idt_init idt_load interrupt_stubs idt_address s =
      let pointer : IdtPtr = record { limit = 16 * idt_vector_count - 1; base = idt_address } in
      let filled =
        init_loop interrupt_stubs 32 0 (record s { idt = λ v. no_gate; idt_ptr = pointer }) in
      record filled { machine = idt_load pointer filled.machine }

  pub in_idt : Idt W → Option W → Option (Idt W)
  in_idt s none = none
  in_idt s (some w) = some (record s { machine = w })

  -- None: the handler does not return.
  pub exception_handler_wrapper : ℕ → Idt W → Option (Idt W)
  unfolding in_idt
  exception_handler_wrapper vector s =
      in_idt s (handler_or_default (s.exception_handlers vector) s.machine)
