-- ===== src/Descriptors/Idt/Gates.antt =====
-- What kernel/src/arch/x86/idt.c leaves in the table of interrupts, and which handler an interrupt calls.
use freecore.Prelude.{
  ℕ, zero, suc, ◌+◌, ◌*◌, ◌≤◌, ◌<◌, ◌≡◌, ◌≢◌, refl, arith, true, false, ◌==◌, Option, none, some,
  ltb, if◌then◌else◌, ◌∙◌, ◌⊎◌, inl, inr, Bool-cases, Bool, leb, ap, ==_iff, subst, sym,
}
use freecore.Descriptors.Idt.{
  IdtEntry, IdtPtr, Idt, ExceptionHandler, no_gate, gate_of, idt_set_entry,
  default_exception_handler, handler_or_default, idt_register_handler, init_loop, idt_init, in_idt,
  exception_handler_wrapper,
}

-- The address that the processor reads from a gate, and whether the gate is present.
pub offset_of : IdtEntry → ℕ
offset_of g = g.offset_low + g.offset_mid * 0x10000 + g.offset_high * 0x100000000

pub is_present : IdtEntry → Bool
is_present g = leb 0x80 g.flags

module _ {W : Type 0} where
  -- The gate of a vector that `idt_set_entry` stores leads to the handler's address, of 64 bits, in the
  -- kernel's code segment, with the flags; the other gates are as they were.
  idt_set_entry-offset_of :
      (vector handler flags : ℕ) (s : Idt W)
      → handler < 0x10000000000000000
      → (offset_of ((idt_set_entry vector handler flags s).idt vector) ≡ handler)
        × (((idt_set_entry vector handler flags s).idt vector).selector ≡ 8)
        × (((idt_set_entry vector handler flags s).idt vector).flags ≡ flags)
        × ((v : ℕ) → v ≢ vector → (idt_set_entry vector handler flags s).idt v ≡ s.idt v)
  unfolding idt_set_entry offset_of gate_of
  idt_set_entry-offset_of vector handler flags s small =
      let here : (vector == vector) ≡ true = ground arith in
      (
        simp here (omega arith),
        simp here refl,
        simp here refl,
        λ v ne. let there : (v == vector) ≡ false = ground arith in simp there refl,
      )

  -- The loop over the vectors from `i` on, below `i + n`, sets their gates and handlers, nothing else.
  record IsFilled (interrupt_stubs : ℕ → ℕ) (n i : ℕ) (s t : Idt W) : Type 0 where
    inside :
        (v : ℕ)
        → i ≤ v
        → v < i + n
        → (t.idt v ≡ gate_of (interrupt_stubs v) 0x8E)
          × (t.exception_handlers v ≡ some default_exception_handler)
    outside :
        (v : ℕ)
        → (v < i) ⊎ (i + n ≤ v)
        → (t.idt v ≡ s.idt v) × (t.exception_handlers v ≡ s.exception_handlers v)
    kept : t.machine ≡ s.machine

  -- One round: the gate and the handler of the vector `i`, nothing else.
  set_one : (ℕ → ℕ) → ℕ → Idt W → Idt W
  set_one interrupt_stubs i s =
      idt_register_handler i none (idt_set_entry i (interrupt_stubs i) 0x8E s)

  set_one-here :
      (interrupt_stubs : ℕ → ℕ) (i : ℕ) (s : Idt W)
      → i < 256
      → ((set_one interrupt_stubs i s).idt i ≡ gate_of (interrupt_stubs i) 0x8E)
        × ((set_one interrupt_stubs i s).exception_handlers i ≡ some default_exception_handler)
  unfolding set_one idt_register_handler idt_set_entry
  set_one-here interrupt_stubs i s small =
      let here : (i == i) ≡ true = ground arith in
      let fits : ltb i 256 ≡ true = ground arith in (simp (fits, here) refl, simp (fits, here) refl)

  set_one-there :
      (interrupt_stubs : ℕ → ℕ) (i v : ℕ) (s : Idt W)
      → i < 256
      → v ≢ i
      → ((set_one interrupt_stubs i s).idt v ≡ s.idt v)
        × ((set_one interrupt_stubs i s).exception_handlers v ≡ s.exception_handlers v)
  unfolding set_one idt_register_handler idt_set_entry
  set_one-there interrupt_stubs i v s small ne =
      let there : (v == i) ≡ false = ground arith in
      let fits : ltb i 256 ≡ true = ground arith in
      (simp (fits, there) refl, simp (fits, there) refl)

  set_one-machine :
      (interrupt_stubs : ℕ → ℕ) (i : ℕ) (s : Idt W)
      → i < 256
      → (set_one interrupt_stubs i s).machine ≡ s.machine
  unfolding set_one idt_register_handler idt_set_entry
  set_one-machine interrupt_stubs i s small =
      let fits : ltb i 256 ≡ true = ground arith in simp fits refl

  init_loop-IsFilled :
      (interrupt_stubs : ℕ → ℕ) (n i : ℕ) (s : Idt W)
      → i + n ≤ 256
      → IsFilled interrupt_stubs n i s (init_loop interrupt_stubs n i s)
  unfolding init_loop set_one
  init_loop-IsFilled interrupt_stubs zero i s small = record {
    inside = λ v l h. absurd (omega arith);
    outside = λ v h. (refl, refl);
    kept = refl;
  }
  init_loop-IsFilled interrupt_stubs (suc n) i s small =
      let s' = set_one interrupt_stubs i s in
      let later = init_loop-IsFilled interrupt_stubs n (i + 1) s' (omega arith) in
      let here = set_one-here interrupt_stubs i s (omega arith) in
      record {
        inside = λ v l h. elim (Bool-cases (v == i)) [
          | inl e ↦
              let same : v ≡ i = (==_iff v i).0 e in
              let kept = later.outside v (inl (omega arith)) in
              let set =
                subst
                  (λ k.
                    ((set_one interrupt_stubs i s).idt k ≡ gate_of (interrupt_stubs k) 0x8E)
                    × ((set_one interrupt_stubs i s).exception_handlers k
                        ≡ some default_exception_handler))
                  (sym same) here in
              (kept.0 ∙ set.0, kept.1 ∙ set.1)
          | inr ne ↦ let apart : v ≢ i = ground arith in later.inside v (omega arith) (omega arith)
        ];
        outside = λ v h.
            let apart : v ≢ i = λ e. elim h [ inl l ↦ omega arith | inr l ↦ omega arith ] in
            let beyond : (v < i + 1) ⊎ (i + 1 + n ≤ v) = elim h [
              | inl l ↦ inl (omega arith)
              | inr l ↦ inr (omega arith)
            ] in
            let kept = later.outside v beyond in
            let same = set_one-there interrupt_stubs i v s (omega arith) apart in
            (kept.0 ∙ same.0, kept.1 ∙ same.1);
        kept = later.kept ∙ set_one-machine interrupt_stubs i s (omega arith);
      }

  -- The gates and the handlers that `idt_init` leaves.
  pub record IsIdt (interrupt_stubs : ℕ → ℕ) (s : Idt W) : Type 0 where
    pub offset :
        (v : ℕ)
        → v < 32
        → interrupt_stubs v < 0x10000000000000000
        → offset_of (s.idt v) ≡ interrupt_stubs v
    pub exceptions : (v : ℕ) → v < 32 → is_present (s.idt v) ≡ true
    pub halting : (v : ℕ) → v < 32 → exception_handler_wrapper v s ≡ none
    pub interrupts : (v : ℕ) → 32 ≤ v → is_present (s.idt v) ≡ false

  -- After `idt_init`, whatever was there before, the gates of the 32 exceptions are present and lead to
  -- their stubs, and an exception halts; no gate of another vector is present.
  pub idt_init-IsIdt :
      (idt_load : IdtPtr → W → W) (interrupt_stubs : ℕ → ℕ) (idt_address : ℕ) (s : Idt W)
      → IsIdt interrupt_stubs (idt_init idt_load interrupt_stubs idt_address s)
  unfolding idt_init offset_of gate_of is_present exception_handler_wrapper in_idt
  idt_init-IsIdt idt_load interrupt_stubs idt_address s =
      let cleared = record s {
        idt = λ v. no_gate;
        idt_ptr = record { limit = 4095; base = idt_address };
      } in
      let set = init_loop-IsFilled interrupt_stubs 32 0 cleared (omega arith) in
      record {
        offset = λ v h small. rw (set.inside v (omega arith) (omega arith)).0 (omega arith);
        exceptions = λ v h. rw (set.inside v (omega arith) (omega arith)).0 refl;
        halting = λ v h. rw (set.inside v (omega arith) (omega arith)).1 refl;
        interrupts = λ v h. rw (set.outside v (inr (omega arith))).0 refl;
      }

  idt_register_handler-idt :
      (vector : ℕ) (handler : Option (ExceptionHandler W)) (s : Idt W)
      → (idt_register_handler vector handler s).idt ≡ s.idt
  unfolding idt_register_handler
  idt_register_handler-idt vector handler s = elim (Bool-cases (ltb vector 256)) [
    | inl e ↦ rw e refl
    | inr e ↦ rw e refl
  ]

  -- After `idt_init`, a handler registered with `idt_register_handler` for the interrupt of a device, a
  -- vector from 32 on, does not make the gate of that vector present: no gate leads to the handler.
  pub idt_register_handler-is_present :
      (idt_load : IdtPtr → W → W) (interrupt_stubs : ℕ → ℕ) (idt_address : ℕ) (s : Idt W)
      (vector : ℕ) (handler : Option (ExceptionHandler W))
      → 32 ≤ vector
      → is_present (
          (idt_register_handler vector handler
              (idt_init idt_load interrupt_stubs idt_address s)).idt
            vector)
        ≡ false
  idt_register_handler-is_present idt_load interrupt_stubs idt_address s vector handler device =
      let start = idt_init idt_load interrupt_stubs idt_address s in
      ap (λ gates. is_present (gates vector)) (idt_register_handler-idt vector handler start)
      ∙ (idt_init-IsIdt idt_load interrupt_stubs idt_address s).interrupts vector device

  -- An exception calls the handler that was registered last for its vector, and the default handler,
  -- which halts, if that was NULL; the other vectors call what they called before.
  pub exception_handler_wrapper-register :
      (vector v : ℕ) (handler : Option (ExceptionHandler W)) (s : Idt W)
      → vector < 256
      → exception_handler_wrapper v (idt_register_handler vector handler s)
        ≡ in_idt (idt_register_handler vector handler s) (
            (if v == vector
                then handler_or_default handler
                else handler_or_default (s.exception_handlers v))
              s.machine)
  unfolding exception_handler_wrapper idt_register_handler
  exception_handler_wrapper-register vector v handler s small =
      let fits : ltb vector 256 ≡ true = ground arith in
      elim (Bool-cases (v == vector)) [ inl e ↦ simp (fits, e) refl | inr e ↦ simp (fits, e) refl ]
