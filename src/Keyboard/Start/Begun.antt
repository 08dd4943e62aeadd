-- ===== src/Keyboard/Start/Begun.antt =====
-- What the start of the keyboard in kernel/src/arch/x86/keyboard.c leaves, by the answers of the keyboard.
use freecore.Prelude.{
  ℕ, zero, suc, ◌<◌, ◌≡◌, refl, arith, true, ◌==◌, some, ◌⊎◌, inl, inr, Bool-cases, ℤ, pos, negsuc,
  minus_one, ap, ◌∙◌, [], length,
}
use freecore.Descriptors.Idt.{Idt, idt_register_handler, exception_handler_wrapper, in_idt}
use freecore.Descriptors.Idt.Gates.{exception_handler_wrapper-register}
use freecore.Keyboard.Buffer.Queue.{IsBuffer, queue, from}
use freecore.Keyboard.Ports.{
  kb_resp_ack, kb_send_command, ps2_data_port, ps2_status_port, output_full, ps2_wait_for_output,
  ps2_send_command,
}
use freecore.Keyboard.Input.{Keyboard, ps2_keyboard_set_leds}
use freecore.Keyboard.Start.{
  keyboard_int_vector, flush_output, disable_ports, ask, configure, clear_keyboard, enable_keyboard,
  reset_keyboard, start_keyboard, keyboard_handler, ps2_keyboard_register_handler, begun, flushed,
  ps2_keyboard_init,
}

-- A keyboard whose buffer is sound and empty and whose LEDs are off.
pub record IsCleared {W : Type 0} (k : Keyboard W) : Type 0 where
  pub buffer : IsBuffer k.kb_buffer
  pub empty : queue k.kb_buffer ≡ []
  pub leds : k.keyboard_leds ≡ 0

-- A step of the start fails, and leaves the scancodes and the state of the keys as they were, or it ends
-- with the keyboard cleared.
record IsStep {W : Type 0} (k : Keyboard W) (r : ℤ × Keyboard W) : Type 0 where
  outcome :
      ((r.0 ≡ minus_one) × (r.1.kb_buffer ≡ k.kb_buffer) × (r.1.keyboard_state ≡ k.keyboard_state))
      ⊎ ((r.0 ≡ pos 0) × IsCleared r.1)

module _ {W : Type 0} (inb : ℕ → W → ℕ × W) (outb : ℕ → ℕ → W → W) where
  clear_keyboard-IsCleared :
      (k : Keyboard W) → length k.kb_buffer.codes ≡ 32 → IsCleared (clear_keyboard inb outb k)
  unfolding clear_keyboard ps2_keyboard_set_leds from
  clear_keyboard-IsCleared k size = record {
    buffer = record { size = size; tail_inside = omega arith; bounded = omega arith; apart = refl };
    empty = refl;
    leds = refl;
  }

  enable_keyboard-IsStep :
      (k : Keyboard W) → length k.kb_buffer.codes ≡ 32 → IsStep k (enable_keyboard inb outb k)
  unfolding enable_keyboard
  enable_keyboard-IsStep k size =
      let (first, w1) = kb_send_command inb outb 0xF6 k.ports in
      let (second, w2) = kb_send_command inb outb 0xF4 w1 in
      elim (Bool-cases (first == kb_resp_ack)) [
        | inr e ↦ rw e (record { outcome = inl (refl, refl, refl) })
        | inl e ↦ elim (Bool-cases (second == kb_resp_ack)) [
          | inr e' ↦ rw (e, e') (record { outcome = inl (refl, refl, refl) })
          | inl e' ↦
              rw (e, e')
                (record {
                  outcome = inr (refl, clear_keyboard-IsCleared (record k { ports = w2 }) size);
                })
        ]
      ]

  reset_keyboard-IsStep :
      (k : Keyboard W) → length k.kb_buffer.codes ≡ 32 → IsStep k (reset_keyboard inb outb k)
  unfolding reset_keyboard
  reset_keyboard-IsStep k size =
      let (response, w1) = kb_send_command inb outb 0xFF (ps2_send_command inb outb 0xAE k.ports) in
      let (reset_response, w2) = inb ps2_data_port (ps2_wait_for_output inb outb w1) in
      elim (Bool-cases (response == kb_resp_ack)) [
        | inr e ↦ rw e (record { outcome = inl (refl, refl, refl) })
        | inl e ↦ elim (Bool-cases (reset_response == 0xAA)) [
          | inr e' ↦ rw (e, e') (record { outcome = inl (refl, refl, refl) })
          | inl e' ↦
              rw (e, e')
                (record {
                  outcome = (enable_keyboard-IsStep (record k { ports = w2 }) size).outcome;
                })
        ]
      ]

  start_keyboard-IsStep :
      (k : Keyboard W) → length k.kb_buffer.codes ≡ 32 → IsStep k (start_keyboard inb outb k)
  unfolding start_keyboard
  start_keyboard-IsStep k size =
      let (self_test, w1) = ask inb outb 0xAA (configure inb outb k.ports) in
      let (port_test, w2) = ask inb outb 0xAB w1 in
      elim (Bool-cases (self_test == 0x55)) [
        | inr e ↦ rw e (record { outcome = inl (refl, refl, refl) })
        | inl e ↦ elim (Bool-cases (port_test == 0x00)) [
          | inr e' ↦ rw (e, e') (record { outcome = inl (refl, refl, refl) })
          | inl e' ↦
              rw (e, e')
                (record {
                  outcome = (reset_keyboard-IsStep (record k { ports = w2 }) size).outcome;
                })
        ]
      ]

  -- What `ps2_keyboard_init` leaves, by its result.
  pub IsBegun : Idt (Keyboard W) → ℤ × Idt (Keyboard W) → Type 0
  IsBegun s r =
      ((r.0 ≡ minus_one)
        × (r.1.exception_handlers ≡ s.exception_handlers)
        × (r.1.machine.kb_buffer ≡ s.machine.kb_buffer)
        × (r.1.machine.keyboard_state ≡ s.machine.keyboard_state))
      ⊎ ((r.0 ≡ pos 0)
          × IsCleared r.1.machine
          × (exception_handler_wrapper keyboard_int_vector r.1
              ≡ in_idt r.1 (some (keyboard_handler inb outb r.1.machine)))
          × (r.1.idt ≡ s.idt))

  begun-IsBegun :
      (s : Idt (Keyboard W)) (k : Keyboard W) (z : ℤ) (k' : Keyboard W)
      → k.kb_buffer ≡ s.machine.kb_buffer
      → k.keyboard_state ≡ s.machine.keyboard_state
      → IsStep k (z, k')
      → IsBegun s (begun inb outb s (z, k'))
  unfolding IsBegun ps2_keyboard_register_handler idt_register_handler
  begun-IsBegun s k (pos n) k' same_codes same_state h = elim h.outcome [
    | inl f ↦ absurd (cc)
    | inr g ↦ inr (
      g.0,
      g.1,
      exception_handler_wrapper-register keyboard_int_vector keyboard_int_vector
          (some (λ m. some (keyboard_handler inb outb m))) (record s { machine = k' })
          (omega arith),
      refl,
    )
  ]
  begun-IsBegun s k (negsuc n) k' same_codes same_state h = elim h.outcome [
    | inl f ↦ inl (f.0, refl, f.1 ∙ same_codes, f.2 ∙ same_state)
    | inr g ↦ absurd (cc)
  ]

  -- Of the bytes that wait in the controller, a read of the data port takes one, where the status says
  -- that there is one.
  pub record IsController (backlog : W → ℕ) : Type 0 where
    pub taken :
        (w : W)
        → let (status, w') = inb ps2_status_port w in
          output_full status ≡ true → backlog (inb ps2_data_port w').1 < backlog w

  flush_output-ends :
      (backlog : W → ℕ) (patience : ℕ) (w : W)
      → IsController backlog
      → backlog w < patience
      → (w' : W) × (flush_output inb outb patience w ≡ some w')
  unfolding flush_output
  flush_output-ends backlog zero w c h = absurd (omega arith)
  flush_output-ends backlog (suc patience) w c h =
      let (status, w1) = inb ps2_status_port w in
      elim (Bool-cases (output_full status)) [
        | inl e ↦
            let fewer = c.taken w e in
            let (w', ends) =
              flush_output-ends backlog patience (inb ps2_data_port w1).1 c (omega arith) in
            (w', rw e ends)
        | inr e ↦ (w1, rw e refl)
      ]

  -- On a controller in which less than `patience` bytes wait, `ps2_keyboard_init` ends. It fails with the
  -- result -1 and leaves the handlers of the interrupts, the scancodes and the state of the keys as they
  -- were; or its result is 0, the keyboard's buffer is sound and empty, its LEDs are off, the driver's
  -- handler is the one that `exception_handler_wrapper` calls for the keyboard's vector, and the gates of
  -- the interrupts are as they were.
  pub ps2_keyboard_init-IsBegun :
      (backlog : W → ℕ) (patience : ℕ) (s : Idt (Keyboard W))
      → IsController backlog
      → length s.machine.kb_buffer.codes ≡ 32
      → backlog (disable_ports inb outb s.machine.ports) < patience
      → (r : ℤ × Idt (Keyboard W)) × (ps2_keyboard_init inb outb patience s ≡ some r) × IsBegun s r
  unfolding ps2_keyboard_init
  ps2_keyboard_init-IsBegun backlog patience s c size short =
      let (w, empty) =
        flush_output-ends backlog patience (disable_ports inb outb s.machine.ports) c short in
      let k = record s.machine { ports = w } in
      let r = start_keyboard inb outb k in
      (
        begun inb outb s r,
        ap (flushed inb outb s) empty,
        begun-IsBegun s k r.0 r.1 refl refl (start_keyboard-IsStep k size),
      )
