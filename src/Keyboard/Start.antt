-- ===== src/Keyboard/Start.antt =====
-- The start of the keyboard and its registration in kernel/src/arch/x86/keyboard.c. The table of
-- interrupts stands around the keyboard's variables: its state of the machine is the keyboard. The loop
-- that empties the output buffer has no end in the code; here it gives up after `patience` rounds, with
-- the result none.
pub mod Begun
use freecore.Prelude.{
  ℕ, zero, suc, ◌+◌, ◌-◌, ◌==◌, not, bit_and, bit_or, if◌then◌else◌, Option, none, some, [], ◌∷◌, ℤ,
  pos, negsuc, minus_one,
}
use freecore.Memory.{Ptr, null}
use freecore.Drivers.Types.{Driver, unloaded, World}
use freecore.Descriptors.Idt.{Idt, idt_register_handler}
use freecore.Keyboard.Ports.{
  ps2_data_port, ps2_status_port, output_full, kb_resp_ack, ps2_wait_for_output, ps2_send_command,
  ps2_send_command_data, kb_send_command,
}
use freecore.Keyboard.Input.{Keyboard, ps2_keyboard_interrupt, ps2_keyboard_set_leds}

-- `KEYBOARD_INT_VECTOR`
abbrev pub keyboard_int_vector : ℕ
keyboard_int_vector = 1 + 0x20

abbrev kb_cmd_enable_scanning : ℕ
kb_cmd_enable_scanning = 0xF4

abbrev kb_cmd_set_defaults : ℕ
kb_cmd_set_defaults = 0xF6

abbrev kb_cmd_reset : ℕ
kb_cmd_reset = 0xFF

abbrev kb_resp_self_test_pass : ℕ
kb_resp_self_test_pass = 0xAA

module _ {W : Type 0} (inb : ℕ → W → ℕ × W) (outb : ℕ → ℕ → W → W) where
  -- Lines 507 to 509, with the rounds left.
  unfoldable pub flush_output : ℕ → W → Option W
  flush_output zero w = none
  flush_output (suc patience) w =
      let (status, w1) = inb ps2_status_port w in
      let rest = flush_output patience (inb ps2_data_port w1).1 in
      if output_full status then rest else some w1

  -- Lines 503 and 504.
  abbrev pub disable_ports : W → W
  disable_ports w = ps2_send_command inb outb 0xA7 (ps2_send_command inb outb 0xAD w)

  -- A command to the controller, and its answer.
  abbrev pub ask : ℕ → W → ℕ × W
  ask command w =
      inb ps2_data_port (ps2_wait_for_output inb outb (ps2_send_command inb outb command w))

  -- Lines 512 to 519.
  abbrev pub configure : W → W
  configure w =
      let (config, w') = ask 0x20 w in
      ps2_send_command_data inb outb 0x60 (bit_and (bit_or config 0x01) (255 - 0x02)) w'

  -- Lines 571 to 578.
  pub clear_keyboard : Keyboard W → Keyboard W
  clear_keyboard k =
      let emptied = record k.kb_buffer { head = 0; tail = 0; count = 0 } in
      ps2_keyboard_set_leds inb outb 0 (record k { kb_buffer = emptied })

  -- Lines 559 to 578.
  pub enable_keyboard : Keyboard W → ℤ × Keyboard W
  enable_keyboard k =
      let (first, w1) = kb_send_command inb outb kb_cmd_set_defaults k.ports in
      let (second, w2) = kb_send_command inb outb kb_cmd_enable_scanning w1 in
      if not (first == kb_resp_ack)
      then (minus_one, record k { ports = w1 })
      else if not (second == kb_resp_ack)
      then (minus_one, record k { ports = w2 })
      else (pos 0, clear_keyboard (record k { ports = w2 }))

  -- Lines 541 to 578.
  pub reset_keyboard : Keyboard W → ℤ × Keyboard W
  reset_keyboard k =
      let (response, w1) =
        kb_send_command inb outb kb_cmd_reset (ps2_send_command inb outb 0xAE k.ports) in
      let (reset_response, w2) = inb ps2_data_port (ps2_wait_for_output inb outb w1) in
      if not (response == kb_resp_ack)
      then (minus_one, record k { ports = w1 })
      else if not (reset_response == kb_resp_self_test_pass)
      then (minus_one, record k { ports = w2 })
      else enable_keyboard (record k { ports = w2 })

  -- Lines 511 to 578.
  pub start_keyboard : Keyboard W → ℤ × Keyboard W
  start_keyboard k =
      let (self_test, w1) = ask 0xAA (configure k.ports) in
      let (port_test, w2) = ask 0xAB w1 in
      if not (self_test == 0x55)
      then (minus_one, record k { ports = w1 })
      else if not (port_test == 0x00)
      then (minus_one, record k { ports = w2 })
      else reset_keyboard (record k { ports = w2 })

  unfoldable pub keyboard_handler : Keyboard W → Keyboard W
  keyboard_handler k =
      let done = ps2_keyboard_interrupt inb outb k in
      record done { ports = outb 0x20 0x20 done.ports }

  pub ps2_keyboard_register_handler : Idt (Keyboard W) → Idt (Keyboard W)
  ps2_keyboard_register_handler s =
      idt_register_handler keyboard_int_vector (some (λ k. some (keyboard_handler k))) s

  abbrev pub begun : Idt (Keyboard W) → ℤ × Keyboard W → ℤ × Idt (Keyboard W)
  begun s (pos n, k) = (pos n, ps2_keyboard_register_handler (record s { machine = k }))
  begun s (negsuc n, k) = (negsuc n, record s { machine = k })

  abbrev pub flushed : Idt (Keyboard W) → Option W → Option (ℤ × Idt (Keyboard W))
  flushed s none = none
  flushed s (some w) = some (begun s (start_keyboard (record s.machine { ports = w })))

  pub ps2_keyboard_init : ℕ → Idt (Keyboard W) → Option (ℤ × Idt (Keyboard W))
  ps2_keyboard_init patience s = flushed s (flush_output patience (disable_ports s.machine.ports))

  abbrev in_world :
      {A : Type 0}
      → World (Idt (Keyboard W))
      → Option (A × Idt (Keyboard W))
      → Option (A × World (Idt (Keyboard W)))
  in_world w none = none
  in_world w (some (r, s)) = some (r, record w { rest = s })

  unfoldable ps2_keyboard_probe_driver :
      ℕ → Ptr → World (Idt (Keyboard W)) → Option (ℤ × World (Idt (Keyboard W)))
  ps2_keyboard_probe_driver patience driver w = in_world w (ps2_keyboard_init patience w.rest)

  unfoldable ps2_keyboard_remove_driver :
      Ptr → World (Idt (Keyboard W)) → ℤ × World (Idt (Keyboard W))
  ps2_keyboard_remove_driver driver w = (pos 0, w)

-- The driver before it is registered; `ops_address` is the address of its functions.
abbrev ps2_keyboard_driver : Ptr → Driver
ps2_keyboard_driver ops_address = record {
  name =
      some (0x70 ∷ 0x73 ∷ 0x32 ∷ 0x5F ∷ 0x6B ∷ 0x65 ∷ 0x79 ∷ 0x62 ∷ 0x6F ∷ 0x61 ∷ 0x72 ∷ 0x64 ∷ []);
  device_class = 4;
  state = unloaded;
  ops = ops_address;
  private_data = null;
}
