-- ===== src/Mouse/Start.antt =====
-- The start of the mouse and its registration in kernel/src/arch/x86/mouse.c. The table of interrupts
-- stands around the mouse's variables: its state of the machine is the mouse.
pub mod Sound
pub mod Registered
use freecore.Prelude.{
  ℕ, ◌+◌, Bool, true, false, not, ◌==◌, ltb, bit_or, if◌then◌else◌, Option, none, some, ◌∷◌, [], ℤ,
  pos, negsuc, minus_one,
}
use freecore.Memory.{Ptr, null}
use freecore.Drivers.Types.{Driver, unloaded, World, DriverOps, Registry}
use freecore.Drivers.Registry.{device_driver_register}
use freecore.Descriptors.Idt.{Idt, idt_register_handler}
use freecore.Mouse.Ports.{
  mouse_cmd_reset, mouse_cmd_default, mouse_cmd_enable, mouse_cmd_disable, mouse_cmd_set_sample,
  mouse_cmd_get_device_id, mouse_cmd_set_res, mouse_resp_ack, mouse_resp_self_test,
  mouse_resp_id_scroll, mouse_resp_id_5btn, ps2_send_command, ps2_send_command_data, read_answer,
  mouse_send_command, mouse_send_command_data,
}
use freecore.Mouse.Packet.{MouseState, Mouse, mouse_handler}

-- `MOUSE_INT_VECTOR`
abbrev pub mouse_int_vector : ℕ
mouse_int_vector = 12 + 0x20

abbrev pub no_state : MouseState
no_state = record {
  x = pos 0;
  y = pos 0;
  z = pos 0;
  buttons = 0;
  has_scroll_wheel = false;
  has_5_buttons = false;
  resolution = 0;
  sample_rate = 0;
}

abbrev pub in_world : {M A : Type 0} → World M → A × M → A × World M
in_world w (r, s) = (r, record w { rest = s })

module _ {W : Type 0} (inb : ℕ → W → ℕ × W) (outb : ℕ → ℕ → W → W) where
  pub ps2_mouse_set_sample_rate : ℕ → Mouse W → Mouse W
  ps2_mouse_set_sample_rate rate s = record s {
    ports = (mouse_send_command_data inb outb mouse_cmd_set_sample rate s.ports).1;
    mouse_state = record s.mouse_state { sample_rate = rate };
  }

  pub ps2_mouse_set_resolution : ℕ → Mouse W → Mouse W
  ps2_mouse_set_resolution resolution s =
      let clamped = if ltb 3 resolution then 3 else resolution in
      record s {
        ports = (mouse_send_command_data inb outb mouse_cmd_set_res clamped s.ports).1;
        mouse_state = record s.mouse_state { resolution = clamped };
      }

  -- The answer to `MOUSE_CMD_GET_DEVICE_ID`.
  abbrev pub ask_id : W → ℕ × W
  ask_id w = read_answer inb outb (mouse_send_command inb outb mouse_cmd_get_device_id w).1

  abbrev pub three_rates : ℕ → ℕ → ℕ → Mouse W → Mouse W
  three_rates a b c s =
      ps2_mouse_set_sample_rate c (ps2_mouse_set_sample_rate b (ps2_mouse_set_sample_rate a s))

  pub mouse_enable_scroll_wheel : Mouse W → Mouse W
  mouse_enable_scroll_wheel s =
      let asked = three_rates 200 100 80 s in
      let (mouse_id, w) = ask_id asked.ports in
      let found = mouse_id == mouse_resp_id_scroll in
      record asked {
        ports = w;
        mouse_state = record asked.mouse_state { has_scroll_wheel = found };
        mouse_packet_size = if found then 4 else 3;
      }

  pub mouse_enable_5_button : Mouse W → Mouse W
  mouse_enable_5_button s =
      let asked = three_rates 200 200 80 s in
      let (mouse_id, w) = ask_id asked.ports in
      let found = record asked {
        ports = w;
        mouse_state = record asked.mouse_state { has_5_buttons = true };
        mouse_packet_size = 4;
      } in
      if mouse_id == mouse_resp_id_5btn then found else record asked { ports = w }

  -- Lines 329 to 338: the controller.
  abbrev pub set_controller : W → W
  set_controller w =
      let asked = ps2_send_command inb outb 0x20 (ps2_send_command inb outb 0xA8 w) in
      let (status, w') = read_answer inb outb asked in
      ps2_send_command_data inb outb 0x60 (bit_or status 0x02) w'

  -- Lines 359 to 365: the kind of mouse.
  pub detect_mouse : Mouse W → Mouse W
  detect_mouse s =
      let scroll = mouse_enable_scroll_wheel s in
      if scroll.mouse_state.has_scroll_wheel then scroll else mouse_enable_5_button scroll

  -- Lines 367 to 383.
  pub enable_mouse : Mouse W → ℤ × Mouse W
  enable_mouse s =
      let (first, w1) = mouse_send_command inb outb mouse_cmd_default s.ports in
      let (second, w2) = mouse_send_command inb outb mouse_cmd_enable w1 in
      let rated = ps2_mouse_set_sample_rate 100 (record s { ports = w2 }) in
      if not (first == mouse_resp_ack)
      then (minus_one, record s { ports = w1 })
      else if not (second == mouse_resp_ack)
      then (minus_one, record s { ports = w2 })
      else (pos 0, ps2_mouse_set_resolution 2 rated)

  -- Lines 324 to 383.
  pub start_mouse : Mouse W → ℤ × Mouse W
  start_mouse s =
      let cleared = record s { mouse_state = no_state; mouse_packet_index = 0 } in
      let (response, w1) =
        mouse_send_command inb outb mouse_cmd_reset (set_controller cleared.ports) in
      let (self_test, w2) = read_answer inb outb w1 in
      let (device_id, w3) = read_answer inb outb w2 in
      if not (response == mouse_resp_ack)
      then (minus_one, record cleared { ports = w1 })
      else if not (self_test == mouse_resp_self_test)
      then (minus_one, record cleared { ports = w2 })
      else enable_mouse (detect_mouse (record cleared { ports = w3 }))

  pub ps2_mouse_register_handler : Idt (Mouse W) → Idt (Mouse W)
  ps2_mouse_register_handler s =
      idt_register_handler mouse_int_vector (some (λ m. some (mouse_handler inb outb m))) s

  abbrev pub started : Idt (Mouse W) → ℤ × Mouse W → ℤ × Idt (Mouse W)
  started s (pos n, m) = (pos n, ps2_mouse_register_handler (record s { machine = m }))
  started s (negsuc n, m) = (negsuc n, record s { machine = m })

  pub ps2_mouse_init : Idt (Mouse W) → ℤ × Idt (Mouse W)
  ps2_mouse_init s = started s (start_mouse s.machine)

  unfoldable pub ps2_mouse_probe_driver : Ptr → World (Idt (Mouse W)) → ℤ × World (Idt (Mouse W))
  ps2_mouse_probe_driver driver w = in_world w (ps2_mouse_init w.rest)

  unfoldable pub ps2_mouse_remove_driver : Ptr → World (Idt (Mouse W)) → ℤ × World (Idt (Mouse W))
  ps2_mouse_remove_driver driver w =
      let m = w.rest.machine in
      let told = record m { ports = (mouse_send_command inb outb mouse_cmd_disable m.ports).1 } in
      (pos 0, record w { rest = record w.rest { machine = told } })

  abbrev pub ps2_mouse_ops : DriverOps (Idt (Mouse W))
  ps2_mouse_ops = record {
    probe = some ps2_mouse_probe_driver;
    remove = some ps2_mouse_remove_driver;
    suspend = none;
    resume = none;
  }

  -- `driver_address` is the address of the driver, `ops_at` the tables of functions by their addresses.
  unfoldable pub ps2_mouse_register_driver :
      (Ptr → DriverOps (Idt (Mouse W))) → Ptr → Registry (Idt (Mouse W)) → Registry (Idt (Mouse W))
  ps2_mouse_register_driver ops_at driver_address s =
      (device_driver_register ops_at driver_address s).1

-- The driver before it is registered; `ops_address` is the address of its functions.
abbrev pub ps2_mouse_driver : Ptr → Driver
ps2_mouse_driver ops_address = record {
  name = some (0x70 ∷ 0x73 ∷ 0x32 ∷ 0x5F ∷ 0x6D ∷ 0x6F ∷ 0x75 ∷ 0x73 ∷ 0x65 ∷ []);
  device_class = 4;
  state = unloaded;
  ops = ops_address;
  private_data = null;
}
