-- ===== src/Mouse/Packet.antt =====
-- The packets of kernel/src/arch/x86/mouse.c: the bytes that the interrupt collects and the movement
-- that they stand for. A test of a bit is a division and a remainder. A sum that does not fit an `int` is
-- taken to wrap around.
pub mod Decode
pub mod Framing
pub mod Pointer
use freecore.Prelude.{
  ℕ, ◌+◌, ◌/◌, ◌%◌, Bool, not, ◌&&◌, ◌==◌, ltb, leb, if◌then◌else◌, Option, none, some, ℤ, pos,
  ◌+ℤ◌, neg_ℤ, negsuc, int8, is_negative, to_int32,
}
use freecore.Keyboard.Ports.{ps2_data_port}

-- `mouse_state_t`
pub record MouseState : Type 0 where
  pub x : ℤ
  pub y : ℤ
  pub z : ℤ
  pub buttons : ℕ
  pub has_scroll_wheel : Bool
  pub has_5_buttons : Bool
  pub resolution : ℕ
  pub sample_rate : ℕ

-- `mouse_packet_t`
pub record MousePacket : Type 0 where
  pub flags : ℕ
  pub x_movement : ℤ
  pub y_movement : ℤ
  pub z_movement : ℤ

-- The variables of mouse.c, with the state of the hardware. The callback may change the mouse's state.
pub record Mouse (W : Type 0) : Type 0 where
  pub mouse_state : MouseState
  pub mouse_callback : Option (MouseState → W → MouseState × W)
  pub mouse_packet_buffer : ℕ → ℕ
  pub mouse_packet_index : ℕ
  pub mouse_packet_size : ℕ
  pub ports : W

abbrev pub has_bit : ℕ → ℕ → Bool
has_bit byte bit = byte / bit % 2 == 1

abbrev pub mouse_packet_y_overflow : ℕ
mouse_packet_y_overflow = 0x80

abbrev pub mouse_packet_x_overflow : ℕ
mouse_packet_x_overflow = 0x40

abbrev pub mouse_packet_y_sign : ℕ
mouse_packet_y_sign = 0x20

abbrev pub mouse_packet_x_sign : ℕ
mouse_packet_x_sign = 0x10

abbrev pub mouse_packet_always_1 : ℕ
mouse_packet_always_1 = 0x08

abbrev pub mouse_packet_4_z_sign : ℕ
mouse_packet_4_z_sign = 0x08

-- The movement of the wheel in the fourth byte.
abbrev pub z_movement_of : ℕ → ℤ
z_movement_of byte =
    if has_bit byte mouse_packet_4_z_sign then neg_ℤ (int8 (byte % 8)) else int8 (byte % 8)

pub packet_of : (ℕ → ℕ) → Bool → MousePacket
packet_of buffer wheel = record {
  flags = buffer 0;
  x_movement = int8 (buffer 1);
  y_movement = int8 (buffer 2);
  z_movement = if wheel then z_movement_of (buffer 3) else pos 0;
}

-- What is added to `x` and to `y`.
abbrev pub x_step : MousePacket → ℤ
x_step p =
    if has_bit p.flags mouse_packet_x_overflow
    then if has_bit p.flags mouse_packet_x_sign then negsuc 127 else pos 127
    else p.x_movement

abbrev pub y_step : MousePacket → ℤ
y_step p =
    if has_bit p.flags mouse_packet_y_overflow
    then if has_bit p.flags mouse_packet_y_sign then negsuc 127 else pos 127
    else neg_ℤ p.y_movement

abbrev pub clamp : ℤ → ℤ
clamp a = if is_negative a then pos 0 else a

-- The state that the callback gets.
pub moved : MousePacket → MouseState → MouseState
moved p s = record s {
  buttons = p.flags % 8;
  x = clamp (to_int32 (s.x +ℤ x_step p));
  y = clamp (to_int32 (s.y +ℤ y_step p));
  z = if s.has_scroll_wheel then to_int32 (s.z +ℤ p.z_movement) else s.z;
}

module _ {W : Type 0} where
  abbrev pub call_back : Option (MouseState → W → MouseState × W) → Mouse W → Mouse W
  call_back none s = s
  call_back (some f) s =
      let (state, w) = f s.mouse_state s.ports in record s { mouse_state = state; ports = w }

  pub process_mouse_packet : Mouse W → Mouse W
  process_mouse_packet s =
      let wheel = ltb 3 s.mouse_packet_size && s.mouse_state.has_scroll_wheel in
      let packet = packet_of s.mouse_packet_buffer wheel in
      call_back s.mouse_callback (record s { mouse_state = moved packet s.mouse_state })

  -- `ps2_mouse_interrupt` after the read.
  pub receive : ℕ → Mouse W → Mouse W
  receive byte s =
      let taken = record s {
        mouse_packet_buffer =
            λ i. if i == s.mouse_packet_index then byte else s.mouse_packet_buffer i;
        mouse_packet_index = s.mouse_packet_index + 1;
      } in
      if (s.mouse_packet_index == 0) && not (has_bit byte mouse_packet_always_1)
      then s
      else if leb taken.mouse_packet_size taken.mouse_packet_index
      then record (process_mouse_packet taken) { mouse_packet_index = 0 }
      else taken

  pub ps2_mouse_interrupt : (ℕ → W → ℕ × W) → Mouse W → Mouse W
  ps2_mouse_interrupt inb s =
      let (byte, w) = inb ps2_data_port s.ports in receive byte (record s { ports = w })

  unfoldable pub mouse_handler : (ℕ → W → ℕ × W) → (ℕ → ℕ → W → W) → Mouse W → Mouse W
  mouse_handler inb outb s =
      let done = ps2_mouse_interrupt inb s in
      record done { ports = outb 0x20 0x20 (outb 0xA0 0x20 done.ports) }

  unfoldable pub ps2_mouse_register_callback :
      Option (MouseState → W → MouseState × W) → Mouse W → Mouse W
  ps2_mouse_register_callback callback s = record s { mouse_callback = callback }
