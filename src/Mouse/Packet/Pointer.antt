-- ===== src/Mouse/Packet/Pointer.antt =====
-- Where the pointer of kernel/src/arch/x86/mouse.c goes for the bytes of a packet, as the mouse means
-- them: x to the right, y upwards while the screen counts downwards, each a number of nine bits of two's
-- complement, of which the sign is in the first byte.
use freecore.Prelude.{
  ℕ, ◌+◌, ◌-◌, ◌^◌, ◌%◌, ◌≤◌, ◌<◌, ◌≡◌, refl, ap, ap₂, ◌∙◌, arith, Bool, true, false, ◌&&◌, ltb,
  leb, if◌then◌else◌, none, List, ◌∷◌, length, pos, int8, neg_ℤ, ◌+ℤ◌, to_int32,
}
use freecore.Mouse.Packet.{
  Mouse, MouseState, has_bit, mouse_packet_always_1, mouse_packet_x_overflow,
  mouse_packet_y_overflow, mouse_packet_x_sign, mouse_packet_y_sign, clamp, packet_of, moved,
  x_step, y_step,
}
use freecore.Mouse.Packet.Framing.{received, byte_at, received-moved}

-- A coordinate after a movement forwards or backwards by a number of nine bits; it stops at 0.
abbrev pub forwards : Bool → ℕ → ℕ → ℕ
forwards sign byte c = if sign then c - (256 - byte) else c + byte

abbrev pub backwards : Bool → ℕ → ℕ → ℕ
backwards sign byte c = if sign then c + (256 - byte) else c - byte

-- The bytes of a packet that begins as it should, and reports movements from -128 to 127.
pub record IsReport (b dx dy : ℕ) : Type 0 where
  pub first : has_bit b mouse_packet_always_1 ≡ true
  pub x_fits : has_bit b mouse_packet_x_overflow ≡ false
  pub y_fits : has_bit b mouse_packet_y_overflow ≡ false
  pub x_byte : dx < 256
  pub y_byte : dy < 256
  pub x_sign : has_bit b mouse_packet_x_sign ≡ leb 128 dx
  pub y_sign : has_bit b mouse_packet_y_sign ≡ leb 128 dy

-- The driver between packets, with the pointer where the report takes it from the place (x, y), and
-- the buttons of the first byte.
pub record IsPointed {W : Type 0} (b dx dy x y : ℕ) (s : Mouse W) : Type 0 where
  index : s.mouse_packet_index ≡ 0
  buttons : s.mouse_state.buttons ≡ b % 8
  right : s.mouse_state.x ≡ pos (forwards (has_bit b mouse_packet_x_sign) dx x)
  up : s.mouse_state.y ≡ pos (backwards (has_bit b mouse_packet_y_sign) dy y)

forwards_lem :
    (sign : Bool) (byte c : ℕ)
    → byte < 256
    → sign ≡ leb 128 byte
    → c + 128 < 2 ^ 31
    → clamp (to_int32 (pos c +ℤ int8 byte)) ≡ pos (forwards sign byte c)
forwards_lem sign byte c small same room = ground arith

backwards_lem :
    (sign : Bool) (byte c : ℕ)
    → byte < 256
    → sign ≡ leb 128 byte
    → c + 128 < 2 ^ 31
    → clamp (to_int32 (pos c +ℤ neg_ℤ (int8 byte))) ≡ pos (backwards sign byte c)
backwards_lem sign byte c small same room = ground arith

x_step_lem :
    (f : ℕ → ℕ) (wheel : Bool)
    → has_bit (f 0) mouse_packet_x_overflow ≡ false
    → x_step (packet_of f wheel) ≡ int8 (f 1)
unfolding packet_of
x_step_lem f wheel e = rw e refl

y_step_lem :
    (f : ℕ → ℕ) (wheel : Bool)
    → has_bit (f 0) mouse_packet_y_overflow ≡ false
    → y_step (packet_of f wheel) ≡ neg_ℤ (int8 (f 2))
unfolding packet_of
y_step_lem f wheel e = rw e refl

-- Between packets, the bytes of a report, and a fourth one where packets have four, one interrupt each,
-- take the pointer from (x, y) to the right by the first movement of nine bits and up by the second, each
-- coordinate stopping at 0, and the buttons from the first byte, where there is no callback; the driver is
-- between packets again. The movements are from -128 to 127, and the coordinates no nearer than 128 to
-- the end of an `int`.
pub received-IsPointed :
    {W : Type 0} (b dx dy : ℕ) (rest : List ℕ) (x y : ℕ) (s : Mouse W)
    → IsReport b dx dy
    → s.mouse_packet_index ≡ 0
    → (3 ≤ s.mouse_packet_size) × (s.mouse_packet_size ≤ 4)
    → length (b ∷ dx ∷ dy ∷ rest) ≡ s.mouse_packet_size
    → s.mouse_callback ≡ none
    → s.mouse_state.x ≡ pos x
    → s.mouse_state.y ≡ pos y
    → x + 128 < 2 ^ 31
    → y + 128 < 2 ^ 31
    → IsPointed b dx dy x y (received (b ∷ dx ∷ dy ∷ rest) s)
unfolding moved byte_at packet_of
received-IsPointed b dx dy rest x y s r start size all silent at_x at_y room_x room_y =
    let bytes = byte_at (b ∷ dx ∷ dy ∷ rest) in
    let wheel = ltb 3 s.mouse_packet_size && s.mouse_state.has_scroll_wheel in
    let packet = packet_of bytes wheel in
    let (index, run) = received-moved b (dx ∷ dy ∷ rest) s r.first start size all silent in
    let step_x : s.mouse_state.x +ℤ x_step packet ≡ pos x +ℤ int8 dx =
      ap₂ (λ a c. a +ℤ c) at_x (x_step_lem bytes wheel r.x_fits) in
    let step_y : s.mouse_state.y +ℤ y_step packet ≡ pos y +ℤ neg_ℤ (int8 dy) =
      ap₂ (λ a c. a +ℤ c) at_y (y_step_lem bytes wheel r.y_fits) in
    record {
      index = index;
      buttons = ap (λ (m : MouseState). m.buttons) run;
      right =
          ap (λ (m : MouseState). m.x) run
          ∙ ap (λ a. clamp (to_int32 a)) step_x
          ∙ forwards_lem (has_bit b mouse_packet_x_sign) dx x r.x_byte r.x_sign room_x;
      up =
          ap (λ (m : MouseState). m.y) run
          ∙ ap (λ a. clamp (to_int32 a)) step_y
          ∙ backwards_lem (has_bit b mouse_packet_y_sign) dy y r.y_byte r.y_sign room_y;
    }
