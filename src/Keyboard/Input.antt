-- ===== src/Keyboard/Input.antt =====
-- The interrupt of kernel/src/arch/x86/keyboard.c and the calls that read the keyboard. A scancode and
-- the state flags are bytes.
pub mod State
use freecore.Prelude.{
  ℕ, zero, suc, ◌-◌, ◌/◌, ◌%◌, Bool, true, false, ◌==◌, ◌||◌, not, ltb, leb, if◌then◌else◌, Option,
  none, some, List, length, get_or, bit_or, bit_and, bit_xor,
}
use freecore.Keyboard.Tables.{scancode_to_ascii_low, scancode_to_ascii_high}
use freecore.Keyboard.Buffer.{KbBuffer, kb_buffer_add, kb_buffer_get}
use freecore.Keyboard.Ports.{ps2_data_port, kb_cmd_set_leds, kb_send_command_data}

abbrev pub kb_key_left_ctrl : ℕ
kb_key_left_ctrl = 0x1D

abbrev pub kb_key_left_shift : ℕ
kb_key_left_shift = 0x2A

abbrev pub kb_key_right_shift : ℕ
kb_key_right_shift = 0x36

abbrev pub kb_key_left_alt : ℕ
kb_key_left_alt = 0x38

abbrev pub kb_key_caps_lock : ℕ
kb_key_caps_lock = 0x3A

abbrev pub kb_key_num_lock : ℕ
kb_key_num_lock = 0x45

abbrev pub kb_key_scroll_lock : ℕ
kb_key_scroll_lock = 0x46

-- KB_STATE_SHIFT to KB_STATE_SCROLL_LOCK, and the LEDs.
abbrev pub kb_state_shift : ℕ
kb_state_shift = 0x01

abbrev pub kb_state_ctrl : ℕ
kb_state_ctrl = 0x02

abbrev pub kb_state_alt : ℕ
kb_state_alt = 0x04

abbrev pub kb_state_caps_lock : ℕ
kb_state_caps_lock = 0x08

abbrev pub kb_state_num_lock : ℕ
kb_state_num_lock = 0x10

abbrev pub kb_state_scroll_lock : ℕ
kb_state_scroll_lock = 0x20

abbrev pub kb_led_scroll_lock : ℕ
kb_led_scroll_lock = 0x01

abbrev pub kb_led_num_lock : ℕ
kb_led_num_lock = 0x02

abbrev pub kb_led_caps_lock : ℕ
kb_led_caps_lock = 0x04

-- `scancode & 0x7F` and `(scancode & 0x80) != 0`
abbrev pub key_code_of : ℕ → ℕ
key_code_of scancode = scancode % 128

abbrev pub is_release : ℕ → Bool
is_release scancode = scancode / 128 % 2 == 1

-- `a ^ b` of two truth values
abbrev pub differ : Bool → Bool → Bool
differ true b = not b
differ false b = b

abbrev pub code_or_zero : Option ℕ → ℕ
code_or_zero none = 0
code_or_zero (some scancode) = scancode

-- The static variables of the file, and the hardware behind the ports.
pub record Keyboard (W : Type 0) : Type 0 where
  pub keyboard_state : ℕ
  pub keyboard_leds : ℕ
  pub kb_buffer : KbBuffer
  pub extended : Bool
  pub ports : W

module _ {W : Type 0} where
  -- `keyboard_state |= mask` and `keyboard_state &= ~mask`
  abbrev pub press : ℕ → Keyboard W → Keyboard W
  press mask k = record k { keyboard_state = bit_or k.keyboard_state mask }

  abbrev pub lift : ℕ → Keyboard W → Keyboard W
  lift mask k = record k { keyboard_state = bit_and k.keyboard_state (255 - mask) }

  abbrev pub has_state : Keyboard W → ℕ → Bool
  has_state k mask = not (bit_and k.keyboard_state mask == 0)

  abbrev pub plain_ascii : ℕ → Keyboard W → ℕ
  plain_ascii key_code k =
      if differ (has_state k kb_state_shift) (has_state k kb_state_caps_lock)
      then get_or scancode_to_ascii_high key_code 0
      else get_or scancode_to_ascii_low key_code 0

  -- The switch on a released key.
  release_key : ℕ → Keyboard W → Keyboard W
  release_key key_code k =
      if (key_code == kb_key_left_shift) || (key_code == kb_key_right_shift)
      then lift kb_state_shift k
      else if key_code == kb_key_left_ctrl
      then lift kb_state_ctrl k
      else if key_code == kb_key_left_alt
      then lift kb_state_alt k
      else k

  abbrev pub buffered : ℕ → Keyboard W → Keyboard W
  buffered scancode k = record k {
    kb_buffer = kb_buffer_add scancode k.kb_buffer;
    extended = false;
  }

  -- The interrupt, once it has read its scancode.
  receive : ℕ × Keyboard W → Keyboard W
  unfolding release_key
  receive (scancode, k) =
      if scancode == 0xE0
      then record k { extended = true }
      else buffered scancode
          (if is_release scancode then release_key (key_code_of scancode) k else k)

  ps2_keyboard_available : Keyboard W → Bool
  ps2_keyboard_available k = not (k.kb_buffer.count == 0)

  abbrev pub ps2_keyboard_get_scancode : Keyboard W → ℕ × Keyboard W
  ps2_keyboard_get_scancode k =
      let (code, b) = kb_buffer_get k.kb_buffer in (code_or_zero code, record k { kb_buffer = b })

module _ {W : Type 0} (inb : ℕ → W → ℕ × W) (outb : ℕ → ℕ → W → W) where
  unfoldable pub ps2_keyboard_interrupt : Keyboard W → Keyboard W
  unfolding receive
  ps2_keyboard_interrupt k =
      let (scancode, w) = inb ps2_data_port k.ports in receive (scancode, record k { ports = w })

  unfoldable pub ps2_keyboard_set_leds : ℕ → Keyboard W → Keyboard W
  unfolding kb_send_command_data
  ps2_keyboard_set_leds leds k = record k {
    keyboard_leds = leds;
    ports = (kb_send_command_data inb outb kb_cmd_set_leds leds k.ports).1;
  }

  -- A lock key: its flag and its LED.
  abbrev toggle : ℕ → ℕ → Keyboard W → Keyboard W
  toggle mask led k =
      ps2_keyboard_set_leds (bit_xor k.keyboard_leds led)
        (record k { keyboard_state = bit_xor k.keyboard_state mask })

  -- The switch on a pressed key, and what follows it.
  unfoldable pub press_key : ℕ → Keyboard W → ℕ × Keyboard W
  press_key key_code k =
      if (key_code == kb_key_left_shift) || (key_code == kb_key_right_shift)
      then (0, press kb_state_shift k)
      else if key_code == kb_key_left_ctrl
      then (0, press kb_state_ctrl k)
      else if key_code == kb_key_left_alt
      then (0, press kb_state_alt k)
      else if key_code == kb_key_caps_lock
      then (0, toggle kb_state_caps_lock kb_led_caps_lock k)
      else if key_code == kb_key_num_lock
      then (0, toggle kb_state_num_lock kb_led_num_lock k)
      else if key_code == kb_key_scroll_lock
      then (0, toggle kb_state_scroll_lock kb_led_scroll_lock k)
      else (plain_ascii key_code k, k)

  unfoldable pub ps2_scancode_to_ascii : ℕ → Bool → Keyboard W → ℕ × Keyboard W
  unfolding press_key
  ps2_scancode_to_ascii scancode release k =
      if release
      then (0, k)
      else if leb (length scancode_to_ascii_low) (key_code_of scancode)
      then (0, k)
      else press_key (key_code_of scancode) k

  -- The next scancode of the buffer, as a character.
  abbrev pub next_char : Keyboard W → ℕ × Keyboard W
  next_char k =
      let (scancode, k') = ps2_keyboard_get_scancode k in
      ps2_scancode_to_ascii scancode (is_release scancode) k'

  -- `while (c == 0 && ps2_keyboard_available())`; a round takes a scancode, so the fuel is how many
  -- there are.
  char_loop : ℕ → ℕ × Keyboard W → ℕ × Keyboard W
  unfolding ps2_scancode_to_ascii ps2_keyboard_available
  char_loop zero (c, k) = (c, k)
  char_loop (suc fuel) (c, k) =
      let rest = char_loop fuel (next_char k) in
      if c == 0 then (if ps2_keyboard_available k then rest else (c, k)) else (c, k)

  -- `none` is the wait for a first scancode.
  unfoldable ps2_keyboard_get_char : Keyboard W → Option (ℕ × Keyboard W)
  unfolding ps2_scancode_to_ascii ps2_keyboard_available char_loop
  ps2_keyboard_get_char k =
      if ps2_keyboard_available k then some (char_loop k.kb_buffer.count (next_char k)) else none
