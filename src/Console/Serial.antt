-- ===== src/Console/Serial.antt =====
-- The serial port of kernel/src/arch/x86/serial.c. The instructions `inb` and `outb` are parameters on
-- a state of the hardware of any type. The loops that wait for the port have no end in the code; here
-- they give up after `patience` reads of its status, with the result none. A string is not NULL.
pub mod Texts
pub mod Sent
use freecore.Prelude.{
  ℕ, zero, suc, ◌+◌, ◌-◌, ◌*◌, ◌/◌, ◌%◌, ◌^◌, Bool, ◌==◌, ltb, leb, bit_or, if◌then◌else◌, Option,
  none, some, List, [], ◌∷◌, get_or, ℤ, pos, negsuc,
}
use freecore.Console.Number.{digits}

abbrev serial_data_reg : ℕ
serial_data_reg = 0

abbrev serial_intr_enable_reg : ℕ
serial_intr_enable_reg = 1

abbrev serial_fifo_ctrl_reg : ℕ
serial_fifo_ctrl_reg = 2

abbrev serial_line_ctrl_reg : ℕ
serial_line_ctrl_reg = 3

abbrev serial_modem_ctrl_reg : ℕ
serial_modem_ctrl_reg = 4

abbrev pub serial_line_status_reg : ℕ
serial_line_status_reg = 5

-- `status & SERIAL_LSR_TX_READY` and `status & SERIAL_LSR_RX_READY`
abbrev pub tx_ready : ℕ → Bool
tx_ready status = status / 0x20 % 2 == 1

abbrev pub rx_ready : ℕ → Bool
rx_ready status = status % 2 == 1

abbrev pub and_then : {A B : Type 0} → Option A → (A → Option B) → Option B
and_then none f = none
and_then (some a) f = f a

abbrev pub clamp_digits : ℤ → ℕ
clamp_digits (pos n) = if ltb n 1 then 1 else if ltb 16 n then 16 else n
clamp_digits (negsuc n) = 1

-- The digits of a positive number, the last of them in front of `text`, with the rounds left. The
-- code puts them into an array and writes it from its end.
pub int_loop : ℕ → ℕ → List ℕ → List ℕ
int_loop zero value text = text
int_loop (suc rounds) value text =
    let rest = int_loop rounds (value / 10) ((48 + value % 10) ∷ text) in
    if value == 0 then text else rest

-- `-value` of an `int64_t`, wrapping around.
abbrev pub negated : ℕ → ℕ
negated value = (2 ^ 64 - value) % 2 ^ 64

module _ {W : Type 0} (inb : ℕ → W → ℕ × W) (outb : ℕ → ℕ → W → W) where
  unfoldable pub serial_init : ℕ → ℕ → W → W
  serial_init port baud_divisor w =
      let w1 = outb (port + serial_intr_enable_reg) 0x00 w in
      let w2 = outb (port + serial_line_ctrl_reg) 0x80 w1 in
      let w3 = outb (port + serial_data_reg) (baud_divisor % 0x100) w2 in
      let w4 = outb (port + serial_data_reg + 1) (baud_divisor / 0x100 % 0x100) w3 in
      let w5 = outb (port + serial_line_ctrl_reg) (bit_or 0x03 0x00) w4 in
      let fifo = bit_or (bit_or (bit_or 0x01 0x02) 0x04) 0xC0 in
      let w6 = outb (port + serial_fifo_ctrl_reg) fifo w5 in
      outb (port + serial_modem_ctrl_reg) (bit_or (bit_or 0x01 0x02) 0x08) w6

  -- `while ((inb(port + SERIAL_LINE_STATUS_REG) & mask) == 0);`
  pub wait_status : (ℕ → Bool) → ℕ → ℕ → W → Option W
  wait_status ready zero port w = none
  wait_status ready (suc patience) port w =
      let (status, w') = inb (port + serial_line_status_reg) w in
      let rest = wait_status ready patience port w' in if ready status then some w' else rest

  pub serial_write_char : ℕ → ℕ → ℕ → W → Option W
  serial_write_char patience port c w =
      and_then (wait_status tx_ready patience port w)
        (λ w'. some (outb (port + serial_data_reg) c w'))

  unfoldable pub serial_read_char : ℕ → ℕ → W → Option (ℕ × W)
  serial_read_char patience port w =
      and_then (wait_status rx_ready patience port w) (λ w'. some (inb (port + serial_data_reg) w'))

  -- The loop of `serial_write_string` over the characters before the NUL.
  pub serial_write_string : ℕ → ℕ → List ℕ → W → Option W
  serial_write_string patience port [] w = some w
  serial_write_string patience port (c ∷ str) w =
      and_then (serial_write_char patience port c w) (serial_write_string patience port str)

  -- The loop of `serial_write_hex`, with the digits left.
  pub hex_loop : ℕ → ℕ → ℕ → ℕ → W → Option W
  hex_loop patience port value zero w = some w
  hex_loop patience port value (suc i) w =
      and_then (serial_write_char patience port (get_or digits (value / 16 ^ i % 16) 0) w)
        (hex_loop patience port value i)

  pub serial_write_hex : ℕ → ℕ → ℕ → ℤ → W → Option W
  serial_write_hex patience port value num_digits w =
      and_then (serial_write_string patience port (48 ∷ 120 ∷ []) w)
        (hex_loop patience port value (clamp_digits num_digits))

  -- The rest of `serial_write_int` after the sign: nothing is written of a negative number.
  pub write_magnitude : ℕ → ℕ → ℕ → W → Option W
  write_magnitude patience port value w =
      if value == 0
      then serial_write_char patience port 48 w
      else if leb (2 ^ 63) value
      then some w
      else serial_write_string patience port (int_loop 20 value []) w

  pub serial_write_int : ℕ → ℕ → ℕ → W → Option W
  serial_write_int patience port value w =
      if leb (2 ^ 63) value
      then and_then (serial_write_char patience port 45 w)
          (write_magnitude patience port (negated value))
      else write_magnitude patience port value w
