-- ===== src/Keyboard/Ports.antt =====
-- The exchange of kernel/src/arch/x86/keyboard.c with the PS/2 controller. The instructions `inb` and
-- `outb` are parameters, on a state of the hardware of any type; a read may change it.
use freecore.Prelude.{ℕ, zero, suc, ◌/◌, ◌%◌, Bool, ◌==◌, not, if◌then◌else◌}

abbrev pub ps2_data_port : ℕ
ps2_data_port = 0x60

abbrev pub ps2_status_port : ℕ
ps2_status_port = 0x64

abbrev pub ps2_command_port : ℕ
ps2_command_port = 0x64

abbrev pub kb_cmd_set_leds : ℕ
kb_cmd_set_leds = 0xED

abbrev pub kb_resp_ack : ℕ
kb_resp_ack = 0xFA

abbrev pub kb_resp_resend : ℕ
kb_resp_resend = 0xFE

-- `status & PS2_STATUS_OUTPUT_FULL` and `status & PS2_STATUS_INPUT_FULL`
abbrev pub output_full : ℕ → Bool
output_full status = status % 2 == 1

abbrev pub input_full : ℕ → Bool
input_full status = status / 2 % 2 == 1

module _ {W : Type 0} (inb : ℕ → W → ℕ × W) (outb : ℕ → ℕ → W → W) where
  -- `while (busy(inb(PS2_STATUS_PORT)) && timeout--);`
  pub wait_while : (ℕ → Bool) → ℕ → W → W
  wait_while busy zero w = (inb ps2_status_port w).1
  wait_while busy (suc timeout) w =
      let (status, w') = inb ps2_status_port w in
      let rest = wait_while busy timeout w' in if busy status then rest else w'

  abbrev pub ps2_wait_for_input : W → W
  ps2_wait_for_input w = wait_while input_full 1000 w

  abbrev pub ps2_wait_for_output : W → W
  ps2_wait_for_output w = wait_while (λ status. not (output_full status)) 1000 w

  abbrev pub ps2_send_command : ℕ → W → W
  ps2_send_command command w = outb ps2_command_port command (ps2_wait_for_input w)

  abbrev pub ps2_send_command_data : ℕ → ℕ → W → W
  ps2_send_command_data command byte w =
      outb ps2_data_port byte (ps2_wait_for_input (ps2_send_command command w))

  -- A byte to the data port, and the answer to it.
  abbrev pub exchange : ℕ → W → ℕ × W
  exchange byte w =
      inb ps2_data_port (ps2_wait_for_output (outb ps2_data_port byte (ps2_wait_for_input w)))

  -- The loop, with the retries that are left and the last response.
  send_loop : ℕ → ℕ → ℕ → W → ℕ × W
  unfolding wait_while
  send_loop zero command response w = (response, w)
  send_loop (suc retries) command response w =
      let (answer, w') = exchange command w in
      let rest = send_loop retries command answer w' in
      if answer == kb_resp_resend then rest else (answer, w')

  -- `response` has no value before the first round, which always runs.
  pub kb_send_command : ℕ → W → ℕ × W
  unfolding send_loop
  kb_send_command command w = send_loop 3 command 0 w

  send_data_loop : ℕ → ℕ → ℕ → ℕ → W → ℕ × W
  unfolding kb_send_command
  send_data_loop zero command byte response w = (response, w)
  send_data_loop (suc retries) command byte response w =
      let (answer, w1) = kb_send_command command w in
      let again = send_data_loop retries command byte answer w1 in
      let (second, w2) = exchange byte w1 in
      let rest = send_data_loop retries command byte second w2 in
      if not (answer == kb_resp_ack)
      then again
      else if second == kb_resp_resend
      then rest
      else (second, w2)

  unfoldable pub kb_send_command_data : ℕ → ℕ → W → ℕ × W
  unfolding send_data_loop
  kb_send_command_data command byte w = send_data_loop 3 command byte 0 w
