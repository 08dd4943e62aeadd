-- ===== src/Mouse/Ports.antt =====
-- The exchange of kernel/src/arch/x86/mouse.c with the mouse. The functions that wait for the
-- controller are copies of those of keyboard.c, with the ports and the masks of mouse.h, which are the
-- same. The instructions `inb` and `outb` are parameters.
use freecore.Prelude.{ℕ, zero, suc, ◌==◌, not, if◌then◌else◌}
use freecore.Keyboard.Ports.{ps2_data_port, ps2_command_port, output_full, input_full, wait_while}

abbrev pub ps2_cmd_write_mouse : ℕ
ps2_cmd_write_mouse = 0xD4

abbrev pub mouse_cmd_reset : ℕ
mouse_cmd_reset = 0xFF

abbrev pub mouse_cmd_default : ℕ
mouse_cmd_default = 0xF6

abbrev pub mouse_cmd_enable : ℕ
mouse_cmd_enable = 0xF4

abbrev pub mouse_cmd_disable : ℕ
mouse_cmd_disable = 0xF5

abbrev pub mouse_cmd_set_sample : ℕ
mouse_cmd_set_sample = 0xF3

abbrev pub mouse_cmd_get_device_id : ℕ
mouse_cmd_get_device_id = 0xF2

abbrev pub mouse_cmd_set_res : ℕ
mouse_cmd_set_res = 0xE8

abbrev pub mouse_resp_ack : ℕ
mouse_resp_ack = 0xFA

abbrev pub mouse_resp_nak : ℕ
mouse_resp_nak = 0xFE

abbrev pub mouse_resp_self_test : ℕ
mouse_resp_self_test = 0xAA

abbrev pub mouse_resp_id_scroll : ℕ
mouse_resp_id_scroll = 0x03

abbrev pub mouse_resp_id_5btn : ℕ
mouse_resp_id_5btn = 0x04

module _ {W : Type 0} (inb : ℕ → W → ℕ × W) (outb : ℕ → ℕ → W → W) where
  unfoldable pub ps2_wait_for_input : W → W
  ps2_wait_for_input w = wait_while inb outb input_full 1000 w

  unfoldable pub ps2_wait_for_output : W → W
  ps2_wait_for_output w = wait_while inb outb (λ status. not (output_full status)) 1000 w

  unfoldable pub ps2_send_command : ℕ → W → W
  ps2_send_command command w = outb ps2_command_port command (ps2_wait_for_input w)

  unfoldable pub ps2_send_command_data : ℕ → ℕ → W → W
  ps2_send_command_data command byte w =
      outb ps2_data_port byte (ps2_wait_for_input (ps2_send_command command w))

  -- `ps2_wait_for_output(); inb(PS2_DATA_PORT)`
  abbrev pub read_answer : W → ℕ × W
  read_answer w = inb ps2_data_port (ps2_wait_for_output w)

  -- A byte to the mouse, and the answer to it.
  unfoldable pub tell_mouse : ℕ → W → ℕ × W
  tell_mouse byte w =
      let chosen = outb ps2_command_port ps2_cmd_write_mouse (ps2_wait_for_input w) in
      read_answer (outb ps2_data_port byte (ps2_wait_for_input chosen))

  -- The loop of `mouse_send_command`, with the retries left and the last response.
  command_loop : ℕ → ℕ → ℕ → W → ℕ × W
  command_loop zero command response w = (response, w)
  command_loop (suc retries) command response w =
      let (answer, w') = tell_mouse command w in
      let rest = command_loop retries command answer w' in
      if answer == mouse_resp_ack
      then (answer, w')
      else if answer == mouse_resp_nak
      then rest
      else (answer, w')

  -- `response` has no value before the first round, which always runs.
  unfoldable pub mouse_send_command : ℕ → W → ℕ × W
  unfolding command_loop
  mouse_send_command command w = command_loop 3 command 0 w

  -- The loop of `mouse_send_command_data`.
  data_loop : ℕ → ℕ → ℕ → ℕ → W → ℕ × W
  data_loop zero command byte response w = (response, w)
  data_loop (suc retries) command byte response w =
      let (answer, w1) = mouse_send_command command w in
      let again = data_loop retries command byte answer w1 in
      let (second, w2) = tell_mouse byte w1 in
      let rest = data_loop retries command byte second w2 in
      if not (answer == mouse_resp_ack)
      then again
      else if second == mouse_resp_ack
      then (second, w2)
      else if second == mouse_resp_nak
      then rest
      else (second, w2)

  unfoldable pub mouse_send_command_data : ℕ → ℕ → W → ℕ × W
  unfolding data_loop
  mouse_send_command_data command byte w = data_loop 3 command byte 0 w
