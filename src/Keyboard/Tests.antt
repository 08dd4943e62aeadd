-- ===== src/Keyboard/Tests.antt =====
-- The theorems on kernel/src/arch/x86/keyboard.c at a keyboard with one scancode in its buffer.
use freecore.Prelude.{
  sym, ◌∙◌, ◌==◌, if◌then◌else◌, List, [], ◌∷◌, ℤ, none, some, ℕ, not, ◌≡◌, refl, arith, false, ltb,
  ◌++◌, replicate, length-replicate, ap, suc,
}
use freecore.Keyboard.Buffer.{KbBuffer, kb_buffer_size, kb_buffer_add, kb_buffer_get}
use freecore.Keyboard.Buffer.Queue.{
  IsBuffer, queue, GetAnswer, kb_buffer_add-queue, kb_buffer_get-queue,
}
use freecore.Keyboard.Input.{
  Keyboard, ps2_scancode_to_ascii, has_state, kb_state_shift, kb_state_caps_lock,
}
use freecore.Descriptors.Idt.{Idt, no_gate}
use mathlib.Core.Bool.{true≢false}
use freecore.Keyboard.Ports.{output_full}
use freecore.Keyboard.Start.{ps2_keyboard_init}
use freecore.Keyboard.Start.Begun.{IsController, IsBegun, ps2_keyboard_init-IsBegun}
use freecore.Keyboard.Input.State.{ps2_scancode_to_ascii-letter}

abbrev one_code : KbBuffer
one_code = record { codes = 30 ∷ replicate 31 0; head = 1; tail = 0; count = 1 }

one_code-IsBuffer : IsBuffer one_code
one_code-IsBuffer = record {
  size = ap suc (length-replicate {A = ℕ} 31 0);
  tail_inside = omega arith;
  bounded = omega arith;
  apart = refl;
}

kb_buffer_add-queue_example :
    IsBuffer (kb_buffer_add 48 one_code)
    × (queue (kb_buffer_add 48 one_code)
        ≡ (if ltb 1 kb_buffer_size then queue one_code ++ (48 ∷ []) else queue one_code))
kb_buffer_add-queue_example = kb_buffer_add-queue 48 one_code one_code-IsBuffer

kb_buffer_get-queue_example :
    IsBuffer (kb_buffer_get one_code).1 × GetAnswer (queue one_code) (kb_buffer_get one_code)
kb_buffer_get-queue_example = kb_buffer_get-queue one_code one_code-IsBuffer

-- Hardware that answers every read with an acknowledgement.
abbrev ready_port : ℕ → ℕ → ℕ × ℕ
ready_port port w = (0xFA, w)

abbrev no_write : ℕ → ℕ → ℕ → ℕ
no_write port byte w = w

abbrev idle : Keyboard ℕ
idle = record {
  keyboard_state = 0;
  keyboard_leds = 0;
  kb_buffer = one_code;
  extended = false;
  ports = 0;
}

ps2_scancode_to_ascii-letter_example :
    (has_state idle kb_state_shift ≡ has_state idle kb_state_caps_lock
      → ps2_scancode_to_ascii ready_port no_write 0x30 false idle ≡ (98, idle))
    × (has_state idle kb_state_shift ≡ not (has_state idle kb_state_caps_lock)
        → ps2_scancode_to_ascii ready_port no_write 0x30 false idle ≡ (66, idle))
ps2_scancode_to_ascii-letter_example =
    ps2_scancode_to_ascii-letter ready_port no_write 1 idle (omega arith)

-- Hardware with no byte waiting, that answers from a list as a keyboard does that starts: the
-- configuration, the two tests, and the commands, with the self-test behind the reset.
abbrev scripted_port : ℕ → List ℕ → ℕ × List ℕ
scripted_port port [] = (0, [])
scripted_port port (byte ∷ bytes) = if port == 0x60 then (byte, bytes) else (0, byte ∷ bytes)

abbrev ignore_write : ℕ → ℕ → List ℕ → List ℕ
ignore_write port byte w = w

abbrev not_started : Idt (Keyboard (List ℕ))
not_started = record {
  idt = λ v. no_gate;
  idt_ptr = record { limit = 0; base = 0 };
  exception_handlers = λ v. none;
  machine = record {
    keyboard_state = 0;
    keyboard_leds = 0;
    kb_buffer = one_code;
    extended = false;
    ports = 0 ∷ 0x55 ∷ 0x00 ∷ 0xFA ∷ 0xAA ∷ 0xFA ∷ 0xFA ∷ 0xFA ∷ 0xFA ∷ [];
  };
}

none_waiting : (w : List ℕ) → output_full (scripted_port 0x64 w).0 ≡ false
none_waiting [] = refl
none_waiting (byte ∷ bytes) = refl

scripted-IsController : IsController scripted_port ignore_write (λ w. 0)
scripted-IsController = record { taken = λ w e. absurd (true≢false (sym e ∙ none_waiting w)) }

ps2_keyboard_init-IsBegun_example :
    (r : ℤ × Idt (Keyboard (List ℕ))) × (ps2_keyboard_init scripted_port ignore_write 1 not_started
      ≡ some r)
    × IsBegun scripted_port ignore_write not_started r
ps2_keyboard_init-IsBegun_example =
    ps2_keyboard_init-IsBegun scripted_port ignore_write (λ w. 0) 1 not_started
      scripted-IsController (ap suc (length-replicate {A = ℕ} 31 0)) (omega arith)
