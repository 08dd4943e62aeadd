-- ===== src/Console/Output.antt =====
-- The output of kernel/src/kernel/io.c: what is printed goes to the serial port. The calls end with none
-- if the port is not ready after `patience` reads of its status, or if a number of the format goes over
-- the array that it is written to. `buffer` is the address of the array on
-- the stack, and a string is not NULL.
pub mod Printed
use freecore.Prelude.{ℕ, Bool, true, ◌==◌, if◌then◌else◌, Option, none, some, List, [], ◌∷◌}
use freecore.Console.Serial.{and_then, serial_init, serial_write_char, serial_write_string}
use freecore.Console.Format.{Stored, nothing, stored, overrun, kvsnprintf}

-- `DEBUG_SERIAL_PORT` and `DEBUG_SERIAL_BAUD`
abbrev pub debug_serial_port : ℕ
debug_serial_port = 0x3F8

abbrev pub debug_serial_baud : ℕ
debug_serial_baud = 1

-- `[FreeCore] Serial port initialized` between two line ends
abbrev pub test_message : List ℕ
test_message =
    13 ∷ 10 ∷ 91 ∷ 70 ∷ 114 ∷ 101 ∷ 101 ∷ 67 ∷ 111 ∷ 114 ∷ 101 ∷ 93 ∷ 32 ∷ 83 ∷ 101 ∷ 114 ∷ 105 ∷ 97
    ∷ 108 ∷ 32 ∷ 112 ∷ 111 ∷ 114 ∷ 116 ∷ 32 ∷ 105 ∷ 110 ∷ 105 ∷ 116 ∷ 105 ∷ 97 ∷ 108 ∷ 105 ∷ 122
    ∷ 101 ∷ 100 ∷ 13 ∷ 10 ∷ []

-- `[DEBUG] ` and `[ERROR] `
abbrev pub debug_prefix : List ℕ
debug_prefix = 91 ∷ 68 ∷ 69 ∷ 66 ∷ 85 ∷ 71 ∷ 93 ∷ 32 ∷ []

abbrev pub error_prefix : List ℕ
error_prefix = 91 ∷ 69 ∷ 82 ∷ 82 ∷ 79 ∷ 82 ∷ 93 ∷ 32 ∷ []

-- `io_initialized`, and the state of the hardware.
pub record Io (W : Type 0) : Type 0 where
  pub io_initialized : Bool
  pub ports : W

module _ {W : Type 0} (inb : ℕ → W → ℕ × W) (outb : ℕ → ℕ → W → W) (patience : ℕ) where
  pub io_init : Io W → Option (Io W)
  io_init s =
      let ready = serial_init inb outb debug_serial_port debug_serial_baud s.ports in
      if s.io_initialized
      then some s
      else and_then (serial_write_string inb outb patience debug_serial_port test_message ready)
          (λ w. some (record { io_initialized = true; ports = w }))

  pub kputchar : ℕ → W → Option W
  kputchar c w = and_then (serial_write_char inb outb patience debug_serial_port c w) (λ w'.
      if c == 10 then serial_write_char inb outb patience debug_serial_port 13 w' else some w')

  pub kputs : List ℕ → W → Option W
  kputs [] w = some w
  kputs (c ∷ str) w =
      let rest = and_then (kputchar c w) (kputs str) in if c == 0 then some w else rest

  abbrev pub put_text : List ℕ → Io W → Option (Io W)
  put_text text s = and_then (kputs text s.ports) (λ w. some (record s { ports = w }))

  -- What is in the buffer, once it has been formatted.
  abbrev pub put_stored : Stored → Io W → Option (Io W)
  put_stored nothing s = put_text [] s
  put_stored (stored text) s = put_text text s
  put_stored overrun s = none

  module _ {A : Type 0} (next_arg : A → ℕ × A) (string_at : ℕ → List ℕ) where
    unfoldable pub ksnprintf : ℕ → ℕ → List ℕ → A → Stored
    ksnprintf buf size fmt args = kvsnprintf next_arg string_at buf size fmt args

    pub kprintf : ℕ → List ℕ → A → Io W → Option (Io W)
    kprintf buffer fmt args s =
        and_then (io_init s) (put_stored (kvsnprintf next_arg string_at buffer 1024 fmt args))

    -- `kdbg` and `kerr`, after the test of `io_initialized`
    abbrev pub prefixed : List ℕ → ℕ → List ℕ → A → Io W → Option (Io W)
    prefixed prefix buffer fmt args s =
        and_then (put_text prefix s)
          (put_stored (kvsnprintf next_arg string_at buffer 1024 fmt args))

    unfoldable pub kdbg : ℕ → List ℕ → A → Io W → Option (Io W)
    kdbg buffer fmt args s = and_then (io_init s) (prefixed debug_prefix buffer fmt args)

    pub kerr : ℕ → List ℕ → A → Io W → Option (Io W)
    kerr buffer fmt args s = and_then (io_init s) (prefixed error_prefix buffer fmt args)
