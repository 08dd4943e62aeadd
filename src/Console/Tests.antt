-- ===== src/Console/Tests.antt =====
-- The theorems on kernel/src/kernel/io.c and kernel/src/arch/x86/serial.c at concrete texts and a port
-- that is always ready.
use freecore.Prelude.{ℕ, ◌≡◌, refl, true, false, none, List, [], ◌∷◌, ◌++◌}
use freecore.Console.Number.{int_to_string, tmp_text, digits_loop, pad_loop}
use freecore.Console.Format.Pieces.{Piece, char, string, hex, signed}
use freecore.Console.Output.{Io}

-- A width of 65 is one too many for the array.
too_wide : int_to_string 255 16 false 65 48 24 ≡ none
unfolding int_to_string tmp_text digits_loop pad_loop
too_wide = refl

-- `n=%d %s %x` of -7, the string `ab` and 255.
abbrev some_text : ℕ → List ℕ
some_text address = 97 ∷ 98 ∷ []

abbrev some_pieces : List Piece
some_pieces = char 110 ∷ char 61 ∷ signed true 7 ∷ char 32 ∷ string 4096 ∷ char 32 ∷ hex 255 ∷ []

-- A port whose state is what was sent; it is always ready.
abbrev ready_status : ℕ → List ℕ → ℕ × List ℕ
ready_status port w = (0x20, w)

abbrev send_byte : ℕ → ℕ → List ℕ → List ℕ
send_byte port c w = w ++ (c ∷ [])

abbrev all_sent : List ℕ → List ℕ
all_sent w = w

abbrev never_busy : List ℕ → ℕ
never_busy w = 0

abbrev output_on : Io (List ℕ)
output_on = record { io_initialized = true; ports = [] }
