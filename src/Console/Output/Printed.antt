-- ===== src/Console/Output/Printed.antt =====
-- What the functions of kernel/src/kernel/io.c send to a serial port that becomes ready in time.
use freecore.Prelude.{ℕ, ◌≡◌, true, ◌==◌, if◌then◌else◌, Option, some, List, [], ◌∷◌, ◌++◌}
use freecore.Console.Output.{Io}

-- A text as it is sent: up to its NUL, with a carriage return behind every line feed.
pub expanded : List ℕ → List ℕ
expanded [] = []
expanded (c ∷ text) =
    let rest = expanded text in
    if c == 0 then [] else (if c == 10 then c ∷ 13 ∷ [] else c ∷ []) ++ rest

-- A call that ends with the output still initialized, and has sent a text.
unfoldable pub Prints : {W : Type 0} → (W → List ℕ) → Io W → List ℕ → Option (Io W) → Type 0
Prints {W} sent s text r =
    (s' : Io W) × (r ≡ some s')
    × (s'.io_initialized ≡ true)
    × (sent s'.ports ≡ sent s.ports ++ text)
