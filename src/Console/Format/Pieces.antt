-- ===== src/Console/Format/Pieces.antt =====
-- What the conversions of kernel/src/kernel/io.c mean: the text that a format of literal characters,
-- strings and numbers prints.
use freecore.Prelude.{
  ℕ, ◌-◌, ◌^◌, ◌<◌, ◌≡◌, ◌≢◌, Bool, true, false, if◌then◌else◌, Option, List, [], ◌∷◌, ◌++◌,
}
use freecore.Console.Number.Widths.{IsNumeral}
use freecore.Console.Format.{convert}

-- A character of the format, `%%`, `%s` of the string at an address, `%u` and `%x` of a word of 32 bits,
-- and `%d` of an `int`, given by its sign and its magnitude.
pub data Piece : Type 0 where
  char : ℕ → Piece
  percent : Piece
  string : ℕ → Piece
  unsigned : ℕ → Piece
  hex : ℕ → Piece
  signed : Bool → ℕ → Piece

abbrev pub format_of : List Piece → List ℕ
format_of [] = []
format_of (char c ∷ ps) = c ∷ format_of ps
format_of (percent ∷ ps) = 37 ∷ 37 ∷ format_of ps
format_of (string p ∷ ps) = 37 ∷ 115 ∷ format_of ps
format_of (unsigned v ∷ ps) = 37 ∷ 117 ∷ format_of ps
format_of (hex v ∷ ps) = 37 ∷ 120 ∷ format_of ps
format_of (signed minus m ∷ ps) = 37 ∷ 100 ∷ format_of ps

-- The words that are passed, a negative number as its two's complement of 32 bits.
abbrev pub args_of : List Piece → List ℕ
args_of [] = []
args_of (char c ∷ ps) = args_of ps
args_of (percent ∷ ps) = args_of ps
args_of (string p ∷ ps) = p ∷ args_of ps
args_of (unsigned v ∷ ps) = v ∷ args_of ps
args_of (hex v ∷ ps) = v ∷ args_of ps
args_of (signed minus m ∷ ps) = (if minus then 2 ^ 32 - m else m) ∷ args_of ps

-- The next word of a list.
abbrev pub take_word : List ℕ → ℕ × List ℕ
take_word [] = (0, [])
take_word (word ∷ words) = (word, words)

-- The texts of a piece.
abbrev pub Shows : (ℕ → List ℕ) → Piece → List ℕ → Type 0
Shows string_at (char c) t = t ≡ c ∷ []
Shows string_at percent t = t ≡ 37 ∷ []
Shows string_at (string p) t = t ≡ string_at p
Shows string_at (unsigned v) t = IsNumeral 10 v t
Shows string_at (hex v) t = IsNumeral 16 v t
Shows string_at (signed minus m) t =
    (digits : List ℕ) × IsNumeral 10 m digits × (t ≡ (if minus then 45 ∷ digits else digits))

-- What a piece can be: the characters of a format are neither NUL nor `%`, no string is at NULL, and the
-- numbers have 32 bits.
abbrev pub IsPiece : Piece → Type 0
IsPiece (char c) = (c ≢ 0) × (c ≢ 37)
IsPiece percent = Unit
IsPiece (string p) = p ≢ 0
IsPiece (unsigned v) = v < 2 ^ 32
IsPiece (hex v) = v < 2 ^ 32
IsPiece (signed minus m) = (m < 2 ^ 31) × (minus ≡ true → 0 < m)

abbrev pub ArePieces : List Piece → Type 0
ArePieces [] = Unit
ArePieces (p ∷ ps) = IsPiece p × ArePieces ps

-- The text of the pieces, one behind the other.
pub data Texts (string_at : ℕ → List ℕ) : List Piece → List ℕ → Type 0 where
  done : Texts string_at [] []
  next :
      {p : Piece} {ps : List Piece} (t rest : List ℕ)
      → Shows string_at p t
      → Texts string_at ps rest
      → Texts string_at (p ∷ ps) (t ++ rest)

module _ (string_at : ℕ → List ℕ) where
  -- A conversion without flags, by its letter.
  abbrev converted : ℕ → List ℕ → Option (List ℕ)
  converted c words =
      (convert take_word string_at c
        (record { pad_char = 32; width = 0; long_flag = false; rest = [] }) words).0
