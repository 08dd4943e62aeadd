-- ===== src/Console/Number.antt =====
-- `int_to_string` of kernel/src/kernel/io.c. A text is the list of its characters. The array `tmp`, which
-- is filled from its end, is the list of what stands there before the NUL, for which it has 64 places.
-- A width is the word of an `int`. The negation of the least `int64_t` is taken to wrap around.
pub mod Digits
pub mod Widths
use freecore.Prelude.{
  ℕ, zero, suc, ◌+◌, ◌-◌, ◌*◌, ◌/◌, ◌%◌, ◌^◌, Bool, ◌&&◌, ◌||◌, ◌==◌, ltb, leb, if◌then◌else◌,
  Option, none, some, List, [], ◌∷◌, length, get_or,
}

-- `digits`
abbrev pub digits : List ℕ
digits = 48 ∷ 49 ∷ 50 ∷ 51 ∷ 52 ∷ 53 ∷ 54 ∷ 55 ∷ 56 ∷ 57 ∷ 65 ∷ 66 ∷ 67 ∷ 68 ∷ 69 ∷ 70 ∷ []

-- `while (value > 0) { *tmp_ptr = digits[value % base]; ... }`, with the rounds left
unfoldable pub digits_loop : ℕ → ℕ → ℕ → List ℕ → List ℕ
digits_loop zero value base text = text
digits_loop (suc rounds) value base text =
    let rest = digits_loop rounds (value / base) base (get_or digits (value % base) 0 ∷ text) in
    if value == 0 then text else rest

-- `while (len < width) { *tmp_ptr = pad_char; ... }`, with the rounds
unfoldable pub pad_loop : ℕ → ℕ → List ℕ → List ℕ
pad_loop zero pad_char text = text
pad_loop (suc rounds) pad_char text = pad_loop rounds pad_char (pad_char ∷ text)

-- `while (*tmp_ptr && out_len < size - 1) buf[out_len++] = *tmp_ptr++;`, with `size - 1`
pub copy_loop : ℕ → List ℕ → List ℕ
copy_loop room [] = []
copy_loop zero (c ∷ text) = []
copy_loop (suc room) (c ∷ text) = let rest = copy_loop room text in if c == 0 then [] else c ∷ rest

-- The sign test and the magnitude.
abbrev pub is_minus : Bool → ℕ → Bool
is_minus is_signed value = is_signed && leb (2 ^ 63) value

abbrev pub magnitude : Bool → ℕ → ℕ
magnitude is_signed value = if is_minus is_signed value then 2 ^ 64 - value else value

-- The digits, with the sign.
abbrev pub signed_text : Bool → ℕ → ℕ → List ℕ
signed_text is_signed value base =
    let m = magnitude is_signed value in
    let text = if m == 0 then 48 ∷ [] else digits_loop 64 m base [] in
    if is_minus is_signed value then 45 ∷ text else text

-- The rounds of the padding; a negative width has none.
abbrev pub pad_count : ℕ → ℕ → ℕ
pad_count width len = if leb (2 ^ 31) width then 0 else width - len

-- What is written from the end of `tmp` on before it is copied.
unfoldable pub tmp_text : ℕ → ℕ → Bool → ℕ → ℕ → List ℕ
tmp_text value base is_signed width pad_char =
    let text = signed_text is_signed value base in
    pad_loop (pad_count width (length text)) pad_char text

-- The characters that are stored, before the NUL; the result of the function is their number. With an
-- invalid base or the size 0 nothing is stored. None: more characters than `tmp` has places, of which the
-- first are written in front of it, over whatever stands there.
unfoldable pub int_to_string : ℕ → ℕ → Bool → ℕ → ℕ → ℕ → Option (List ℕ)
int_to_string value base is_signed width pad_char size =
    if ltb base 2 || ltb 16 base
    then some []
    else if size == 0
    then some []
    else if leb (length (tmp_text value base is_signed width pad_char)) 64
    then some (copy_loop (size - 1) (tmp_text value base is_signed width pad_char))
    else none
