-- ===== src/Console/Format.antt =====
-- `kvsnprintf` of kernel/src/kernel/io.c. The format is the memory from its address on: a byte behind
-- the end of the list is 0. The arguments are words of 64 bits that `next_arg`, which stands for
-- `va_arg`, takes one by one, and `string_at` is the text, up to its NUL, at an address. What is stored
-- in the buffer is the list of its bytes, before the NUL. A width is the word of an `int`, which is taken
-- to wrap around.
pub mod Refine
pub mod Pieces
use freecore.Prelude.{
  ℕ, zero, suc, ◌+◌, ◌-◌, ◌*◌, ◌%◌, ◌^◌, Bool, true, false, not, ◌&&◌, ◌||◌, ◌==◌, ltb, leb,
  if◌then◌else◌, Option, none, some, List, [], ◌∷◌, ◌++◌, length,
}
use freecore.Console.Number.{int_to_string}

-- `fmt[i]`, with the list from `i` on, and the list after `i++`.
abbrev pub head_or_nul : List ℕ → ℕ
head_or_nul [] = 0
head_or_nul (c ∷ fmt) = c

abbrev pub tail_of : List ℕ → List ℕ
tail_of [] = []
tail_of (c ∷ fmt) = fmt

-- What stands between `%` and the conversion, and the format from there on.
pub record Spec : Type 0 where
  pub pad_char : ℕ
  pub width : ℕ
  pub long_flag : Bool
  pub rest : List ℕ

-- `while (fmt[i] >= '0' && fmt[i] <= '9') { ... }`
pub width_loop : ℕ → List ℕ → ℕ × List ℕ
width_loop width [] = (width, [])
width_loop width (c ∷ fmt) =
    let more = width_loop ((width * 10 + (c - 48)) % 2 ^ 32) fmt in
    if leb 48 c && leb c 57 then more else (width, c ∷ fmt)

abbrev pub skip_if : ℕ → List ℕ → List ℕ
skip_if c fmt = if head_or_nul fmt == c then tail_of fmt else fmt

pub parse_spec : List ℕ → Spec
parse_spec fmt =
    let (width, after_width) = width_loop 0 (skip_if 48 fmt) in
    let is_long = head_or_nul after_width == 108 in
    record {
      pad_char = if head_or_nul fmt == 48 then 48 else 32;
      width = width;
      long_flag = is_long;
      rest = if is_long then skip_if 108 (tail_of after_width) else after_width;
    }

-- `va_arg(args, int64_t)` or `va_arg(args, int)`, as the `uint64_t` that `int_to_string` gets
abbrev pub signed_arg : Bool → ℕ → ℕ
signed_arg long_flag word =
    let low = word % 2 ^ 32 in
    if long_flag then word else if leb (2 ^ 31) low then 2 ^ 64 - 2 ^ 32 + low else low

-- `va_arg(args, uint64_t)` or `va_arg(args, unsigned int)`
abbrev pub unsigned_arg : Bool → ℕ → ℕ
unsigned_arg long_flag word = if long_flag then word else word % 2 ^ 32

-- The text of a number in the array `tmp` of 24 characters.
abbrev pub number_text : ℕ → ℕ → Bool → Spec → Option (List ℕ)
number_text value base is_signed spec =
    int_to_string value base is_signed spec.width spec.pad_char 24

-- `(null)`
abbrev pub null_text : List ℕ
null_text = 40 ∷ 110 ∷ 117 ∷ 108 ∷ 108 ∷ 41 ∷ []

-- `if (out_idx < size - 1) buf[out_idx++] = c;` for each character, with `size - 1`
pub put_all : ℕ → List ℕ → List ℕ → List ℕ
put_all limit out [] = out
put_all limit out (c ∷ text) =
    let stored = put_all limit (out ++ (c ∷ [])) text in
    if ltb (length out) limit then stored else out

-- Two texts, one behind the other, unless the making of one went over its array.
abbrev pub join_text : Option (List ℕ) → Option (List ℕ) → Option (List ℕ)
join_text none rest = none
join_text (some text) none = none
join_text (some text) (some rest) = some (text ++ rest)

-- What the call leaves: nothing is stored, with the result 0, if `buf` is NULL or there is no room;
-- otherwise the bytes before the NUL, whose number is the result; or a number went over its array.
pub data Stored : Type 0 where
  nothing : Stored
  stored : List ℕ → Stored
  overrun : Stored

abbrev stored_text : Option (List ℕ) → Stored
stored_text none = overrun
stored_text (some text) = stored text

module _ {A : Type 0} (next_arg : A → ℕ × A) (string_at : ℕ → List ℕ) where
  -- What a conversion has to store, one character after another, and the arguments that are left.
  pub convert : ℕ → Spec → A → Option (List ℕ) × A
  convert c spec args =
      let (word, args') = next_arg args in
      let str = if word == 0 then null_text else string_at word in
      if c == 99
      then (some (word % 256 ∷ []), args')
      else if c == 115
      then (some str, args')
      else if (c == 100) || (c == 105)
      then (number_text (signed_arg spec.long_flag word) 10 true spec, args')
      else if c == 117
      then (number_text (unsigned_arg spec.long_flag word) 10 false spec, args')
      else if (c == 120) || (c == 88)
      then (number_text (unsigned_arg spec.long_flag word) 16 false spec, args')
      else if c == 112
      then (join_text (some (48 ∷ 120 ∷ [])) (int_to_string word 16 false 16 48 24), args')
      else if c == 37
      then (some (37 ∷ []), args)
      else (some (37 ∷ c ∷ []), args)

  -- The loop over the format, with the rounds left.
  pub format_loop : ℕ → ℕ → List ℕ → List ℕ → A → Option (List ℕ)
  format_loop zero limit fmt out args = some out
  format_loop (suc rounds) limit fmt out args =
      let c = head_or_nul fmt in
      let spec = parse_spec (tail_of fmt) in
      let (text, args') = convert (head_or_nul spec.rest) spec args in
      let formatted : Option (List ℕ) = elim text [
        | none ↦ none
        | some t ↦ format_loop rounds limit (tail_of spec.rest) (put_all limit out t) args'
      ] in
      let copied = format_loop rounds limit (tail_of fmt) (out ++ (c ∷ [])) args in
      if (c == 0) || not (ltb (length out) limit)
      then some out
      else if c == 37
      then formatted
      else copied

  pub kvsnprintf : ℕ → ℕ → List ℕ → A → Stored
  kvsnprintf buf size fmt args =
      if (buf == 0) || (size == 0)
      then nothing
      else stored_text (format_loop (length fmt) (size - 1) fmt [] args)
