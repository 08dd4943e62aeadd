-- ===== src/Console/Serial/Texts.antt =====
-- The texts of the numbers that kernel/src/arch/x86/serial.c sends, and what they mean.
use freecore.Prelude.{
  ℕ, zero, suc, ◌+◌, ◌*◌, ◌/◌, ◌%◌, ◌^◌, ◌≤◌, ◌<◌, ◌≡◌, refl, ap, sym, ◌∙◌, arith, ◌==◌,
  if◌then◌else◌, Bool-cases, inl, inr, List, [], ◌∷◌, get_or, length,
}
use native.Mathlib.Nat.{
  pow-suc, div-add-mod', mod-lt, add-mul, one-le-pow, mod-eq_of_lt, add-mul-mod_self_left,
  mul-le-mul_right,
}
use freecore.Console.Number.{digits}
use freecore.Console.Number.Digits.{digit_value, read_digits, digit_value-digits}
use freecore.Console.Serial.{int_loop}

-- The lower `n` digits of a number to the base 16.
unfoldable pub hex_text : ℕ → ℕ → List ℕ
hex_text value zero = []
hex_text value (suc i) = get_or digits (value / 16 ^ i % 16) 0 ∷ hex_text value i

pub length-hex_text : (value n : ℕ) → length (hex_text value n) ≡ n
unfolding hex_text
length-hex_text value zero = refl
length-hex_text value (suc i) = ap suc (length-hex_text value i)

-- The lower part of a number, one digit longer.
mod_step : (value p : ℕ) → 0 < p → value % (p * 16) ≡ value / p % 16 * p + value % p
mod_step value p some_digit =
    let q = value / p / 16 in
    let d = value / p % 16 in
    let whole : value / p * p + value % p ≡ value = div-add-mod' value p in
    let upper : q * 16 + d ≡ value / p = div-add-mod' (value / p) 16 in
    let low : value % p < p = mod-lt value some_digit in
    let digit : d ≤ 15 = omega arith in
    let top : d * p ≤ 15 * p = mul-le-mul_right p digit in
    let parts : d * p + value % p + p * 16 * q ≡ value =
      omega (arith, whole, ap (λ k. k * p) upper, add-mul (q * 16) d p) in
    ap (λ v. v % (p * 16)) (sym parts)
    ∙ add-mul-mod_self_left (d * p + value % p) (p * 16) q
    ∙ mod-eq_of_lt (omega arith)

shift_digit : (sum p : ℕ) → sum * 16 * p ≡ sum * (p * 16)
shift_digit sum p = omega arith

pub hex_text-read_digits :
    (value n sum : ℕ) → read_digits 16 sum (hex_text value n) ≡ sum * 16 ^ n + value % 16 ^ n
unfolding hex_text read_digits
hex_text-read_digits value zero sum = omega arith
hex_text-read_digits value (suc i) sum =
    let d = value / 16 ^ i % 16 in
    let meaning : digit_value (get_or digits d 0) ≡ d = digit_value-digits d (omega arith) in
    let lower : value % 16 ^ suc i ≡ d * 16 ^ i + value % 16 ^ i =
      ap (λ p. value % p) (pow-suc 16 i)
      ∙ mod_step value (16 ^ i) (one-le-pow i 16 (omega arith)) in
    ap (λ c. read_digits 16 (sum * 16 + c) (hex_text value i)) meaning
    ∙ hex_text-read_digits value i (sum * 16 + d)
    ∙ omega (
      arith,
      add-mul (sum * 16) d (16 ^ i),
      shift_digit sum (16 ^ i),
      ap (λ q. sum * q) (pow-suc 16 i),
    )
    ∙ ap (λ v. sum * 16 ^ suc i + v) (sym lower)

-- The text of a number of 64 bits, which is neither negative nor 0, reads back as the number.
pub int_loop-read_digits :
    (rounds value : ℕ) (text : List ℕ)
    → value < 10 ^ rounds
    → read_digits 10 0 (int_loop rounds value text) ≡ read_digits 10 value text
unfolding int_loop read_digits digit_value
int_loop-read_digits zero value text h =
    let none_left : value ≡ 0 = omega arith in ap (λ v. read_digits 10 v text) (sym none_left)
int_loop-read_digits (suc rounds) value text h = elim (Bool-cases (value == 0)) [
  | inl e ↦
      let none_left : value ≡ 0 = ground arith in
      rw e (ap (λ v. read_digits 10 v text) (sym none_left))
  | inr e ↦
      let whole : value / 10 * 10 + digit_value (48 + value % 10) ≡ value = ground arith in
      rw e (
        int_loop-read_digits rounds (value / 10) ((48 + value % 10) ∷ text) (omega arith)
        ∙ ap (λ v. read_digits 10 v text) whole)
]

-- The decimal text of a number.
unfoldable pub decimal : ℕ → List ℕ
decimal value = if value == 0 then 48 ∷ [] else int_loop 20 value []

pub decimal-read_digits : (value : ℕ) → value < 2 ^ 64 → read_digits 10 0 (decimal value) ≡ value
unfolding decimal read_digits digit_value
decimal-read_digits value small = elim (Bool-cases (value == 0)) [
  | inl e ↦ let none_left : 0 ≡ value = ground arith in rw e none_left
  | inr e ↦ rw e (int_loop-read_digits 20 value [] (omega arith))
]
