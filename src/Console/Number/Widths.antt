-- ===== src/Console/Number/Widths.antt =====
-- What the text of a number in kernel/src/kernel/io.c means, and what the widths do to it.
use freecore.Prelude.{
  ℕ, zero, suc, ◌+◌, ◌-◌, ◌*◌, ◌^◌, ◌≤◌, ◌<◌, ◌≡◌, refl, ap, sym, ◌∙◌, arith, Bool, true, false,
  ◌==◌, ltb, leb, some, if◌then◌else◌, inl, inr, Bool-cases, List, [], ◌∷◌, ◌++◌, length, replicate,
  take, take_all,
}
use native.Mathlib.Nat.{pow-le-pow_left}
use freecore.Console.Number.{
  digits_loop, pad_loop, is_minus, magnitude, signed_text, pad_count, tmp_text, int_to_string,
}
use freecore.Console.Number.Digits.{
  digit_value, read_digits, is_text, copy_loop-take, digits_loop-read, digits_loop-is_text,
  digits_loop-length,
}

take-replicate :
    (n k c : ℕ) (text : List ℕ) → n ≤ k → take n (replicate k c ++ text) ≡ replicate n c
take-replicate zero k c text h = refl
take-replicate (suc n) zero c text h = absurd (omega arith)
take-replicate (suc n) (suc k) c text h = ap (λ l. c ∷ l) (take-replicate n k c text (omega arith))

-- What stands in `tmp` for a number without a sign.
abbrev unsigned_text : ℕ → ℕ → List ℕ
unsigned_text value base = if value == 0 then 48 ∷ [] else digits_loop 64 value base []

unsigned_text-is_text :
    (value base : ℕ) → 2 ≤ base → base ≤ 16 → is_text (unsigned_text value base) ≡ true
unfolding is_text
unsigned_text-is_text value base low high = elim (Bool-cases (value == 0)) [
  | inl e ↦ rw e refl
  | inr e ↦ rw e (digits_loop-is_text 64 value base [] low high refl)
]

with_sign :
    (minus : Bool) (text : List ℕ)
    → is_text text ≡ true
    → is_text (if minus then 45 ∷ text else text) ≡ true
unfolding is_text
with_sign true text h = h
with_sign false text h = h

record IsPlain (value base k : ℕ) : Type 0 where
  meaning : read_digits base 0 (unsigned_text value base) ≡ value
  text : is_text (unsigned_text value base) ≡ true
  short : length (unsigned_text value base) ≤ k

unsigned_text-IsPlain :
    (value base k : ℕ)
    → 2 ≤ base
    → base ≤ 16
    → value < 2 ^ 64
    → value < base ^ k
    → 0 < k
    → IsPlain value base k
unfolding read_digits digit_value
unsigned_text-IsPlain value base k low high word fits some_digit = elim (Bool-cases (value == 0)) [
  | inl e ↦
      let none_left : value ≡ 0 = ground arith in
      let nothing : 0 * base + 0 ≡ 0 = omega arith in
      record {
        meaning = rw e (nothing ∙ sym none_left);
        text = unsigned_text-is_text value base low high;
        short = rw e (omega arith);
      }
  | inr e ↦ record {
    meaning = rw e (digits_loop-read 64 value base [] low high word);
    text = unsigned_text-is_text value base low high;
    short = rw e (omega (arith, digits_loop-length 64 k value base [] low fits));
  }
]

-- What `int_to_string` stores of a text without a NUL that fits `tmp` and the buffer.
int_to_string-stored :
    (value base : ℕ) (is_signed : Bool) (width pad_char size : ℕ) (padded : List ℕ)
    → 2 ≤ base
    → base ≤ 16
    → 0 < size
    → tmp_text value base is_signed width pad_char ≡ padded
    → is_text padded ≡ true
    → length padded < size
    → length padded ≤ 64
    → int_to_string value base is_signed width pad_char size ≡ some padded
unfolding int_to_string
int_to_string-stored value base is_signed width pad_char size padded low high room same text short
      fits =
    let e1 : ltb base 2 ≡ false = ground arith in
    let e2 : ltb 16 base ≡ false = ground arith in
    let e3 : (size == 0) ≡ false = ground arith in
    let e4 : leb (length padded) 64 ≡ true = ground arith in
    rw (e1, e2, e3, same, e4)
      (ap some (copy_loop-take (size - 1) padded text ∙ take_all (size - 1) padded (omega arith)))

-- A text without a sign that reads back as the number, of at most so many digits.
pub record IsNumeral (base value : ℕ) (text : List ℕ) : Type 0 where
  pub meaning : read_digits base 0 text ≡ value
  pub visible : is_text text ≡ true

-- Without a width, a number below 2^32 is stored as its digits, with a minus in front if it has one.
pub int_to_string-IsNumeral :
    (value base : ℕ) (is_signed : Bool) (pad_char m : ℕ)
    → 10 ≤ base
    → base ≤ 16
    → magnitude is_signed value ≡ m
    → m < 2 ^ 32
    → (text : List ℕ) × IsNumeral base m text
      × (int_to_string value base is_signed 0 pad_char 24
          ≡ some (if is_minus is_signed value then 45 ∷ text else text))
unfolding tmp_text pad_loop
int_to_string-IsNumeral value base is_signed pad_char m low high size small =
    let power : 10 ^ 10 ≤ base ^ 10 = pow-le-pow_left low 10 in
    let plain =
      unsigned_text-IsPlain m base 10 (omega arith) high (omega arith) (omega arith)
        (omega arith) in
    let text = unsigned_text m base in
    let minus = is_minus is_signed value in
    let signed = if minus then 45 ∷ text else text in
    let same : signed_text is_signed value base ≡ signed =
      ap (λ n. if minus then 45 ∷ unsigned_text n base else unsigned_text n base) size in
    let count : pad_count 0 (length (signed_text is_signed value base)) ≡ 0 = omega arith in
    let long : length signed ≤ 11 = elim (Bool-cases minus) [
      | inl e ↦ rw e (omega (arith, plain.short))
      | inr e ↦ rw e (omega (arith, plain.short))
    ] in
    (
      text,
      record { meaning = plain.meaning; visible = plain.text },
      int_to_string-stored value base is_signed 0 pad_char 24 signed (omega arith) high
          (omega arith)
          (ap (λ n. pad_loop n pad_char (signed_text is_signed value base)) count ∙ same)
          (with_sign minus text plain.text) (omega (arith, long)) (omega (arith, long)),
    )
