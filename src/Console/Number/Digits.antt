-- ===== src/Console/Number/Digits.antt =====
-- The digits of a number in kernel/src/kernel/io.c, and the loops that store, pad and copy them.
use freecore.Prelude.{
  ℕ, zero, suc, ◌+◌, ◌-◌, ◌*◌, ◌/◌, ◌%◌, ◌^◌, ◌≤◌, ◌<◌, ◌≡◌, refl, ap, sym, subst, ◌∙◌, arith, Bool,
  true, false, not, ◌==◌, ◌&&◌, ltb, if◌then◌else◌, inl, inr, Bool-cases, List, [], ◌∷◌, ◌++◌,
  length, get_or, replicate, take,
}
use native.Mathlib.Nat.{pow-zero, pow-suc, div-add-mod', div-lt_iff_lt-mul, mod-lt, mul-le-mul_left}
use freecore.Console.Number.{digits, digits_loop, pad_loop, copy_loop}

-- The value of a digit, and of a text of digits with the most significant first.
unfoldable pub digit_value : ℕ → ℕ
digit_value c = if ltb c 58 then c - 48 else c - 55

unfoldable pub read_digits : ℕ → ℕ → List ℕ → ℕ
read_digits base sum [] = sum
read_digits base sum (c ∷ text) = read_digits base (sum * base + digit_value c) text

-- The characters of a table stand for the numbers from `i` on, and none of them is the NUL.
is_table : ℕ → List ℕ → Bool
is_table i [] = true
is_table i (c ∷ table) = (digit_value c == i) && not (c == 0) && is_table (i + 1) table

is_table_lem :
    (i d : ℕ) (table : List ℕ)
    → is_table i table ≡ true
    → d < length table
    → (digit_value (get_or table d 0) ≡ i + d) × ((get_or table d 0 == 0) ≡ false)
unfolding is_table
is_table_lem i d [] h inside = absurd (omega arith)
is_table_lem i zero (c ∷ table) h inside = (ground arith, ground arith)
is_table_lem i (suc d) (c ∷ table) h inside =
    let rest = is_table_lem (i + 1) d table (ground arith) (omega arith) in
    (rest.0 ∙ omega arith, rest.1)

digits_lem :
    (d : ℕ) → d < 16 → (digit_value (get_or digits d 0) ≡ d) × ((get_or digits d 0 == 0) ≡ false)
unfolding is_table digit_value
digits_lem d h = let entry = is_table_lem 0 d digits refl h in (entry.0 ∙ omega arith, entry.1)

pub digit_value-digits : (d : ℕ) → d < 16 → digit_value (get_or digits d 0) ≡ d
digit_value-digits d h = (digits_lem d h).0

pub digits_loop-read :
    (rounds value base : ℕ) (text : List ℕ)
    → 2 ≤ base
    → base ≤ 16
    → value < 2 ^ rounds
    → read_digits base 0 (digits_loop rounds value base text) ≡ read_digits base value text
unfolding read_digits digits_loop
digits_loop-read zero value base text low high h =
    let none_left : value ≡ 0 = omega arith in ap (λ v. read_digits base v text) (sym none_left)
digits_loop-read (suc rounds) value base text low high h = elim (Bool-cases (value == 0)) [
  | inl e ↦
      let none_left : value ≡ 0 = ground arith in
      rw e (ap (λ v. read_digits base v text) (sym none_left))
  | inr e ↦
      let whole : value / base * base + value % base ≡ value = div-add-mod' value base in
      let digit : value % base < base = mod-lt value (omega arith) in
      let twice : value / base * 2 ≤ value / base * base = mul-le-mul_left (value / base) low in
      let fewer : value / base < 2 ^ rounds = omega arith in
      let meaning : digit_value (get_or digits (value % base) 0) ≡ value % base =
        digit_value-digits (value % base) (omega arith) in
      rw e (
        digits_loop-read rounds (value / base) base (get_or digits (value % base) 0 ∷ text) low high
          fewer
        ∙ ap (λ d. read_digits base (value / base * base + d) text) meaning
        ∙ ap (λ v. read_digits base v text) whole)
]

-- A digit or a sign is not the NUL.
shift : (n c : ℕ) (text : List ℕ) → replicate n c ++ (c ∷ text) ≡ c ∷ (replicate n c ++ text)
shift zero c text = refl
shift (suc n) c text = ap (λ l. c ∷ l) (shift n c text)

pub pad_loop_lem :
    (rounds c : ℕ) (text : List ℕ) → pad_loop rounds c text ≡ replicate rounds c ++ text
unfolding pad_loop
pad_loop_lem zero c text = refl
pad_loop_lem (suc rounds) c text = pad_loop_lem rounds c (c ∷ text) ∙ shift rounds c text

-- No NUL in a text.
unfoldable pub is_text : List ℕ → Bool
is_text [] = true
is_text (c ∷ text) = if c == 0 then false else is_text text

pub copy_loop-take :
    (room : ℕ) (text : List ℕ) → is_text text ≡ true → copy_loop room text ≡ take room text
unfolding is_text copy_loop
copy_loop-take zero [] h = refl
copy_loop-take (suc room) [] h = refl
copy_loop-take zero (c ∷ text) h = refl
copy_loop-take (suc room) (c ∷ text) h = elim (Bool-cases (c == 0)) [
  | inl e ↦ absurd (ground arith)
  | inr e ↦ rw e (ap (λ l. c ∷ l) (copy_loop-take room text (ground arith)))
]

pub digits_loop-is_text :
    (rounds value base : ℕ) (text : List ℕ)
    → 2 ≤ base
    → base ≤ 16
    → is_text text ≡ true
    → is_text (digits_loop rounds value base text) ≡ true
unfolding digits_loop is_text
digits_loop-is_text zero value base text low high h = h
digits_loop-is_text (suc rounds) value base text low high h = elim (Bool-cases (value == 0)) [
  | inl e ↦ rw e h
  | inr e ↦
      let digit : value % base < base = mod-lt value (omega arith) in
      let char = (digits_lem (value % base) (omega arith)).1 in
      rw e (
        digits_loop-is_text rounds (value / base) base (get_or digits (value % base) 0 ∷ text) low
          high (rw char h))
]

-- A number below the power `k` of the base has at most `k` digits.
pub digits_loop-length :
    (rounds k value base : ℕ) (text : List ℕ)
    → 2 ≤ base
    → value < base ^ k
    → length (digits_loop rounds value base text) ≤ k + length text
unfolding digits_loop
digits_loop-length zero k value base text low h = omega arith
digits_loop-length (suc rounds) zero value base text low h =
    let one : base ^ 0 ≡ 1 = pow-zero base in
    let e : (value == 0) ≡ true = ground arith in rw e (omega arith)
digits_loop-length (suc rounds) (suc k) value base text low h = elim (Bool-cases (value == 0)) [
  | inl e ↦ rw e (omega arith)
  | inr e ↦
      let whole : value / base * base + value % base ≡ value = div-add-mod' value base in
      let fewer : value / base < base ^ k =
        (div-lt_iff_lt-mul (omega arith)).1 (subst (λ p. value < p) (pow-suc base k) h) in
      let next =
        digits_loop-length rounds k (value / base) base (get_or digits (value % base) 0 ∷ text) low
          fewer in
      rw e (omega arith)
]
