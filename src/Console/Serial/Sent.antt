-- ===== src/Console/Serial/Sent.antt =====
-- What the functions of kernel/src/arch/x86/serial.c send, on a port that becomes ready in time.
use freecore.Prelude.{
  ℕ, zero, suc, ◌+◌, ◌-◌, ◌/◌, ◌%◌, ◌^◌, ◌<◌, ◌≡◌, ◌≢◌, refl, ap, sym, ◌∙◌, arith, true, false,
  ◌==◌, leb, if◌then◌else◌, Bool-cases, inl, inr, Option, some, List, [], ◌∷◌, ◌++◌, get_or,
  append_assoc, append-nil, ℤ, length,
}
use freecore.Console.Number.{digits}
use freecore.Console.Number.Digits.{read_digits}
use freecore.Console.Serial.Texts.{
  hex_text, length-hex_text, hex_text-read_digits, decimal, decimal-read_digits,
}
use freecore.Console.Serial.{
  tx_ready, and_then, clamp_digits, int_loop, negated, wait_status, serial_write_char,
  serial_write_string, hex_loop, serial_write_hex, write_magnitude, serial_write_int,
}

-- A transmitter: `sent` is what has gone into the data register, and `busy` the reads of the status that
-- still find it busy, fewer than `patience`. A read of the status sends nothing.
pub record IsPort {W : Type 0} (inb : ℕ → W → ℕ × W) (outb : ℕ → ℕ → W → W) (port patience : ℕ)
    (sent : W → List ℕ) (busy : W → ℕ) : Type 0 where
  pub bounded : (w : W) → busy w < patience
  pub idle : (w : W) → busy w ≡ 0 → tx_ready (inb (port + 5) w).0 ≡ true
  pub waiting : (w : W) → 0 < busy w → tx_ready (inb (port + 5) w).0 ≡ false
  pub sooner : (w : W) → 0 < busy w → busy (inb (port + 5) w).1 < busy w
  pub quiet : (w : W) → sent (inb (port + 5) w).1 ≡ sent w
  pub sending : (w : W) (c : ℕ) → sent (outb (port + 0) c w) ≡ sent w ++ (c ∷ [])

-- The call ends, and it has sent a text.
unfoldable pub Sends : {W : Type 0} → (W → List ℕ) → W → List ℕ → Option W → Type 0
Sends {W} sent w text r = (w' : W) × (r ≡ some w') × (sent w' ≡ sent w ++ text)

module _ {W : Type 0} (sent : W → List ℕ) where
  pub nothing : (w : W) → Sends sent w [] (some w)
  unfolding Sends
  nothing w = (w, refl, sym (append-nil (sent w)))

  -- One call after another.
  pub and_then-Sends :
      (w : W) (a b : List ℕ) (r : Option W) (f : W → Option W)
      → Sends sent w a r
      → ((w' : W) → Sends sent w' b (f w'))
      → Sends sent w (a ++ b) (and_then r f)
  unfolding Sends
  and_then-Sends w a b r f (w1, ok, same) next =
      let (w2, ok2, same2) = next w1 in
      (
        w2,
        ap (λ o. and_then o f) ok ∙ ok2,
        same2 ∙ ap (λ l. l ++ b) same ∙ append_assoc (sent w) a b,
      )

module _ {W : Type 0} (inb : ℕ → W → ℕ × W) (outb : ℕ → ℕ → W → W) (port patience : ℕ)
    (sent : W → List ℕ) (busy : W → ℕ) (law : IsPort inb outb port patience sent busy) where
  wait_status-Sends :
      (fuel : ℕ) (w : W)
      → busy w < fuel
      → Sends sent w [] (wait_status inb outb tx_ready fuel port w)
  unfolding wait_status Sends
  wait_status-Sends zero w h = absurd (omega arith)
  wait_status-Sends (suc fuel) w h =
      let w' = (inb (port + 5) w).1 in
      elim (Bool-cases (busy w == 0)) [
        | inl e ↦
            let ready = law.idle w (ground arith) in
            rw ready (w', refl, law.quiet w ∙ sym (append-nil (sent w)))
        | inr e ↦
            let not_ready = law.waiting w (ground arith) in
            let less = law.sooner w (ground arith) in
            let (end, ok, same) = wait_status-Sends fuel w' (omega arith) in
            rw not_ready (end, ok, same ∙ ap (λ l. l ++ []) (law.quiet w))
      ]

  pub serial_write_char-Sends :
      (c : ℕ) (w : W) → Sends sent w (c ∷ []) (serial_write_char inb outb patience port c w)
  unfolding serial_write_char Sends
  serial_write_char-Sends c w =
      and_then-Sends sent w [] (c ∷ []) (wait_status inb outb tx_ready patience port w)
        (λ w'. some (outb (port + 0) c w')) (wait_status-Sends patience w (law.bounded w))
        (λ w'. (outb (port + 0) c w', refl, law.sending w' c))

  -- `serial_write_string` ends, and it has sent the characters of the string in their order.
  pub serial_write_string-Sends :
      (str : List ℕ) (w : W) → Sends sent w str (serial_write_string inb outb patience port str w)
  unfolding serial_write_string
  serial_write_string-Sends [] w = nothing sent w
  serial_write_string-Sends (c ∷ str) w =
      and_then-Sends sent w (c ∷ []) str (serial_write_char inb outb patience port c w)
        (serial_write_string inb outb patience port str) (serial_write_char-Sends c w)
        (serial_write_string-Sends str)

  hex_loop-Sends :
      (value n : ℕ) (w : W)
      → Sends sent w (hex_text value n) (hex_loop inb outb patience port value n w)
  unfolding hex_loop hex_text
  hex_loop-Sends value zero w = nothing sent w
  hex_loop-Sends value (suc i) w =
      let c = get_or digits (value / 16 ^ i % 16) 0 in
      and_then-Sends sent w (c ∷ []) (hex_text value i)
        (serial_write_char inb outb patience port c w) (hex_loop inb outb patience port value i)
        (serial_write_char-Sends c w) (hex_loop-Sends value i)

  -- The length of the text is the number of digits, clamped from 1 to 16, and the text is the lower part
  -- of the value: `serial_write_hex` ends, and it has sent `0x` and that text.
  serial_write_hex-Sends :
      (value : ℕ) (num_digits : ℤ) (w : W)
      → (text : List ℕ) × Sends sent w
          (48 ∷ 120 ∷ text)
          (serial_write_hex inb outb patience port value num_digits w)
        × (length text ≡ clamp_digits num_digits)
        × (read_digits 16 0 text ≡ value % 16 ^ clamp_digits num_digits)
  unfolding serial_write_hex
  serial_write_hex-Sends value num_digits w =
      let n = clamp_digits num_digits in
      (
        hex_text value n,
        and_then-Sends sent w (48 ∷ 120 ∷ []) (hex_text value n)
            (serial_write_string inb outb patience port (48 ∷ 120 ∷ []) w)
            (hex_loop inb outb patience port value n) (serial_write_string-Sends (48 ∷ 120 ∷ []) w)
            (hex_loop-Sends value n),
        length-hex_text value n,
        hex_text-read_digits value n 0 ∙ omega arith,
      )

  write_magnitude-Sends :
      (value : ℕ) (w : W)
      → value < 2 ^ 63
      → Sends sent w (decimal value) (write_magnitude inb outb patience port value w)
  unfolding write_magnitude decimal
  write_magnitude-Sends value w small = elim (Bool-cases (value == 0)) [
    | inl e ↦ rw e (serial_write_char-Sends 48 w)
    | inr e ↦
        let positive : leb (2 ^ 63) value ≡ false = ground arith in
        rw (e, positive) (serial_write_string-Sends (int_loop 20 value []) w)
  ]

  -- `serial_write_int` ends, and it has sent the decimal digits of the magnitude, behind a minus sign if
  -- the number is negative. This is so of every `int64_t` but the least.
  pub serial_write_int-Sends :
      (value : ℕ) (w : W)
      → value < 2 ^ 64
      → value ≢ 2 ^ 63
      → (text : List ℕ) × Sends sent w
          (if leb (2 ^ 63) value then 45 ∷ text else text)
          (serial_write_int inb outb patience port value w)
        × (read_digits 10 0 text ≡ (if leb (2 ^ 63) value then 2 ^ 64 - value else value))
  unfolding serial_write_int
  serial_write_int-Sends value w word other = elim (Bool-cases (leb (2 ^ 63) value)) [
    | inl e ↦
        let small : negated value < 2 ^ 63 = ground arith in
        let magnitude : negated value ≡ 2 ^ 64 - value = ground arith in
        let both =
          and_then-Sends sent w (45 ∷ []) (decimal (negated value))
            (serial_write_char inb outb patience port 45 w)
            (write_magnitude inb outb patience port (negated value)) (serial_write_char-Sends 45 w)
            (λ w'. write_magnitude-Sends (negated value) w' small) in
        rw e (
          decimal (negated value),
          both,
          decimal-read_digits (negated value) (omega arith) ∙ magnitude,
        )
    | inr e ↦
        let small : value < 2 ^ 63 = ground arith in
        rw e (decimal value, write_magnitude-Sends value w small, decimal-read_digits value word)
  ]

  -- Of the least `int64_t` only the minus sign is sent.
  serial_write_int-least :
      (w : W) → Sends sent w (45 ∷ []) (serial_write_int inb outb patience port (2 ^ 63) w)
  unfolding serial_write_int write_magnitude
  serial_write_int-least w =
      and_then-Sends sent w (45 ∷ []) [] (serial_write_char inb outb patience port 45 w) some
        (serial_write_char-Sends 45 w) (nothing sent)
