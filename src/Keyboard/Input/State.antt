-- ===== src/Keyboard/Input/State.antt =====
-- What the keys of the letters give in kernel/src/arch/x86/keyboard.c, by shift and caps lock.
use freecore.Prelude.{
  ℕ, zero, suc, ◌+◌, ◌<◌, ◌≡◌, ◌∙◌, refl, Bool, true, false, not, ◌&&◌, ◌==◌, leb, List, [], ◌∷◌,
  length, get_or, arith,
}
use freecore.Keyboard.Tables.{scancode_to_ascii_low, scancode_to_ascii_high}
use freecore.Keyboard.Input.{
  Keyboard, ps2_scancode_to_ascii, press_key, plain_ascii, key_code_of, has_state, kb_state_shift,
  kb_state_caps_lock, differ,
}

-- The places of the letters on a keyboard of the US layout, from a to z, in scancode set 1.
abbrev pub letter_keys : List ℕ
letter_keys =
    0x1E ∷ 0x30 ∷ 0x2E ∷ 0x20 ∷ 0x12 ∷ 0x21 ∷ 0x22 ∷ 0x23 ∷ 0x17 ∷ 0x24 ∷ 0x25 ∷ 0x26 ∷ 0x32 ∷ 0x31
    ∷ 0x18 ∷ 0x19 ∷ 0x10 ∷ 0x13 ∷ 0x1F ∷ 0x14 ∷ 0x16 ∷ 0x2F ∷ 0x11 ∷ 0x2D ∷ 0x15 ∷ 0x2C ∷ []

both : (a b : Bool) → (a && b) ≡ true → (a ≡ true) × (b ≡ true)
both a b h = ground arith

off_lem : (a : Bool) → not a ≡ true → a ≡ false
off_lem a h = ground arith

is_equal : (a b : ℕ) → (a == b) ≡ true → a ≡ b
is_equal a b h = ground arith

-- A key that is not one of these.
is_none_of : ℕ → List ℕ → Bool
is_none_of key [] = true
is_none_of key (k ∷ keys) = not (key == k) && is_none_of key keys

-- The keys with a meaning of their own: shift, control, alt and the locks.
abbrev modifiers : List ℕ
modifiers = 0x2A ∷ 0x36 ∷ 0x1D ∷ 0x38 ∷ 0x3A ∷ 0x45 ∷ 0x46 ∷ []

-- A key that the tables have, and that is none of the modifiers.
is_plain : ℕ → Bool
unfolding is_none_of
is_plain key =
    not (leb (length scancode_to_ascii_low) (key_code_of key))
    && ((key_code_of key == key) && is_none_of key modifiers)

module _ (low high : List ℕ) where
  -- The keys of the letters from the letter `i` on, in the two tables.
  are_letters : ℕ → List ℕ → Bool
  unfolding is_plain
  are_letters i [] = true
  are_letters i (key ∷ keys) =
      is_plain key
      && ((get_or low key 0 == 97 + i)
          && ((get_or high key 0 == 65 + i) && are_letters (i + 1) keys))

  record IsLetter (key i : ℕ) : Type 0 where
    plain : is_plain key ≡ true
    small : get_or low key 0 ≡ 97 + i
    capital : get_or high key 0 ≡ 65 + i

  are_letters_lem :
      (i k : ℕ) (keys : List ℕ)
      → are_letters i keys ≡ true
      → k < length keys
      → IsLetter (get_or keys k 0) (i + k)
  unfolding are_letters
  are_letters_lem i k [] h inside = absurd (omega arith)
  are_letters_lem i zero (key ∷ keys) h inside =
      let (plain, h1) = both (is_plain key) _ h in
      let (small, h2) = both (get_or low key 0 == 97 + i) _ h1 in
      let (capital, h3) = both (get_or high key 0 == 65 + i) (are_letters (i + 1) keys) h2 in
      record {
        plain = plain;
        small = is_equal (get_or low key 0) (97 + i) small ∙ omega arith;
        capital = is_equal (get_or high key 0) (65 + i) capital ∙ omega arith;
      }
  are_letters_lem i (suc k) (key ∷ keys) h inside =
      let (plain, h1) = both (is_plain key) _ h in
      let (small, h2) = both (get_or low key 0 == 97 + i) _ h1 in
      let (capital, h3) = both (get_or high key 0 == 65 + i) (are_letters (i + 1) keys) h2 in
      let rest = are_letters_lem (i + 1) k keys h3 (omega arith) in
      record {
        plain = rest.plain;
        small = rest.small ∙ omega arith;
        capital = rest.capital ∙ omega arith;
      }

letter :
    (i : ℕ)
    → i < 26
    → IsLetter scancode_to_ascii_low scancode_to_ascii_high (get_or letter_keys i 0) i
unfolding are_letters is_plain is_none_of
letter i h =
    let l = are_letters_lem scancode_to_ascii_low scancode_to_ascii_high 0 i letter_keys refl h in
    record { plain = l.plain; small = l.small ∙ omega arith; capital = l.capital ∙ omega arith }

differ_same : (a b : Bool) → a ≡ b → differ a b ≡ false
differ_same a b e = ground arith

differ_other : (a b : Bool) → a ≡ not b → differ a b ≡ true
differ_other a b e = ground arith

module _ {W : Type 0} (inb : ℕ → W → ℕ × W) (outb : ℕ → ℕ → W → W) where
  press_key-plain :
      (key : ℕ) (k : Keyboard W)
      → is_none_of key modifiers ≡ true
      → press_key inb outb key k ≡ (plain_ascii key k, k)
  unfolding press_key is_none_of
  press_key-plain key k h0 =
      let (a, h1) = both (not (key == 0x2A)) _ h0 in
      let (b, h2) = both (not (key == 0x36)) _ h1 in
      let (c, h3) = both (not (key == 0x1D)) _ h2 in
      let (d, h4) = both (not (key == 0x38)) _ h3 in
      let (e, h5) = both (not (key == 0x3A)) _ h4 in
      let (f, h6) = both (not (key == 0x45)) _ h5 in
      let (g, h7) = both (not (key == 0x46)) true h6 in
      rw
        (
          off_lem (key == 0x2A) a,
          off_lem (key == 0x36) b,
          off_lem (key == 0x1D) c,
          off_lem (key == 0x38) d,
          off_lem (key == 0x3A) e,
          off_lem (key == 0x45) f,
          off_lem (key == 0x46) g,
        )
        refl

  press_plain :
      (key : ℕ) (k : Keyboard W)
      → is_plain key ≡ true
      → ps2_scancode_to_ascii inb outb key false k ≡ (plain_ascii key k, k)
  unfolding ps2_scancode_to_ascii is_plain
  press_plain key k h =
      let beyond = leb (length scancode_to_ascii_low) (key_code_of key) in
      let (inside, h1) = both (not beyond) _ h in
      let (same, h2) = both (key_code_of key == key) (is_none_of key modifiers) h1 in
      rw (off_lem beyond inside, is_equal (key_code_of key) key same) (press_key-plain key k h2)

  -- Pressing the key of a letter, i-th in the alphabet from 0, on a US keyboard gives the small letter in
  -- ASCII where shift and caps lock are both on or both off, and the capital letter where one of them is
  -- on; no flag, LED or port changes.
  pub ps2_scancode_to_ascii-letter :
      (i : ℕ) (k : Keyboard W)
      → i < 26
      → let typed = ps2_scancode_to_ascii inb outb (get_or letter_keys i 0) false k in
        (has_state k kb_state_shift ≡ has_state k kb_state_caps_lock → typed ≡ (97 + i, k))
        × (has_state k kb_state_shift ≡ not (has_state k kb_state_caps_lock) → typed ≡ (65 + i, k))
  ps2_scancode_to_ascii-letter i k h =
      let key = get_or letter_keys i 0 in
      let l = letter i h in
      let shift = has_state k kb_state_shift in
      let caps = has_state k kb_state_caps_lock in
      let typed = press_plain key k l.plain in
      (
        λ same. typed ∙ rw (differ_same shift caps same, l.small) refl,
        λ other. typed ∙ rw (differ_other shift caps other, l.capital) refl,
      )
