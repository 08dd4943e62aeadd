-- ===== src/Console/Format/Refine.antt =====
-- The text that a format of kernel/src/kernel/io.c stands for, without regard to the buffer, and what
-- `kvsnprintf` stores of it.
use freecore.Prelude.{
  ℕ, zero, suc, ◌-◌, ◌≤◌, ◌<◌, ◌≡◌, ◌≢◌, refl, ap, sym, subst, ◌∙◌, arith, false, ◌==◌, ltb,
  if◌then◌else◌, inl, inr, Bool-cases, Option, none, some, List, [], ◌∷◌, ◌++◌, length, take,
  length-append, append_assoc, append-nil, take_all, take_full, take-take_append, length-take,
}
use freecore.Console.Format.{
  head_or_nul, tail_of, parse_spec, join_text, stored, convert, put_all, format_loop, kvsnprintf,
}

take_all-nil : (limit : ℕ) (out : List ℕ) → length out ≤ limit → out ≡ take limit (out ++ [])
take_all-nil limit out h = sym (ap (take limit) (append-nil out) ∙ take_all limit out h)

put_all-take :
    (limit : ℕ) (out text : List ℕ)
    → length out ≤ limit
    → put_all limit out text ≡ take limit (out ++ text)
unfolding put_all
put_all-take limit out [] h = take_all-nil limit out h
put_all-take limit out (c ∷ text) h = elim (Bool-cases (ltb (length out) limit)) [
  | inl e ↦ rw e (
      put_all-take limit (out ++ (c ∷ [])) text (ground (arith, length-append out (c ∷ [])))
      ∙ ap (take limit) (append_assoc out (c ∷ []) text))
  | inr e ↦ rw e (sym (take_full limit out (c ∷ text) (ground arith)))
]

join_text_parts :
    (a b : Option (List ℕ)) (t : List ℕ)
    → join_text a b ≡ some t
    → (x y : List ℕ) × (a ≡ some x) × (b ≡ some y) × (t ≡ x ++ y)
join_text_parts none b t h = absurd (cc)
join_text_parts (some x) none t h = absurd (cc)
join_text_parts (some x) (some y) t h = (x, y, refl, refl, cc)

module _ {A : Type 0} (next_arg : A → ℕ × A) (string_at : ℕ → List ℕ) where
  -- The whole text, of the conversions and the characters of the format in their order, with the
  -- characters of the format to be read at most.
  unfoldable pub render : ℕ → List ℕ → A → Option (List ℕ)
  render zero fmt args = some []
  render (suc rounds) fmt args =
      let c = head_or_nul fmt in
      let spec = parse_spec (tail_of fmt) in
      let (text, args') = convert next_arg string_at (head_or_nul spec.rest) spec args in
      let formatted = render rounds (tail_of spec.rest) args' in
      let copied = render rounds (tail_of fmt) args in
      if c == 0
      then some []
      else if c == 37
      then join_text text formatted
      else join_text (some (c ∷ [])) copied

  format_loop-take :
      (n limit : ℕ) (fmt out : List ℕ) (args : A) (whole : List ℕ)
      → length out ≤ limit
      → render n fmt args ≡ some whole
      → format_loop next_arg string_at n limit fmt out args ≡ some (take limit (out ++ whole))
  unfolding render format_loop
  format_loop-take zero limit fmt out args whole h r =
      let none_left : [] ≡ whole = cc in rw (← none_left) (ap some (take_all-nil limit out h))
  format_loop-take (suc n) limit fmt out args whole h r =
      let c = head_or_nul fmt in
      let spec = parse_spec (tail_of fmt) in
      let converted = convert next_arg string_at (head_or_nul spec.rest) spec args in
      elim (Bool-cases (c == 0)) [
        | inl e ↦
            let r' = rw e at r in
            let none_left : [] ≡ whole = cc in
            rw (e, ← none_left) (ap some (take_all-nil limit out h))
        | inr e ↦ elim (Bool-cases (ltb (length out) limit)) [
          | inr full ↦ rw (e, full) (ap some (sym (take_full limit out whole (ground arith))))
          | inl room ↦ elim (Bool-cases (c == 37)) [
            | inl e' ↦
                let (text, rest, made, next, same) =
                  join_text_parts converted.0 (render n (tail_of spec.rest) converted.1) whole
                    (rw (e, e') at r) in
                let stored = put_all limit out text in
                let put : stored ≡ take limit (out ++ text) = put_all-take limit out text h in
                let fits : length stored ≤ limit =
                  subst (λ l. length l ≤ limit) (sym put) (length-take limit (out ++ text)) in
                rw (e, room, e', made)
                  (format_loop-take n limit (tail_of spec.rest) stored converted.1 rest fits next
                    ∙ ap some (
                        ap (λ l. take limit (l ++ rest)) put
                        ∙ take-take_append limit (out ++ text) rest
                        ∙ ap (take limit)
                            (append_assoc out text rest ∙ ap (λ l. out ++ l) (sym same))))
            | inr e' ↦
                let (text, rest, made, next, same) =
                  join_text_parts (some (c ∷ [])) (render n (tail_of fmt) args) whole
                    (rw (e, e') at r) in
                let one : c ∷ [] ≡ text = cc in
                rw (e, room, e')
                  (format_loop-take n limit (tail_of fmt) (out ++ (c ∷ [])) args rest
                      (ground (arith, length-append out (c ∷ []))) next
                    ∙ ap some (
                        ap (take limit) (
                          append_assoc out (c ∷ []) rest
                          ∙ ap (λ l. out ++ (l ++ rest)) one
                          ∙ ap (λ l. out ++ l) (sym same))))
          ]
        ]
      ]

  -- `kvsnprintf` stores as much of the text that the format and the arguments stand for as fits before
  -- the NUL: its first `size - 1` characters.
  pub kvsnprintf-render :
      (buf size : ℕ) (fmt : List ℕ) (args : A) (whole : List ℕ)
      → buf ≢ 0
      → 0 < size
      → render (length fmt) fmt args ≡ some whole
      → kvsnprintf next_arg string_at buf size fmt args ≡ stored (take (size - 1) whole)
  unfolding kvsnprintf
  kvsnprintf-render buf size fmt args whole there room r =
      let e1 : (buf == 0) ≡ false = ground arith in
      let e2 : (size == 0) ≡ false = ground arith in
      let run = format_loop-take (length fmt) (size - 1) fmt [] args whole (omega arith) r in
      rw (e1, e2, run) refl
