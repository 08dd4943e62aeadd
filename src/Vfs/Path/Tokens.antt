-- ===== src/Vfs/Path/Tokens.antt =====
-- What `strtok_r` with "/" cuts out of a path: the tokens of kernel/src/fs/vfs.c are components, they
-- are no longer than the path, and the fuel of their loop does not show.
use freecore.Prelude.{
  ℕ, zero, suc, ◌+◌, ◌≤◌, ◌<◌, ◌≡◌, refl, ap, ap₂, ◌∙◌, sym, false, ◌==◌, Option, none, some, List,
  [], ◌∷◌, ◌++◌, length, arith, Bool-cases, inl, inr, List-cases, length-append,
}
use freecore.Vfs.Types.{Str}
use freecore.Vfs.Path.{slash, is_empty, skip_slashes, until_slash, after_slash, tokens_from, tokens}

abbrev pub NoSlash : Str → Type 0
NoSlash [] = Unit
NoSlash (c ∷ s) = ((c == slash) ≡ false) × NoSlash s

abbrev pub IsComponent : Str → Type 0
IsComponent t = (is_empty t ≡ false) × NoSlash t

abbrev pub AllComponents : List Str → Type 0
AllComponents [] = Unit
AllComponents (t ∷ ts) = IsComponent t × AllComponents ts

-- The length of the components, each with a slash in front.
abbrev pub weight : List Str → ℕ
weight [] = 0
weight (t ∷ ts) = suc (length t) + weight ts

-- What is left to read, the NUL counted.
abbrev left : Option Str → ℕ
left none = 0
left (some s) = suc (length s)

skip_slashes-le : (s : Str) → length (skip_slashes s) ≤ length s
unfolding skip_slashes
skip_slashes-le [] = omega arith
skip_slashes-le (c ∷ s) = ground (arith, skip_slashes-le s)

skip_slashes-head : (s : Str) (c : ℕ) (t : Str) → skip_slashes s ≡ c ∷ t → (c == slash) ≡ false
unfolding skip_slashes
skip_slashes-head [] c t e = cc
skip_slashes-head (d ∷ s) c t e = ground (arith, skip_slashes-head s c t)

until_slash-NoSlash : (s : Str) → NoSlash (until_slash s)
unfolding until_slash
until_slash-NoSlash [] = tt
until_slash-NoSlash (c ∷ s) = elim (Bool-cases (c == slash)) [
  | inl e ↦ rw (e, until_slash) tt
  | inr e ↦ rw (e, until_slash) (e, until_slash-NoSlash s)
]

-- A token and what is left make up the text.
until-after : (s : Str) → length (until_slash s) + left (after_slash s) ≡ length s
unfolding until_slash after_slash
until-after [] = omega arith
until-after (c ∷ s) = ground (arith, until-after s)

-- The first call of the loop and the ones behind it.
tokens_from-cons :
    (fuel : ℕ) (s : Str) {c : ℕ} {t : Str}
    → skip_slashes s ≡ c ∷ t
    → tokens_from (suc fuel) (some s) ≡ until_slash (c ∷ t) ∷ tokens_from fuel (after_slash (c ∷ t))
unfolding tokens_from
tokens_from-cons fuel s e = rw (e, tokens_from)

tokens_from-nil : (fuel : ℕ) (s : Str) → skip_slashes s ≡ [] → tokens_from (suc fuel) (some s) ≡ []
unfolding tokens_from
tokens_from-nil fuel s e = rw (e, tokens_from)

until_slash-IsComponent :
    (c : ℕ) (t : Str) → (c == slash) ≡ false → IsComponent (until_slash (c ∷ t))
unfolding until_slash
until_slash-IsComponent c t e = rw (e, until_slash) (refl, (e, until_slash-NoSlash t))

tokens_from-components : (fuel : ℕ) (o : Option Str) → AllComponents (tokens_from fuel o)
unfolding tokens_from
tokens_from-components zero o = tt
tokens_from-components (suc fuel) none = tt
tokens_from-components (suc fuel) (some s) = elim (List-cases (skip_slashes s)) [
  | inl e ↦ rw (tokens_from-nil fuel s e) tt
  | inr (c, t, e) ↦ rw (tokens_from-cons fuel s e) (
    until_slash-IsComponent c t (skip_slashes-head s c t e),
    tokens_from-components fuel (after_slash (c ∷ t)),
  )
]

tokens_from-weight : (fuel : ℕ) (o : Option Str) → weight (tokens_from fuel o) ≤ left o
unfolding tokens_from
tokens_from-weight zero o = omega arith
tokens_from-weight (suc fuel) none = omega arith
tokens_from-weight (suc fuel) (some s) = elim (List-cases (skip_slashes s)) [
  | inl e ↦ rw (tokens_from-nil fuel s e) (omega arith)
  | inr (c, t, e) ↦ rw (tokens_from-cons fuel s e) (
      omega (
        arith,
        tokens_from-weight fuel (after_slash (c ∷ t)),
        until-after (c ∷ t),
        skip_slashes-le s,
        ap length e,
      ))
]

-- A token is not empty, so what is left is shorter.
until_slash-pos : (c : ℕ) (t : Str) → (c == slash) ≡ false → 0 < length (until_slash (c ∷ t))
unfolding until_slash
until_slash-pos c t e = rw (e, until_slash) (omega arith)

-- Any fuel that is not below what is left gives the same tokens.
pub tokens_from-enough :
    (f g : ℕ) (o : Option Str) → left o ≤ f → left o ≤ g → tokens_from f o ≡ tokens_from g o
unfolding tokens_from
tokens_from-enough zero zero none a b = refl
tokens_from-enough zero (suc g) none a b = refl
tokens_from-enough (suc f) zero none a b = refl
tokens_from-enough zero g (some s) a b = absurd (omega arith)
tokens_from-enough (suc f) zero (some s) a b = absurd (omega arith)
tokens_from-enough (suc f) (suc g) none a b = refl
tokens_from-enough (suc f) (suc g) (some s) a b = elim (List-cases (skip_slashes s)) [
  | inl e ↦ tokens_from-nil f s e ∙ sym (tokens_from-nil g s e)
  | inr (c, t, e) ↦
      let pos = until_slash-pos c t (skip_slashes-head s c t e) in
      tokens_from-cons f s e
      ∙ ap (λ l. until_slash (c ∷ t) ∷ l)
          (tokens_from-enough f g (after_slash (c ∷ t))
            (omega (arith, pos, until-after (c ∷ t), skip_slashes-le s, ap length e))
            (omega (arith, pos, until-after (c ∷ t), skip_slashes-le s, ap length e)))
      ∙ sym (tokens_from-cons g s e)
]

pub tokens-components : (s : Str) → AllComponents (tokens s)
unfolding tokens
tokens-components s = tokens_from-components (length s + 1) (some s)

pub tokens-weight : (s : Str) → weight (tokens s) ≤ length s + 1
unfolding tokens
tokens-weight s = omega (arith, tokens_from-weight (length s + 1) (some s))

-- The slash in front of an absolute path is one of those that the weight counts.
pub tokens-weight-absolute : (s : Str) → weight (tokens (slash ∷ s)) ≤ length s + 1
unfolding tokens tokens_from skip_slashes
tokens-weight-absolute s =
    let e : length (slash ∷ s) + 1 ≡ suc (length s + 1) = omega arith in
    rw e (omega (arith, tokens_from-weight (suc (length s + 1)) (some s)))

-- The fuel of `tokens` is enough: more of it changes nothing.
tokens_complete : (s : Str) (fuel : ℕ) → length s < fuel → tokens_from fuel (some s) ≡ tokens s
unfolding tokens
tokens_complete s fuel h =
    tokens_from-enough fuel (length s + 1) (some s) (omega arith) (omega arith)

-- The path of a list of components: each with a slash in front.
abbrev pub join : List Str → Str
join [] = []
join (c ∷ cs) = slash ∷ (c ++ join cs)

until_slash-join : (c : Str) (cs : List Str) → NoSlash c → until_slash (c ++ join cs) ≡ c
unfolding until_slash
until_slash-join [] [] h = refl
until_slash-join [] (d ∷ cs) h = refl
until_slash-join (x ∷ c) cs h = rw (h.0, until_slash) (ap (λ l. x ∷ l) (until_slash-join c cs h.1))

abbrev pub join_rest : List Str → Option Str
join_rest [] = none
join_rest (c ∷ cs) = some (c ++ join cs)

after_slash-join : (c : Str) (cs : List Str) → NoSlash c → after_slash (c ++ join cs) ≡ join_rest cs
unfolding after_slash
after_slash-join [] [] h = refl
after_slash-join [] (d ∷ cs) h = refl
after_slash-join (x ∷ c) cs h = rw (h.0, after_slash) (after_slash-join c cs h.1)

skip_slashes-component : (c : Str) (s : Str) → IsComponent c → skip_slashes (c ++ s) ≡ c ++ s
unfolding skip_slashes
skip_slashes-component [] s h = cc
skip_slashes-component (x ∷ c) s h = rw (h.1.0, skip_slashes)

tokens_from-join :
    (fuel : ℕ) (cs : List Str)
    → AllComponents cs
    → length cs < fuel
    → tokens_from fuel (join_rest cs) ≡ cs
unfolding tokens_from
tokens_from-join zero cs h k = absurd (omega arith)
tokens_from-join (suc fuel) [] h k = refl
tokens_from-join (suc fuel) ([] ∷ cs) h k = cc
tokens_from-join (suc fuel) ((x ∷ c) ∷ cs) h k =
    tokens_from-cons fuel ((x ∷ c) ++ join cs) (skip_slashes-component (x ∷ c) (join cs) h.0)
    ∙ ap₂ ◌∷◌ (until_slash-join (x ∷ c) cs h.0.1) (
        ap (tokens_from fuel) (after_slash-join (x ∷ c) cs h.0.1)
        ∙ tokens_from-join fuel cs h.1 (omega arith))

length-join : (cs : List Str) → length cs ≤ length (join cs)
length-join [] = omega arith
length-join (c ∷ cs) = omega (arith, length-join cs, length-append c (join cs))

-- The tokens of such a path are its components.
pub tokens-join : (cs : List Str) → AllComponents cs → tokens (join cs) ≡ cs
unfolding tokens tokens_from skip_slashes
tokens-join [] h = refl
tokens-join (c ∷ cs) h =
    let e : length (join (c ∷ cs)) + 1 ≡ suc (suc (length (c ++ join cs))) = omega arith in
    rw e (
      tokens_from-join (suc (suc (length (c ++ join cs)))) (c ∷ cs) h
        (omega (arith, length-join (c ∷ cs))))

pub tokens-join_rest :
    (c : Str) (cs : List Str) → AllComponents (c ∷ cs) → tokens (c ++ join cs) ≡ c ∷ cs
unfolding tokens
tokens-join_rest [] cs h = cc
tokens-join_rest (x ∷ c) cs h =
    tokens_from-join (length ((x ∷ c) ++ join cs) + 1) ((x ∷ c) ∷ cs) h
      (omega (arith, length-join cs, length-append c (join cs)))
