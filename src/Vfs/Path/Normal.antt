-- ===== src/Vfs/Path/Normal.antt =====
-- What `vfs_normalize_path` of kernel/src/fs/vfs.c promises: the meaning of an absolute path, and a
-- normal form of it; and where a relative path with `..` falls short of that.
use freecore.Prelude.{
  ◌+◌, ◌≤◌, ◌<◌, ◌≡◌, refl, ap, ap₂, subst, ◌∙◌, sym, true, false, leb, none, some, List, [], ◌∷◌,
  ◌++◌, length, arith, Bool-cases, inl, inr, length-append, if◌then◌else◌, List-cases,
}
use mathlib.Core.List.{append_assoc, append-nil}
use freecore.Vfs.Types.{Str, max_path_length}
use freecore.Vfs.Path.{
  slash, dot, go_up, append_component, add_component, normalize_step, normalize_loop, finish_path,
  tokens, tokens_from, skip_slashes, vfs_normalize_path,
}
use freecore.Vfs.Path.Tokens.{
  NoSlash, AllComponents, weight, join, tokens-components, tokens-weight-absolute, tokens-join,
  tokens-join_rest,
}
use freecore.Vfs.Path.Absolute.{
  IsPlain, AllPlain, push, resolve_from, body, render, normalize_loop-resolve, length-body-push,
  push-AllPlain, last_slash-none,
}

-- The stack that the components of a path lead to from the root.
abbrev pub resolve : Str → List Str
resolve p = resolve_from [] (tokens p)

finish_path-render : (st : List Str) → finish_path true (some (render st)) ≡ some (render st)
unfolding finish_path
finish_path-render [] = refl
finish_path-render (c ∷ []) = refl
finish_path-render (c ∷ d ∷ st) = elim (List-cases (body (d ∷ st))) [
  | inl e ↦ rw e
  | inr (x, rest, e) ↦ rw e
]

-- An absolute path of less than MAX_PATH_LENGTH characters is normalized, whatever it holds, to the
-- text of the stack of components that it leads to; a longer one is refused.
pub normalize-resolve :
    (s : Str)
    → vfs_normalize_path (slash ∷ s) ≡ (
        if leb max_path_length (length (slash ∷ s))
        then none
        else some (render (resolve (slash ∷ s))))
unfolding vfs_normalize_path
normalize-resolve s = elim (Bool-cases (leb max_path_length (length (slash ∷ s)))) [
  | inl e ↦ rw e
  | inr e ↦
      let small : length s + 1 < max_path_length = ground arith in
      rw e (
        ap (finish_path true) (
          normalize_loop-resolve (tokens (slash ∷ s)) [] tt (tokens-components (slash ∷ s))
            (omega (arith, tokens-weight-absolute s)))
        ∙ finish_path-render (resolve (slash ∷ s)))
]

resolve_from-AllPlain :
    (ts st : List Str) → AllPlain st → AllComponents ts → AllPlain (resolve_from st ts)
resolve_from-AllPlain [] st h k = h
resolve_from-AllPlain (t ∷ ts) st h k =
    resolve_from-AllPlain ts (push st t) (push-AllPlain st t h k.0) k.1

length-resolve_from :
    (ts st : List Str) → length (body (resolve_from st ts)) ≤ length (body st) + weight ts
length-resolve_from [] st = omega arith
length-resolve_from (t ∷ ts) st =
    omega (arith, length-resolve_from ts (push st t), length-body-push st t)

join-append : (xs ys : List Str) → join (xs ++ ys) ≡ join xs ++ join ys
join-append [] ys = refl
join-append (x ∷ xs) ys =
    ap (λ l. slash ∷ l)
      (ap (λ l. x ++ l) (join-append xs ys) ∙ sym (append_assoc x (join xs) (join ys)))

-- The components of a stack, outermost first.
abbrev pub outward : List Str → List Str
outward [] = []
outward (c ∷ st) = outward st ++ (c ∷ [])

pub body-join : (st : List Str) → body st ≡ join (outward st)
body-join [] = refl
body-join (c ∷ st) =
    ap₂ ◌++◌ (body-join st) (ap (λ l. slash ∷ l) (sym (append-nil c)))
    ∙ sym (join-append (outward st) (c ∷ []))

AllComponents-append :
    (xs ys : List Str) → AllComponents xs → AllComponents ys → AllComponents (xs ++ ys)
AllComponents-append [] ys h k = k
AllComponents-append (x ∷ xs) ys h k = (h.0, AllComponents-append xs ys h.1 k)

pub outward-components : (st : List Str) → AllPlain st → AllComponents (outward st)
outward-components [] h = tt
outward-components (c ∷ st) h =
    AllComponents-append (outward st) (c ∷ []) (outward-components st h.1) (h.0.0, tt)

resolve_from-append :
    (xs ys st : List Str) → resolve_from st (xs ++ ys) ≡ resolve_from (resolve_from st xs) ys
resolve_from-append [] ys st = refl
resolve_from-append (x ∷ xs) ys st = resolve_from-append xs ys (push st x)

push-plain : (st : List Str) (c : Str) → IsPlain c → push st c ≡ c ∷ st
push-plain st c h = rw (h.1, h.2)

resolve_from-outward : (st : List Str) → AllPlain st → resolve_from [] (outward st) ≡ st
resolve_from-outward [] h = refl
resolve_from-outward (c ∷ st) h =
    resolve_from-append (outward st) (c ∷ []) []
    ∙ ap (λ l. push l c) (resolve_from-outward st h.1)
    ∙ push-plain st c h.0

pub resolve-render : (st : List Str) → AllPlain st → resolve (render st) ≡ st
unfolding tokens tokens_from skip_slashes
resolve-render [] h = refl
resolve-render (c ∷ st) h =
    ap (resolve_from []) (
      ap tokens (body-join (c ∷ st))
      ∙ tokens-join (outward (c ∷ st)) (outward-components (c ∷ st) h))
    ∙ resolve_from-outward (c ∷ st) h

pub resolve-AllPlain : (p : Str) → AllPlain (resolve p)
resolve-AllPlain p = resolve_from-AllPlain (tokens p) [] tt (tokens-components p)

length-render : (s : Str) → length (render (resolve (slash ∷ s))) ≤ length s + 1
length-render s =
    bound (resolve (slash ∷ s))
      (omega (arith, length-resolve_from (tokens (slash ∷ s)) [], tokens-weight-absolute s))
  where
    bound : (st : List Str) → length (body st) ≤ length s + 1 → length (render st) ≤ length s + 1
    bound [] h = omega arith
    bound (c ∷ st) h = h

-- The text of a stack of plain components normalizes to itself.
normalize-render :
    (st : List Str)
    → AllPlain st
    → length (render st) < max_path_length
    → vfs_normalize_path (render st) ≡ some (render st)
normalize-render st h small =
    let (rest, e) = head_slash st in
    let fits : leb max_path_length (length (slash ∷ rest)) ≡ false = ground (arith, ap length e) in
    subst (λ p. vfs_normalize_path p ≡ some (render st)) (sym e)
      (normalize-resolve rest
        ∙ (rw fits
            (ap some (ap (λ p. render (resolve p)) (sym e) ∙ ap render (resolve-render st h)))))
  where
    head_slash : (st : List Str) → (rest : Str) × (render st ≡ slash ∷ rest)
    head_slash [] = ([], refl)
    head_slash (c ∷ []) = (c, refl)
    head_slash (c ∷ d ∷ st) =
        let (rest, e) = head_slash (d ∷ st) in (rest ++ (slash ∷ c), ap (λ l. l ++ (slash ∷ c)) e)

-- Normalizing a second time changes nothing: what an absolute path is normalized to has neither `.`
-- nor `..` nor an empty component in it, and is its own normal form.
pub normalize_twice :
    (s : Str) (q : Str)
    → vfs_normalize_path (slash ∷ s) ≡ some q
    → (vfs_normalize_path q ≡ some q) × ((st : List Str) × AllPlain st × (q ≡ render st))
normalize_twice s q e = elim (Bool-cases (leb max_path_length (length (slash ∷ s)))) [
  | inl f ↦ let no : vfs_normalize_path (slash ∷ s) ≡ none = normalize-resolve s ∙ (rw f) in cc
  | inr f ↦
      let st = resolve (slash ∷ s) in
      let got : vfs_normalize_path (slash ∷ s) ≡ some (render st) = normalize-resolve s ∙ (rw f) in
      let same : q ≡ render st = cc in
      let plain = resolve-AllPlain (slash ∷ s) in
      let short : length s + 1 < max_path_length = ground arith in
      (rw same (normalize-render st plain (omega (arith, length-render s))), (st, plain, same))
]

step_first : (c : Str) → IsPlain c → length c < max_path_length → normalize_step [] c ≡ some c
unfolding normalize_step add_component append_component
step_first c h small =
    let room : leb max_path_length (0 + length c) ≡ false = ground arith in
    rw (h.0.0, h.1, h.2, room)

step_up : (c : Str) → NoSlash c → normalize_step c (dot ∷ dot ∷ []) ≡ some c
unfolding normalize_step go_up
step_up c h = rw (last_slash-none c h, go_up)

loop_relative :
    (c : Str)
    → IsPlain c
    → length c < max_path_length
    → normalize_loop (c ∷ (dot ∷ dot ∷ []) ∷ []) [] ≡ some c
unfolding normalize_loop
loop_relative c h small = rw (step_first c h small, normalize_loop, step_up c h.0.1)

-- In a relative path a `..` behind the first component is dropped and takes nothing away: `name/..`
-- is normalized to `name`, not to the directory that it starts from.
normalize_relative :
    (c : Str)
    → IsPlain c
    → length c + 3 < max_path_length
    → vfs_normalize_path (c ++ (slash ∷ dot ∷ dot ∷ [])) ≡ some c
unfolding vfs_normalize_path finish_path
normalize_relative [] h small = cc
normalize_relative (x ∷ c) h small =
    let p = (x ∷ c) ++ (slash ∷ dot ∷ dot ∷ []) in
    let fits : leb max_path_length (length p) ≡ false =
      ground (arith, length-append c (slash ∷ dot ∷ dot ∷ [])) in
    let cut =
      tokens-join_rest (x ∷ c) ((dot ∷ dot ∷ []) ∷ []) (h.0, ((refl, (refl, (refl, tt))), tt)) in
    rw (fits, h.0.1.0, cut, loop_relative (x ∷ c) h (omega arith))
