-- ===== src/Vfs/Path/Absolute.antt =====
-- `vfs_normalize_path` of kernel/src/fs/vfs.c on an absolute path: it keeps a stack of components.
use freecore.Prelude.{
  ℕ, suc, ◌+◌, ◌≤◌, ◌<◌, ◌≡◌, refl, ap, false, ◌==◌, leb, none, some, List, [], ◌∷◌, ◌++◌, length,
  arith, Bool-cases, inl, inr, length-append, if◌then◌else◌, take-append,
}
use mathlib.Core.List.{append_assoc}
use freecore.Vfs.Types.{Str, max_path_length}
use freecore.Vfs.Path.{
  slash, is_dot, is_dot_dot, is_empty, ends_in_slash, last_slash, go_up, append_component,
  add_component, normalize_step, normalize_loop,
}
use freecore.Vfs.Path.Tokens.{NoSlash, IsComponent, AllComponents, weight}

-- A component that is neither `.` nor `..`.
abbrev pub IsPlain : Str → Type 0
IsPlain t = IsComponent t × (is_dot t ≡ false) × (is_dot_dot t ≡ false)

abbrev pub AllPlain : List Str → Type 0
AllPlain [] = Unit
AllPlain (t ∷ ts) = IsPlain t × AllPlain ts

-- The meaning of a path: a stack of components, the innermost directory first, on which `.` does
-- nothing and `..` takes the top away, at the root nothing.
abbrev pub pop : List Str → List Str
pop [] = []
pop (c ∷ cs) = cs

abbrev pub push : List Str → Str → List Str
push st t = if is_dot t then st else if is_dot_dot t then pop st else t ∷ st

abbrev pub resolve_from : List Str → List Str → List Str
resolve_from st [] = st
resolve_from st (t ∷ ts) = resolve_from (push st t) ts

-- A stack as text; the root is the slash alone.
abbrev pub body : List Str → Str
body [] = []
body (c ∷ st) = body st ++ (slash ∷ c)

abbrev pub render : List Str → Str
render [] = slash ∷ []
render (c ∷ st) = body (c ∷ st)

pub last_slash-none : (c : Str) → NoSlash c → last_slash c ≡ none
unfolding last_slash
last_slash-none [] h = refl
last_slash-none (x ∷ c) h = rw (last_slash-none c h.1, last_slash, h.0)

pub last_slash-append : (xs c : Str) → NoSlash c → last_slash (xs ++ (slash ∷ c)) ≡ some (length xs)
unfolding last_slash
last_slash-append [] c h = rw (last_slash-none c h, last_slash)
last_slash-append (x ∷ xs) c h = rw (last_slash-append xs c h, last_slash)

pub length-body_pos : (c : Str) (st : List Str) → (length (body (c ∷ st)) == 0) ≡ false
length-body_pos c st = ground (arith, length-append (body st) (slash ∷ c))

go_up-render : (st : List Str) → AllPlain st → go_up (render st) ≡ render (pop st)
unfolding go_up last_slash
go_up-render [] h = refl
go_up-render (c ∷ []) h = rw (last_slash-append [] c h.0.0.1, go_up)
go_up-render (c ∷ d ∷ st) h =
    rw (last_slash-append (body (d ∷ st)) c h.0.0.1, go_up, length-body_pos d st)
      (take-append (body (d ∷ st)) (slash ∷ c))

is_empty-append : (xs : Str) (x : ℕ) (c : Str) → is_empty (xs ++ (x ∷ c)) ≡ false
is_empty-append [] x c = refl
is_empty-append (y ∷ xs) x c = refl

ends_in_slash-append :
    (xs : Str) (x : ℕ) (c : Str) → ends_in_slash (xs ++ (x ∷ c)) ≡ ends_in_slash (x ∷ c)
ends_in_slash-append [] x c = refl
ends_in_slash-append (y ∷ []) x c = refl
ends_in_slash-append (y ∷ z ∷ xs) x c = ends_in_slash-append (z ∷ xs) x c

ends_in_slash-NoSlash : (x : ℕ) (c : Str) → NoSlash (x ∷ c) → ends_in_slash (x ∷ c) ≡ false
ends_in_slash-NoSlash x [] h = h.0
ends_in_slash-NoSlash x (y ∷ c) h = ends_in_slash-NoSlash y c h.1

ends_in_slash-component : (c : Str) → IsComponent c → ends_in_slash (slash ∷ c) ≡ false
ends_in_slash-component [] h = cc
ends_in_slash-component (x ∷ c) h = ends_in_slash-NoSlash x c h.1

add_component-render :
    (st : List Str) (t : Str)
    → AllPlain st
    → length (body st) + suc (length t) < max_path_length
    → add_component (render st) t ≡ some (render (t ∷ st))
unfolding add_component append_component
add_component-render [] t h small =
    let fits : leb max_path_length (1 + length t) ≡ false = ground arith in rw fits
add_component-render (c ∷ st) t h small =
    let p = body (c ∷ st) in
    let first : leb max_path_length (length p + 1 + length t) ≡ false = ground arith in
    let second : leb max_path_length (length (p ++ (slash ∷ [])) + length t) ≡ false =
      ground (arith, length-append p (slash ∷ [])) in
    rw
      (
        is_empty-append (body st) slash c,
        ends_in_slash-append (body st) slash c,
        ends_in_slash-component c h.0.0,
        first,
        second,
      )
      (ap some (append_assoc p (slash ∷ []) t))

normalize_step-push :
    (st : List Str) (t : Str)
    → AllPlain st
    → IsComponent t
    → length (body st) + suc (length t) < max_path_length
    → normalize_step (render st) t ≡ some (render (push st t))
unfolding normalize_step
normalize_step-push st t h k small = elim (Bool-cases (is_dot t)) [
  | inl e ↦ rw (k.0, e)
  | inr e ↦ elim (Bool-cases (is_dot_dot t)) [
    | inl f ↦ rw (k.0, e, f) (ap some (go_up-render st h))
    | inr f ↦ rw (k.0, e, f) (add_component-render st t h small)
  ]
]

pub push-AllPlain : (st : List Str) (t : Str) → AllPlain st → IsComponent t → AllPlain (push st t)
push-AllPlain st t h k = elim (Bool-cases (is_dot t)) [
  | inl e ↦ rw e h
  | inr e ↦ elim (Bool-cases (is_dot_dot t)) [
    | inl f ↦ rw (e, f) (pop-AllPlain st h)
    | inr f ↦ rw (e, f) ((k, e, f), h)
  ]
]
  where
    pop-AllPlain : (st : List Str) → AllPlain st → AllPlain (pop st)
    pop-AllPlain [] h = tt
    pop-AllPlain (c ∷ st) h = h.1

pub length-body-push :
    (st : List Str) (t : Str) → length (body (push st t)) ≤ length (body st) + suc (length t)
length-body-push st t = elim (Bool-cases (is_dot t)) [
  | inl e ↦ rw e (omega arith)
  | inr e ↦ elim (Bool-cases (is_dot_dot t)) [
    | inl f ↦ rw (e, f) (popped st)
    | inr f ↦ rw (e, f) (omega (arith, length-append (body st) (slash ∷ t)))
  ]
]
  where
    popped : (st : List Str) → length (body (pop st)) ≤ length (body st) + suc (length t)
    popped [] = omega arith
    popped (c ∷ st) = omega (arith, length-append (body st) (slash ∷ c))

pub normalize_loop-resolve :
    (ts st : List Str)
    → AllPlain st
    → AllComponents ts
    → length (body st) + weight ts < max_path_length
    → normalize_loop ts (render st) ≡ some (render (resolve_from st ts))
unfolding normalize_loop
normalize_loop-resolve [] st h k small = refl
normalize_loop-resolve (t ∷ ts) st h k small =
    rw (normalize_step-push st t h k.0 (omega arith), normalize_loop)
      (normalize_loop-resolve ts (push st t) (push-AllPlain st t h k.0) k.1
        (omega (arith, length-body-push st t)))
