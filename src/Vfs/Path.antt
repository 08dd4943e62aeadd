-- ===== src/Vfs/Path.antt =====
-- The paths of kernel/src/fs/vfs.c: `vfs_normalize_path`, and the split of a path into its parent
-- and its last component that the calls on a name share.
pub mod Tokens
pub mod Absolute
pub mod Normal
pub mod Cut
use freecore.Prelude.{
  ℕ, zero, suc, ◌+◌, ◌<◌, Bool, true, false, not, ◌&&◌, ◌||◌, ◌==◌, ltb, leb, if◌then◌else◌, Option,
  none, some, List, [], ◌∷◌, ◌++◌, length, take, drop,
}
use freecore.Vfs.Types.{Str, max_path_length, vfs_name_max}

-- '/' and '.'
abbrev pub slash : ℕ
slash = b'/'

abbrev pub dot : ℕ
dot = b'.'

-- `str += strspn(str, "/")`
skip_slashes : Str → Str
skip_slashes [] = []
skip_slashes (c ∷ s) = elim (c == slash) [ true ↦ skip_slashes s | false ↦ c ∷ s ]

-- The characters up to `str + strcspn(str, "/")`, and what is behind the first slash. NULL is `none`.
until_slash : Str → Str
until_slash [] = []
until_slash (c ∷ s) = elim (c == slash) [ true ↦ [] | false ↦ c ∷ until_slash s ]

after_slash : Str → Option Str
after_slash [] = none
after_slash (c ∷ s) = elim (c == slash) [ true ↦ some s | false ↦ after_slash s ]

-- The calls `token = strtok_r(rest, "/", &rest)` of a loop, one after the other, until one returns
-- NULL. A call leaves less than it was given, so the fuel is the length of the text and one more.
pub tokens_from : ℕ → Option Str → List Str
tokens_from zero rest = []
tokens_from (suc fuel) none = []
tokens_from (suc fuel) (some s) = elim (skip_slashes s) [
  | [] ↦ []
  | c ∷ t ↦ until_slash (c ∷ t) ∷ tokens_from fuel (after_slash (c ∷ t))
]

pub tokens : Str → List Str
unfolding tokens_from skip_slashes until_slash after_slash
tokens s = tokens_from (length s + 1) (some s)

-- `strrchr(s, '/') - s`
pub last_slash : Str → Option ℕ
last_slash [] = none
last_slash (c ∷ s) = elim (last_slash s) [
  | some i ↦ some (suc i)
  | none ↦ if c == slash then some 0 else none
]

abbrev pub is_dot : Str → Bool
is_dot (c ∷ []) = c == dot
is_dot _ = false

abbrev pub is_dot_dot : Str → Bool
is_dot_dot (c ∷ d ∷ []) = (c == dot) && (d == dot)
is_dot_dot _ = false

abbrev pub is_empty : Str → Bool
is_empty [] = true
is_empty (c ∷ s) = false

-- `s[strlen(s) - 1] == '/'`
abbrev pub ends_in_slash : Str → Bool
ends_in_slash [] = false
ends_in_slash (c ∷ []) = c == slash
ends_in_slash (c ∷ d ∷ s) = ends_in_slash (d ∷ s)

-- The case of `..`: the path is cut at its last slash, or behind it if it is the first character.
pub go_up : Str → Str
unfolding last_slash
go_up p = elim (last_slash p) [ none ↦ p | some i ↦ if i == 0 then take 1 p else take i p ]

-- The last part of the loop's body; `none` is the return of -1.
append_component : Str → Str → Option Str
append_component p token =
    if leb max_path_length (length p + length token) then none else some (p ++ token)

pub add_component : Str → Str → Option Str
unfolding append_component
add_component p token =
    if not (is_empty p) && not (ends_in_slash p)
    then (if leb max_path_length (length p + 1 + length token)
        then none
        else append_component (p ++ (slash ∷ [])) token)
    else append_component p token

-- The body of the loop over the tokens.
pub normalize_step : Str → Str → Option Str
unfolding go_up add_component
normalize_step p token =
    if is_empty token || is_dot token
    then some p
    else if is_dot_dot token
    then some (go_up p)
    else add_component p token

pub normalize_loop : List Str → Str → Option Str
normalize_loop [] p = some p
normalize_loop (t ∷ ts) p = elim (normalize_step p t) [ none ↦ none | some q ↦ normalize_loop ts q ]

abbrev pub is_absolute : Str → Bool
is_absolute [] = false
is_absolute (c ∷ s) = c == slash

-- What stands behind the loop.
finish_path : Bool → Option Str → Option Str
finish_path absolute none = none
finish_path absolute (some []) = if absolute then some (slash ∷ []) else some (dot ∷ [])
finish_path absolute (some (c ∷ p)) = some (c ∷ p)

-- The normalized path, or `none` for -1. (Neither pointer is NULL.)
pub vfs_normalize_path : Str → Option Str
unfolding tokens normalize_step normalize_loop finish_path
vfs_normalize_path [] = some (slash ∷ [])
vfs_normalize_path (c ∷ s) =
    if leb max_path_length (length (c ∷ s))
    then none
    else finish_path (c == slash)
        (normalize_loop (tokens (c ∷ s)) (if c == slash then slash ∷ [] else []))

-- The parent's path and the last component, as the calls on a name cut a normalized path. The buffer
-- of the component has VFS_NAME_MAX + 1 bytes; `overflow` is a copy that does not fit.
pub data Split : Type 0 where
  parts : Str → Str → Split
  overflow : Split

abbrev pub copy_basename : Str → Str → Split
copy_basename parent base = if ltb vfs_name_max (length base) then overflow else parts parent base

pub split_path : Str → Split
unfolding last_slash
split_path p = elim (last_slash p) [
  | none ↦ copy_basename (dot ∷ []) p
  | some i ↦ copy_basename (if i == 0 then slash ∷ [] else take i p) (drop (i + 1) p)
]
