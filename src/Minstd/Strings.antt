-- ===== src/Minstd/Strings.antt =====
-- kernel/src/lib/minstd.c, the functions that read strings. A string is the list of its bytes in front
-- of the NUL, none of which is 0.
use freecore.Prelude.{ℕ, ◌==◌, if◌then◌else◌, List, [], ◌∷◌, ℤ, sub_ℕ}

-- `strcmp`: the difference of the first bytes that differ, the NUL among them.
unfoldable pub strcmp : List ℕ → List ℕ → ℤ
strcmp [] [] = sub_ℕ 0 0
strcmp [] (d ∷ t) = sub_ℕ 0 d
strcmp (c ∷ s) [] = sub_ℕ c 0
strcmp (c ∷ s) (d ∷ t) = if c == d then strcmp s t else sub_ℕ c d
