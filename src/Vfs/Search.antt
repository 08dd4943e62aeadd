-- ===== src/Vfs/Search.antt =====
-- The search for a table entry that `vfs_mount`, `vfs_unmount` and `vfs_open` of
-- kernel/src/fs/vfs.c share: `for (i = 0; i < MAX; i++) if (test) break;`.
use freecore.Prelude.{
  ℕ, zero, suc, ◌<◌, ◌≡◌, subst, sym, Bool, true, false, if◌then◌else◌, Option, none, some, List,
  [], ◌∷◌, length, arith, Bool-cases, Option-cases, inl, inr, get_or,
}

-- The first entry of a table that passes a test; `none` is the index behind the last.
unfoldable pub find_index {ℓ} : {A : Type ℓ} → (A → Bool) → List A → Option ℕ
find_index test [] = none
find_index test (x ∷ xs) =
    if test x then some 0 else (elim (find_index test xs) [ none ↦ none | some i ↦ some (suc i) ])

module _ {ℓ} {A : Type ℓ} (test : A → Bool) (d : A) where
  -- The index that the search returns is that of the first element that passes.
  pub record IsFirst (xs : List A) (i : ℕ) : Type 0 where
    pub inside : i < length xs
    pub passes : test (get_or xs i d) ≡ true
    pub first : (j : ℕ) → j < i → test (get_or xs j d) ≡ false

  find_index-cons :
      (x : A) (xs : List A)
      → test x ≡ false
      → (i : ℕ) → find_index test (x ∷ xs) ≡ some i
      → (k : ℕ) × (i ≡ suc k) × (find_index test xs ≡ some k)
  unfolding find_index
  find_index-cons x xs e i h = elim (Option-cases (find_index test xs)) [
    | inl f ↦ let no : find_index test (x ∷ xs) ≡ none = rw (e, f, find_index) in cc
    | inr (k, f) ↦
        let got : find_index test (x ∷ xs) ≡ some (suc k) = rw (e, f, find_index) in (k, cc, f)
  ]

  later :
      (x : A) (xs : List A) (k : ℕ)
      → test x ≡ false
      → IsFirst xs k
      → (j : ℕ) → j < suc k
      → test (get_or (x ∷ xs) j d) ≡ false
  later x xs k e v zero lt = e
  later x xs k e v (suc j) lt = v.first j (omega arith)

  pub find_index-IsFirst : (xs : List A) (i : ℕ) → find_index test xs ≡ some i → IsFirst xs i
  unfolding find_index
  find_index-IsFirst [] i h = cc
  find_index-IsFirst (x ∷ xs) i h = elim (Bool-cases (test x)) [
    | inl e ↦
        let zero_here : 0 ≡ i = ground arith in
        subst (IsFirst (x ∷ xs)) zero_here
          (record { inside = omega arith; passes = e; first = λ j lt. absurd (omega arith) })
    | inr e ↦
        let (k, e1, f) = find_index-cons x xs e i h in
        let v = find_index-IsFirst xs k f in
        subst (IsFirst (x ∷ xs)) (sym e1)
          (record { inside = omega (arith, v.inside); passes = v.passes; first = later x xs k e v })
  ]
