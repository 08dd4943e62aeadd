-- ===== src/Drivers/Registry/Slots.antt =====
-- The slots of a class in kernel/src/drivers/driversys.c as a list: the search and the shift on it.
use freecore.Prelude.{
  Bool, ◌||◌, false, ℕ, zero, suc, ◌+◌, ◌-◌, ◌≤◌, ◌<◌, ◌≡◌, refl, ap, ap₂, ◌∙◌, true, ◌&&◌, ◌==◌,
  ltb, leb, if◌then◌else◌, none, some, List, [], ◌∷◌, ◌++◌, arith, Bool-cases, inl, inr,
}
use freecore.Memory.{Ptr}
use freecore.Drivers.Registry.{find_slot, shift_slots, put}

-- The `n` slots from `i` on.
abbrev pub row_from : (ℕ → Ptr) → ℕ → ℕ → List Ptr
row_from row i zero = []
row_from row i (suc n) = row i ∷ row_from row (i + 1) n

-- A list without the first place at which `p` stands.
abbrev pub remove_first : Ptr → List Ptr → List Ptr
remove_first p [] = []
remove_first p (x ∷ xs) = if x == p then xs else x ∷ remove_first p xs

row_from-ext :
    (row row' : ℕ → Ptr) (i j n : ℕ)
    → ((k : ℕ) → k < n → row (i + k) ≡ row' (j + k))
    → row_from row i n ≡ row_from row' j n
row_from-ext row row' i j zero h = refl
row_from-ext row row' i j (suc n) h =
    ap₂ ◌∷◌ (ap row (omega arith) ∙ h 0 (omega arith) ∙ ap row' (omega arith)) (
      row_from-ext row row' (i + 1) (j + 1) n
        (λ k lt. ap row (omega arith) ∙ h (suc k) (omega arith) ∙ ap row' (omega arith)))

pub row_from-put :
    (row : ℕ → Ptr) (p : Ptr) (i n : ℕ)
    → row_from (put row (i + n) p) i (suc n) ≡ row_from row i n ++ (p ∷ [])
row_from-put row p i zero = ground arith
row_from-put row p i (suc n) =
    ap₂ ◌∷◌ (ground arith) (
      ap (λ k. row_from (put row k p) (i + 1) (suc n)) (omega arith) ∙ row_from-put row p (i + 1) n)

shift_slots_lem :
    (n j : ℕ) (row : ℕ → Ptr) (t : ℕ)
    → shift_slots n j row t ≡ (if leb j t && ltb t (j + n) then row (t + 1) else row t)
unfolding shift_slots
shift_slots_lem zero j row t = ground arith
shift_slots_lem (suc n) j row t =
    ground (arith, shift_slots_lem n (j + 1) (put row j (row (j + 1))) t)

-- The shift from the place that the search finds takes that place out.
pub shift-find_slot :
    (row : ℕ → Ptr) (p : Ptr) (n i j : ℕ)
    → find_slot row p n i ≡ some j
    → (i ≤ j)
      × (j < i + n)
      × (row_from (shift_slots (i + n - 1 - j) j row) i (n - 1) ≡ remove_first p (row_from row i n))
unfolding find_slot
shift-find_slot row p zero i j e = cc
shift-find_slot row p (suc n) i j e = elim (Bool-cases (row i == p)) [
  | inl here ↦
      let same : i ≡ j = ground arith in
      let moved = shift_slots (i + suc n - 1 - j) j row in
      (
        omega arith,
        omega arith,
        rw here (
            ap (row_from moved i) (omega arith)
            ∙ row_from-ext moved row i (i + 1) n
                (λ k lt. ground (arith, shift_slots_lem (i + suc n - 1 - j) j row (i + k)))),
      )
  | inr other ↦
      let rest : find_slot row p n (i + 1) ≡ some j = ground arith in
      let (low, high, q) = shift-find_slot row p n (i + 1) j rest in
      let moved = shift_slots (i + suc n - 1 - j) j row in
      let same : i + suc n - 1 - j ≡ i + 1 + n - 1 - j = omega arith in
      (
        omega arith,
        omega arith,
        rw other (
            ap (row_from moved i) (let e1 : suc n - 1 ≡ suc (n - 1) = omega arith in e1)
            ∙ ap₂ ◌∷◌ (ground (arith, shift_slots_lem (i + suc n - 1 - j) j row i))
                (ap (λ r. row_from (shift_slots r j row) (i + 1) (n - 1)) same ∙ q)),
      )
]

-- Whether a pointer stands in a list.
abbrev pub stands : Ptr → List Ptr → Bool
stands p [] = false
stands p (x ∷ xs) = (x == p) || stands p xs

pub stands-append : (p : Ptr) (xs : List Ptr) → stands p (xs ++ (p ∷ [])) ≡ true
stands-append p [] = ground arith
stands-append p (x ∷ xs) = ground (arith, stands-append p xs)

pub remove_first-append :
    (p : Ptr) (xs : List Ptr) → stands p xs ≡ false → remove_first p (xs ++ (p ∷ [])) ≡ xs
remove_first-append p [] h = ground arith
remove_first-append p (x ∷ xs) h = elim (Bool-cases (x == p)) [
  | inl e ↦ absurd (ground arith)
  | inr e ↦
      let rest : stands p xs ≡ false = ground arith in
      rw e (ap (λ l. x ∷ l) (remove_first-append p xs rest))
]

-- Where the search finds nothing, the pointer stands nowhere.
pub stands-find_slot :
    (row : ℕ → Ptr) (p : Ptr) (n i : ℕ)
    → find_slot row p n i ≡ none
    → stands p (row_from row i n) ≡ false
unfolding find_slot
stands-find_slot row p zero i e = refl
stands-find_slot row p (suc n) i e = elim (Bool-cases (row i == p)) [
  | inl here ↦ absurd (ground arith)
  | inr other ↦
      let rest : find_slot row p n (i + 1) ≡ none = ground arith in
      rw other (stands-find_slot row p n (i + 1) rest)
]
