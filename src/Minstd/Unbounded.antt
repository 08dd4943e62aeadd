-- ===== src/Minstd/Unbounded.antt =====
-- kernel/src/lib/minstd.c, the functions on strings in memory that run up to a NUL. The loops have no
-- bound in the code; here they run on fuel, and running out of it is the result none.
use freecore.Prelude.{
  ℕ, zero, suc, ◌+◌, ◌-◌, ◌≤◌, ◌<◌, ◌≡◌, ◌≢◌, ◌⊎◌, inl, inr, refl, arith, true, false, ◌||◌, ◌==◌,
  if◌then◌else◌, Option, none, some, ap, sym, subst, ◌∙◌,
}
use freecore.Memory.{Memory, Ptr, null, poke}

-- `while (*p) p++;`
find_nul : ℕ → Ptr → Memory → Option Ptr
find_nul zero p m = none
find_nul (suc fuel) p m = let rest = find_nul fuel (p + 1) m in if m p == 0 then some p else rest

abbrev distance : Ptr → Option Ptr → Option ℕ
distance s none = none
distance s (some p) = some (p - s)

unfoldable strlen : ℕ → Ptr → Memory → Option ℕ
unfolding find_nul
strlen fuel s m = if s == null then some 0 else distance s (find_nul fuel s m)

-- `while ((*dest++ = *src++) != '\0');`
copy_string : ℕ → Ptr → Ptr → Memory → Option Memory
copy_string zero dest src m = none
copy_string (suc fuel) dest src m =
    let m' = poke m dest (m src) in
    let rest = copy_string fuel (dest + 1) (src + 1) m' in if m src == 0 then some m' else rest

abbrev with_dest : Ptr → Option Memory → Option (Ptr × Memory)
with_dest dest none = none
with_dest dest (some m) = some (dest, m)

unfoldable pub strcpy : ℕ → Ptr → Ptr → Memory → Option (Ptr × Memory)
unfolding copy_string
strcpy fuel dest src m =
    if (dest == null) || (src == null)
    then some (dest, m)
    else with_dest dest (copy_string fuel dest src m)

abbrev append_at : ℕ → Ptr → Memory → Option Ptr → Option Memory
append_at fuel src m none = none
append_at fuel src m (some p) = copy_string fuel p src m

unfoldable strcat : ℕ → Ptr → Ptr → Memory → Option (Ptr × Memory)
unfolding copy_string find_nul
strcat fuel dest src m =
    if (dest == null) || (src == null)
    then some (dest, m)
    else with_dest dest (append_at fuel src m (find_nul fuel dest m))

find_nul-some :
    (fuel n : ℕ) (p : Ptr) (m : Memory)
    → ((i : ℕ) → i < n → m (p + i) ≢ 0)
    → m (p + n) ≡ 0
    → n < fuel
    → find_nul fuel p m ≡ some (p + n)
unfolding find_nul
find_nul-some zero n p m before nul enough = absurd (omega arith)
find_nul-some (suc fuel) zero p m before nul enough =
    let start : p + 0 ≡ p = omega arith in
    let here : m p ≡ 0 = subst (λ q. m q ≡ 0) start nul in
    let e : (m p == 0) ≡ true = ground arith in rw e (ap some (sym start))
find_nul-some (suc fuel) (suc n) p m before nul enough =
    let start : p + 0 ≡ p = omega arith in
    let there : m p ≢ 0 = subst (λ q. m q ≢ 0) start (before 0 (omega arith)) in
    let e : (m p == 0) ≡ false = ground arith in
    let next : (i : ℕ) → p + suc i ≡ p + 1 + i = λ i. omega arith in
    let rest =
      find_nul-some fuel n (p + 1) m
        (λ i l. subst (λ q. m q ≢ 0) (next i) (before (suc i) (omega arith)))
        (subst (λ q. m q ≡ 0) (next n) nul) (omega arith) in
    rw e (rest ∙ ap some (sym (next n)))

-- With more fuel than the string is long, `strlen` of a string that is not NULL is the number of bytes in
-- front of its first NUL.
strlen-some :
    (fuel n : ℕ) (s : Ptr) (m : Memory)
    → s ≢ null
    → ((i : ℕ) → i < n → m (s + i) ≢ 0)
    → m (s + n) ≡ 0
    → n < fuel
    → strlen fuel s m ≡ some n
unfolding strlen
strlen-some fuel n s m there before nul enough =
    let e : (s == null) ≡ false = ground arith in
    rw e (ap (distance s) (find_nul-some fuel n s m before nul enough) ∙ ap some (omega arith))

-- The `n + 1` bytes from `src` on stand at `dest`, and every other byte is as it was.
pub record IsCopy (n : ℕ) (dest src : Ptr) (m m' : Memory) : Type 0 where
  pub inside : (i : ℕ) → i ≤ n → m' (dest + i) ≡ m (src + i)
  pub outside : (a : Ptr) → (a < dest) ⊎ (dest + n < a) → m' a ≡ m a

at_start : (m : Memory) (dest src : Ptr) → poke m dest (m src) dest ≡ m (src + 0)
unfolding poke
at_start m dest src =
    let here : (dest == dest) ≡ true = ground arith in
    let start : src ≡ src + 0 = omega arith in rw here (ap m start)

one_more :
    (n : ℕ) (dest src : Ptr) (m m' : Memory)
    → ((i : ℕ) → i ≤ n → poke m dest (m src) (src + 1 + i) ≡ m (src + 1 + i))
    → IsCopy n (dest + 1) (src + 1) (poke m dest (m src)) m'
    → IsCopy (suc n) dest src m m'
unfolding poke
one_more n dest src m m' kept copied =
    let first : m' (dest + 0) ≡ m (src + 0) =
      let start : dest + 0 ≡ dest = omega arith in
      ap m' start ∙ copied.outside dest (inl (omega arith)) ∙ at_start m dest src in
    let later : (i : ℕ) → i ≤ n → m' (dest + suc i) ≡ m (src + suc i) = λ i l.
      let d : dest + suc i ≡ dest + 1 + i = omega arith in
      let s : src + 1 + i ≡ src + suc i = omega arith in
      ap m' d ∙ copied.inside i l ∙ kept i l ∙ ap m s in
    record {
      inside = λ i l.
          elim i as (λ i. i ≤ suc n → m' (dest + i) ≡ m (src + i)) [
            | zero ↦ λ l. first
            | suc i ↦ λ l. later i (omega arith)
          ]
            l;
      outside = λ a h.
          let off : (a == dest) ≡ false = elim h [ inl l ↦ ground arith | inr l ↦ ground arith ] in
          let far : (a < dest + 1) ⊎ (dest + 1 + n < a) = elim h [
            | inl l ↦ inl (omega arith)
            | inr l ↦ inr (omega arith)
          ] in
          copied.outside a far ∙ rw off refl;
    }

copy_string-IsCopy :
    (fuel n : ℕ) (dest src : Ptr) (m : Memory)
    → ((i : ℕ) → i < n → m (src + i) ≢ 0)
    → m (src + n) ≡ 0
    → n < fuel
    → (src + n < dest) ⊎ (dest + n < src)
    → (m' : Memory) × (copy_string fuel dest src m ≡ some m') × IsCopy n dest src m m'
unfolding copy_string poke
copy_string-IsCopy zero n dest src m before nul enough apart = absurd (omega arith)
copy_string-IsCopy (suc fuel) zero dest src m before nul enough apart =
    let start : src + 0 ≡ src = omega arith in
    let here : m src ≡ 0 = subst (λ q. m q ≡ 0) start nul in
    let e : (m src == 0) ≡ true = ground arith in
    rw e (
      poke m dest (m src),
      refl,
      record {
        inside = λ i l.
            let none_left : i ≡ 0 = omega arith in
            subst (λ k. poke m dest (m src) (dest + k) ≡ m (src + k)) (sym none_left)
              (subst (λ q. poke m dest (m src) q ≡ m (src + 0)) (omega arith)
                (at_start m dest src));
        outside = λ a h.
            let off : (a == dest) ≡ false = elim h [
              | inl l ↦ ground arith
              | inr l ↦ ground arith
            ] in
            rw off refl;
      },
    )
copy_string-IsCopy (suc fuel) (suc n) dest src m before nul enough apart =
    let start : src + 0 ≡ src = omega arith in
    let there : m src ≢ 0 = subst (λ q. m q ≢ 0) start (before 0 (omega arith)) in
    let e : (m src == 0) ≡ false = ground arith in
    let m1 = poke m dest (m src) in
    let next : (i : ℕ) → src + suc i ≡ src + 1 + i = λ i. omega arith in
    let kept : (i : ℕ) → i ≤ n → m1 (src + 1 + i) ≡ m (src + 1 + i) = λ i l.
      let off : (src + 1 + i == dest) ≡ false = elim apart [
        | inl l' ↦ ground arith
        | inr l' ↦ ground arith
      ] in
      rw off refl in
    let (m', run, copied) =
      copy_string-IsCopy fuel n (dest + 1) (src + 1) m1
        (λ i l.
          subst (λ v. v ≢ 0) (ap m (next i) ∙ sym (kept i (omega arith)))
            (before (suc i) (omega arith)))
        (kept n (omega arith) ∙ subst (λ q. m q ≡ 0) (next n) nul) (omega arith)
        (elim apart [ inl l ↦ inl (omega arith) | inr l ↦ inr (omega arith) ]) in
    rw e (m', run, one_more n dest src m m' kept copied)

-- With more fuel than the string is long, `strcpy` between pointers that are not NULL, of ranges that do
-- not meet, copies the string with its NUL, returns the destination, and leaves every other byte alone.
pub strcpy-IsCopy :
    (fuel n : ℕ) (dest src : Ptr) (m : Memory)
    → dest ≢ null
    → src ≢ null
    → ((i : ℕ) → i < n → m (src + i) ≢ 0)
    → m (src + n) ≡ 0
    → n < fuel
    → (src + n < dest) ⊎ (dest + n < src)
    → (m' : Memory) × (strcpy fuel dest src m ≡ some (dest, m')) × IsCopy n dest src m m'
unfolding strcpy
strcpy-IsCopy fuel n dest src m real_dest real_src before nul enough apart =
    let e1 : (dest == null) ≡ false = ground arith in
    let e2 : (src == null) ≡ false = ground arith in
    let (m', run, copied) = copy_string-IsCopy fuel n dest src m before nul enough apart in
    rw (e1, e2) (m', ap (with_dest dest) run, copied)
