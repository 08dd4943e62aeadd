-- ===== src/Minstd/Bounded.antt =====
-- kernel/src/lib/minstd.c, the functions on strings in memory that a count bounds.
use freecore.Prelude.{
  ℕ, zero, suc, ◌+◌, ◌≤◌, ◌<◌, ◌-◌, ◌≡◌, ◌≢◌, arith, false, ◌||◌, ◌==◌, not, if◌then◌else◌, subst,
  sym, Bool-cases, inl, inr, ℤ, pos, sub_ℕ,
}
use freecore.Memory.{Memory, Ptr, null, poke}
use freecore.Minstd.{fill}

-- `while (len < maxlen && s[len]) len++;` with the rounds left
strnlen_loop : ℕ → ℕ → Ptr → Memory → ℕ
strnlen_loop zero len s m = len
strnlen_loop (suc rounds) len s m =
    let rest = strnlen_loop rounds (len + 1) s m in if m (s + len) == 0 then len else rest

unfoldable strnlen : Ptr → ℕ → Memory → ℕ
unfolding strnlen_loop
strnlen s maxlen m = if s == null then 0 else strnlen_loop maxlen 0 s m

-- `while (n > 1 && *s1 && *s2) { if (*s1 != *s2) break; ... }`, with `n - 1`, and the difference at the
-- place where it ends
strncmp_loop : ℕ → Ptr → Ptr → Memory → ℤ
strncmp_loop zero s1 s2 m = sub_ℕ (m s1) (m s2)
strncmp_loop (suc rounds) s1 s2 m =
    let rest = strncmp_loop rounds (s1 + 1) (s2 + 1) m in
    if (m s1 == 0) || (m s2 == 0) || not (m s1 == m s2) then sub_ℕ (m s1) (m s2) else rest

unfoldable strncmp : Ptr → Ptr → ℕ → Memory → ℤ
unfolding strncmp_loop
strncmp s1 s2 n m =
    if (s1 == null) || (s2 == null)
    then pos 0
    else if n == 0
    then pos 0
    else strncmp_loop (n - 1) s1 s2 m

-- The two loops of `strncpy`, with the rounds left and the index.
strncpy_loop : ℕ → ℕ → Ptr → Ptr → Memory → Memory
unfolding fill
strncpy_loop zero i dest src m = m
strncpy_loop (suc rounds) i dest src m =
    let rest = strncpy_loop rounds (i + 1) dest src (poke m (dest + i) (m (src + i))) in
    if m (src + i) == 0 then fill (suc rounds) i dest 0 m else rest

unfoldable strncpy : Ptr → Ptr → ℕ → Memory → Ptr × Memory
unfolding strncpy_loop
strncpy dest src n m =
    if (dest == null) || (src == null) then (dest, m) else (dest, strncpy_loop n 0 dest src m)

-- The number of bytes in front of the first NUL, or the bound: no byte in front of it is 0, and there is
-- a NUL behind them unless the bound is reached.
record IsLength (s : Ptr) (maxlen n : ℕ) (m : Memory) : Type 0 where
  bounded : n ≤ maxlen
  before : (i : ℕ) → i < n → m (s + i) ≢ 0
  behind : n < maxlen → m (s + n) ≡ 0

strnlen_loop-IsLength :
    (rounds len : ℕ) (s : Ptr) (m : Memory)
    → ((i : ℕ) → i < len → m (s + i) ≢ 0)
    → IsLength s (len + rounds) (strnlen_loop rounds len s m) m
unfolding strnlen_loop
strnlen_loop-IsLength zero len s m h = record {
  bounded = omega arith;
  before = h;
  behind = λ l. absurd (omega arith);
}
strnlen_loop-IsLength (suc rounds) len s m h = elim (Bool-cases (m (s + len) == 0)) [
  | inl e ↦ rw e (record { bounded = omega arith; before = h; behind = λ l. ground arith })
  | inr e ↦
      let more : (i : ℕ) → i < len + 1 → m (s + i) ≢ 0 = λ i l. elim (Bool-cases (i == len)) [
        | inl here ↦
            let same : i ≡ len = ground arith in
            let not_nul : m (s + len) ≢ 0 = ground arith in
            subst (λ k. m (s + k) ≢ 0) (sym same) not_nul
        | inr there ↦ h i (ground arith)
      ] in
      let rest = strnlen_loop-IsLength rounds (len + 1) s m more in
      rw e (record {
        bounded = omega (arith, rest.bounded);
        before = rest.before;
        behind = λ l. rest.behind (omega arith);
      })
]

-- `strnlen` of a string that is not NULL is the number of bytes in front of its first NUL, if that is
-- below the bound, and the bound otherwise.
strnlen-IsLength :
    (s : Ptr) (maxlen : ℕ) (m : Memory) → s ≢ null → IsLength s maxlen (strnlen s maxlen m) m
unfolding strnlen
strnlen-IsLength s maxlen m there =
    let e : (s == null) ≡ false = ground arith in
    let bound : 0 + maxlen ≡ maxlen = omega arith in
    rw e (
      subst (λ b. IsLength s b (strnlen_loop maxlen 0 s m) m) bound
        (strnlen_loop-IsLength maxlen 0 s m (λ i l. absurd (omega arith))))
