-- ===== src/Minstd.antt =====
-- kernel/src/lib/minstd.c, the functions on blocks of bytes. A function that writes returns the
-- pointer of its C result and the new memory; one that only reads returns its result. What is
-- printed with `kerr` is left out.
pub mod Block
pub mod Strings
mod Bounded
mod Unbounded
mod Tests
use freecore.Prelude.{
  ℕ, zero, suc, ◌+◌, ◌%◌, Bool, true, false, ◌&&◌, ◌||◌, ◌==◌, ltb, leb, if◌then◌else◌, ℤ, pos,
  minus_one,
}
use freecore.Memory.{Memory, Ptr, null, add_word, poke}

-- `for (i = 0; i < n; i++) pdest[i] = psrc[i];` with the rounds left and the index
copy_forward : ℕ → ℕ → Ptr → Ptr → Memory → Memory
copy_forward zero i dest src m = m
copy_forward (suc k) i dest src m =
    copy_forward k (i + 1) dest src (poke m (dest + i) (m (src + i)))

-- `for (i = n; i > 0; i--) pdest[i-1] = psrc[i-1];`
copy_backward : ℕ → Ptr → Ptr → Memory → Memory
copy_backward zero dest src m = m
copy_backward (suc k) dest src m = copy_backward k dest src (poke m (dest + k) (m (src + k)))

pub memmove : Ptr → Ptr → ℕ → Memory → Ptr × Memory
unfolding copy_forward copy_backward
memmove dest src n m =
    if (dest == null) || (src == null)
    then (dest, m)
    else if n == 0
    then (dest, m)
    else if dest == src
    then (dest, m)
    else if ltb dest src
    then (dest, copy_forward n 0 dest src m)
    else (dest, copy_backward n dest src m)

-- The two tests for an overlap fall back on `memmove`.
pub memcpy : Ptr → Ptr → ℕ → Memory → Ptr × Memory
unfolding memmove copy_forward
memcpy dest src n m =
    if (dest == null) || (src == null)
    then (dest, m)
    else if n == 0
    then (dest, m)
    else if leb dest src && ltb src (add_word dest n)
    then memmove dest src n m
    else if leb src dest && ltb dest (add_word src n)
    then memmove dest src n m
    else (dest, copy_forward n 0 dest src m)

-- `for (i = 0; i < n; i++) p[i] = value;`
fill : ℕ → ℕ → Ptr → ℕ → Memory → Memory
fill zero i s value m = m
fill (suc k) i s value m = fill k (i + 1) s value (poke m (s + i) value)

-- `c` stands for the value of the `int` argument modulo a multiple of 256.
pub memset : Ptr → ℕ → ℕ → Memory → Ptr × Memory
unfolding fill
memset s c n m =
    if s == null then (s, m) else if n == 0 then (s, m) else (s, fill n 0 s (c % 256) m)

-- `for (i = 0; i < n; i++) if (p1[i] != p2[i]) return p1[i] < p2[i] ? -1 : 1;`
compare_bytes : ℕ → ℕ → Ptr → Ptr → Memory → ℤ
compare_bytes zero i s1 s2 m = pos 0
compare_bytes (suc k) i s1 s2 m =
    let rest = compare_bytes k (i + 1) s1 s2 m in
    if m (s1 + i) == m (s2 + i)
    then rest
    else if ltb (m (s1 + i)) (m (s2 + i))
    then minus_one
    else pos 1

pub memcmp : Ptr → Ptr → ℕ → Memory → ℤ
unfolding compare_bytes
memcmp s1 s2 n m =
    if (s1 == null) || (s2 == null)
    then pos 0
    else if n == 0
    then pos 0
    else compare_bytes n 0 s1 s2 m
