-- ===== src/Kernel/Memory.antt =====
-- The byte routines of xv6/kernel/string.c, on a memory that maps addresses to bytes.
use ru_shell.Base.{Option, if◌then◌else◌, ltb, none, not, some, suc, zero, ℕ, ◌%◌, ◌&&◌, ◌+◌, ◌==◌}
pub mod Move

abbrev pub Memory : Type 0
Memory = ℕ → ℕ

abbrev pub store : Memory → ℕ → ℕ → Memory
store m a v b = if b == a then v else m b

-- The loop of `memset`, with `n` bytes left from `a` on.
unfoldable pub memset : ℕ → ℕ → ℕ → Memory → Memory
memset a c zero m = m
memset a c (suc n) m = memset (a + 1) c n (store m a (c % 256))

-- `*d++ = *s++`, `n` times.
unfoldable pub copy_up : ℕ → ℕ → ℕ → Memory → Memory
copy_up d s zero m = m
copy_up d s (suc n) m = copy_up (d + 1) (s + 1) n (store m d (m s))

-- `*--d = *--s`, `n` times, from the ends `d + n` and `s + n`.
unfoldable pub copy_down : ℕ → ℕ → ℕ → Memory → Memory
copy_down d s zero m = m
copy_down d s (suc n) m = copy_down d s n (store m (d + n) (m (s + n)))

unfoldable pub memmove : ℕ → ℕ → ℕ → Memory → Memory
unfolding copy_up copy_down
memmove dst src n m =
    if n == 0
    then m
    else if ltb src dst && ltb dst (src + n)
    then copy_down dst src n m
    else copy_up dst src n m

unfoldable pub memcpy : ℕ → ℕ → ℕ → Memory → Memory
unfolding memmove
memcpy dst src n m = memmove dst src n m

-- The bytes at which the loop stops, whose difference is the result; `none` is the result 0 at the
-- end.
unfoldable pub memcmp : ℕ → ℕ → ℕ → Memory → Option (ℕ × ℕ)
memcmp a b zero m = none
memcmp a b (suc n) m =
    let rest = memcmp (a + 1) (b + 1) n m in if m a == m b then rest else some (m a, m b)

-- The same for strings, whose loop stops at a NUL too.
unfoldable pub strncmp : ℕ → ℕ → ℕ → Memory → Option (ℕ × ℕ)
strncmp p q zero m = none
strncmp p q (suc n) m =
    let rest = strncmp (p + 1) (q + 1) n m in
    if not (m p == 0) && m p == m q then rest else some (m p, m q)

-- The loop that fills with NULs.
unfoldable pub fill_nul : ℕ → ℕ → Memory → Memory
fill_nul s zero m = m
fill_nul s (suc n) m = fill_nul (s + 1) n (store m s 0)

unfoldable pub strncpy : ℕ → ℕ → ℕ → Memory → Memory
unfolding fill_nul
strncpy s t zero m = m
strncpy s t (suc n) m =
    let m' = store m s (m t) in
    let filled = fill_nul (s + 1) n m' in
    let rest = strncpy (s + 1) (t + 1) n m' in if m t == 0 then filled else rest

-- The loop of `safestrcpy`, with `n` bytes left for the string and its NUL.
unfoldable pub copy_terminated : ℕ → ℕ → ℕ → Memory → Memory
copy_terminated s t zero m = m
copy_terminated s t (suc zero) m = store m s 0
copy_terminated s t (suc (suc n)) m =
    let m' = store m s (m t) in
    let rest = copy_terminated (s + 1) (t + 1) (suc n) m' in
    if m t == 0 then store m' (s + 1) 0 else rest

unfoldable pub safestrcpy : ℕ → ℕ → ℕ → Memory → Memory
unfolding copy_terminated
safestrcpy s t n m = copy_terminated s t n m
