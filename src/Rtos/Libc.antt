-- ===== src/Rtos/Libc.antt =====
-- rtos/bsp/libc_stubs.c: the memory functions, on one block whose bytes the pointers count.
pub mod Moves
use gandiva.Base.{ℕ, zero, suc, ◌+◌, ltb, if◌then◌else◌, List, u8, Run, ok, ◌>>=◌, load, store}

-- while( n-- ) *dd++ = *ss++;
unfoldable pub copy_up : ℕ → ℕ → ℕ → List ℕ → Run (List ℕ)
copy_up zero dd ss m = ok m
copy_up (suc n) dd ss m = load m ss >>= λ x. store m dd x >>= λ m'. copy_up n (dd + 1) (ss + 1) m'

-- while( n-- ) *--dd = *--ss;, for pointers that are `n` bytes above `d` and `s`.
unfoldable pub copy_down : ℕ → ℕ → ℕ → List ℕ → Run (List ℕ)
copy_down zero d s m = ok m
copy_down (suc n) d s m = load m (s + n) >>= λ x. store m (d + n) x >>= λ m'. copy_down n d s m'

unfoldable pub memcpy : ℕ → ℕ → ℕ → List ℕ → Run (List ℕ)
memcpy d s n m = copy_up n d s m

unfoldable pub memset : ℕ → ℕ → ℕ → List ℕ → Run (List ℕ)
memset d c zero m = ok m
memset d c (suc n) m = store m d (u8 c) >>= λ m'. memset (d + 1) c n m'

unfoldable pub memmove : ℕ → ℕ → ℕ → List ℕ → Run (List ℕ)
memmove d s n m = if ltb d s then copy_up n d s m else copy_down n d s m
