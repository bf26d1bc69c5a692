-- ===== src/Tests/Memory.antt =====
-- The memory functions on a block of six bytes.
use gandiva.Base.{ℕ, ◌+◌, arith, List, [], ◌∷◌, get_or}
use gandiva.Rtos.Libc.{memmove}
use gandiva.Rtos.Libc.Moves.{Writes, memmove_lem}

abbrev block : List ℕ
block = 1 ∷ 2 ∷ 3 ∷ 4 ∷ 5 ∷ 6 ∷ []

memmove_lem_example : Writes 2 4 (λ j. get_or block (0 + j) 0) block (memmove 2 0 4 block)
memmove_lem_example = memmove_lem 4 2 0 block (omega arith) (omega arith)
