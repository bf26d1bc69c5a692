-- ===== src/Coremark/Matrix/Init/Size.antt =====
-- The search of core_init_matrix for the dimension.
use gandiva.Base.{
  ℕ, zero, suc, ◌+◌, ◌-◌, ◌*◌, ◌^◌, ◌≤◌, ◌<◌, ◌≡◌, refl, arith, ◌⊎◌, inl, inr, Bool-cases, ltb, u32,
  ok,
}
use gandiva.Coremark.Matrix.Cells.{le_square}
use gandiva.Coremark.Matrix.Init.{size_loop}

-- `i` is the first number whose square, times eight, reaches the size of the block.
abbrev pub IsFirst : ℕ → ℕ → Type 0
IsFirst blksize i = (0 < i) × (8 * ((i - 1) * (i - 1)) < blksize) × (blksize ≤ 8 * (i * i))

next_square : (i : ℕ) → (i + 1) * (i + 1) ≡ i * i + 2 * i + 1
next_square i = grind arith

no_wrap : (i : ℕ) → 8 * (i * i) < 2 ^ 29 → u32 ((i + 1) * (i + 1) * 2 * 4) ≡ 8 * ((i + 1) * (i + 1))
no_wrap i h = omega (arith, next_square i, le_square i)

IsFirst-done :
    (blksize i : ℕ)
    → 0 < blksize
    → (i ≡ 0) ⊎ (8 * ((i - 1) * (i - 1)) < blksize)
    → blksize ≤ 8 * (i * i)
    → IsFirst blksize i
IsFirst-done blksize zero pos h done = absurd (omega arith)
IsFirst-done blksize (suc i) pos (inl e) done = absurd (omega arith)
IsFirst-done blksize (suc i) pos (inr h) done = (omega arith, h, done)

pub size_loop-IsFirst :
    (fuel blksize i : ℕ)
    → blksize < i + fuel
    → blksize < 2 ^ 29
    → 0 < blksize
    → (i ≡ 0) ⊎ (8 * ((i - 1) * (i - 1)) < blksize)
    → (r : ℕ) × (size_loop fuel blksize i (8 * (i * i)) ≡ ok r) × IsFirst blksize r
unfolding size_loop
size_loop-IsFirst zero blksize i enough small pos h = absurd (omega (arith, le_square (i - 1)))
size_loop-IsFirst (suc fuel) blksize i enough small pos h =
    elim (Bool-cases (ltb (8 * (i * i)) blksize)) [
      | inl more ↦
          let below : 8 * (i * i) < blksize = ground arith in
          let before : i + 1 - 1 ≡ i = omega arith in
          rw (more, no_wrap i (omega arith))
            (size_loop-IsFirst fuel blksize (i + 1) (omega arith) small pos (inr (rw before below)))
      | inr done ↦ rw done (i, refl, IsFirst-done blksize i pos h (ground arith))
    ]
