-- ===== src/Coremark/Matrix/Sum.antt =====
-- matrix_sum: its result and the number of cells.
use gandiva.Base.{
  ℕ, ◌+◌, ◌*◌, ◌^◌, ◌≤◌, ◌<◌, ◌≡◌, arith, List, length, get_or, ok, ◌>>=◌, load, load-ok,
}
use gandiva.Base.Loop.{for_loop, for_loop_inv}
use gandiva.Coremark.Matrix.{Summing, summing, sum_step, matrix_sum}
use gandiva.Coremark.Matrix.Cells.{index_in_range}

-- A cell adds ten at most, if the result cannot wrap.
abbrev Bounded : ℕ → ℕ → Summing → Type 0
Bounded n m s = 10 * (n * n) < 2 ^ 16 → s.ret ≤ 10 * m

step-Bounded :
    (n m clipval cur : ℕ) (s : Summing)
    → m < n * n
    → Bounded n m s
    → Bounded n (m + 1) (sum_step clipval cur s)
unfolding sum_step
step-Bounded n m clipval cur s below h small = ground (arith, h small)

pub matrix_sum-Bounded :
    (n : ℕ) (c : List ℕ) (clipval : ℕ)
    → n * n ≤ length c
    → (v : ℕ) × (matrix_sum n c clipval ≡ ok v) × (10 * (n * n) < 2 ^ 16 → v ≤ 10 * (n * n))
unfolding matrix_sum
matrix_sum-Bounded n c clipval fits =
    let (s, e, h) =
      for_loop_inv (λ i. Bounded n (i * n)) _ n 0 n (summing 0 0 0) (omega arith) row
        (λ small. omega arith) in
    (s.ret, rw e, h)
  where
    cell :
        (i j : ℕ) (s : Summing)
        → i < n
        → j < n
        → Bounded n (i * n + j) s
        → (s' : Summing) × ((load c (i * n + j) >>= λ cur. ok (sum_step clipval cur s)) ≡ ok s')
          × Bounded n (i * n + (j + 1)) s'
    cell i j s p q h =
        let below = index_in_range i j n p q in
        let cur = get_or c (i * n + j) 0 in
        (
          sum_step clipval cur s,
          rw (load-ok c (i * n + j) (omega arith)),
          λ small. omega (arith, step-Bounded n (i * n + j) clipval cur s below h small),
        )

    row :
        (i : ℕ) (s : Summing)
        → i < n
        → Bounded n (i * n) s
        → (s' : Summing) × (for_loop n 0
              (λ j t. load c (i * n + j) >>= λ cur. ok (sum_step clipval cur t))
              s
            ≡ ok s')
          × Bounded n ((i + 1) * n) s'
    row i s p h =
        let (s', e, h') =
          for_loop_inv (λ j. Bounded n (i * n + j)) _ n 0 n s (omega arith)
            (λ j t q g. cell i j t p q g) (λ small. omega (arith, h small)) in
        (s', e, λ small. grind (arith, h' small))

-- matrix_sum returns on a block of N * N cells or more, and while ten times the number of cells
-- fits 16 bits its result is at most that.
pub matrix_sum_bounds :
    (n : ℕ) (c : List ℕ) (clipval : ℕ)
    → n * n ≤ length c
    → 10 * (n * n) < 2 ^ 16
    → (v : ℕ) × (matrix_sum n c clipval ≡ ok v) × (v ≤ 10 * (n * n))
matrix_sum_bounds n c clipval fits small =
    let (v, e, h) = matrix_sum-Bounded n c clipval fits in (v, e, h small)
