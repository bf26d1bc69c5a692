-- ===== src/Coremark/Matrix/Cells.antt =====
-- The nested loops of core_matrix.c over the cells of an N by N block, in order.
use gandiva.Base.{ℕ, zero, suc, ◌+◌, ◌*◌, ◌≤◌, ◌<◌, ◌≡◌, refl, arith, List, length, Run}
use native.Mathlib.Nat.{add_assoc}
use gandiva.Base.Loop.{for_loop, for_loop-Updated, Updated, Updated-bounds}
use gandiva.Coremark.Matrix.{cells}

pub index_in_range : (i j n : ℕ) → i < n → j < n → i * n + j < n * n
index_in_range i j n p q = grind arith

-- A body that updates the one cell of its indices: the loops update all cells.
pub cells-Updated :
    (h : ℕ → ℕ → ℕ) (n : ℕ) (body : ℕ → ℕ → List ℕ → Run (List ℕ)) (c : List ℕ)
    → ((i j : ℕ) (d : List ℕ)
        → i < n
        → j < n
        → length d ≡ length c
        → Updated h (i * n + j) (i * n + j + 1) d (body i j d))
    → Updated h 0 (n * n) c (cells n body c)
unfolding cells
cells-Updated h n body c each =
    Updated-bounds (omega arith) refl
      (for_loop-Updated h (λ i. i * n) (length c) (λ i. for_loop n 0 (body i)) n 0 n c (omega arith)
        (λ k. grind arith) row refl).1
  where
    row :
        (i : ℕ) (d : List ℕ)
        → i < n
        → length d ≡ length c
        → Updated h (i * n) ((i + 1) * n) d (for_loop n 0 (body i) d)
    row i d p same =
        Updated-bounds (omega arith) (grind arith)
          (for_loop-Updated h (λ j. i * n + j) (length c) (body i) n 0 n d (omega arith)
            (λ k. omega arith)
            (λ j e q s. Updated-bounds refl (add_assoc (i * n) j 1) (each i j e p q s)) same).1

pub le_square : (n : ℕ) → n ≤ n * n
le_square zero = omega arith
le_square (suc n) = grind arith
