-- ===== src/Tests/Matrix.antt =====
-- The matrix functions on matrices of two by two cells.
use gandiva.Base.{
  ℕ, ◌+◌, u32, ◌*◌, ◌<◌, ◌≡◌, refl, arith, List, [], ◌∷◌, length, get_or, replicate, ◌^◌, ok, zero,
  suc,
}
use gandiva.Base.Loop.{Updated}
use gandiva.Coremark.Matrix.{
  matrix_mul_vect, product, matrix_mul_matrix, matrix_mul_matrix_bitextract, Tested, matrix_test,
}
use gandiva.Coremark.Matrix.Fields.{field_product}
use gandiva.Coremark.Matrix.Product.{
  IsProduct, sum_terms, matrix_mul_vect_lem, matrix_mul_matrix_lem,
  matrix_mul_matrix_bitextract_lem,
}
use gandiva.Coremark.Matrix.Restore.{IsMatdat, matrix_test_restores}
use gandiva.Coremark.Matrix.Init.{Prepared, core_init_matrix}
use gandiva.Coremark.Matrix.Init.Laws.{IsLaidOut, core_init_matrix_lem}

abbrev cells_a : List ℕ
cells_a = 1 ∷ 0xffff ∷ 3 ∷ 4 ∷ []

abbrev cells_b : List ℕ
cells_b = 5 ∷ 6 ∷ 7 ∷ 8 ∷ []

abbrev cells_c : List ℕ
cells_c = replicate 4 0

cells_a_small : IsMatdat cells_a
cells_a_small zero = omega arith
cells_a_small (suc zero) = omega arith
cells_a_small (suc (suc zero)) = omega arith
cells_a_small (suc (suc (suc zero))) = omega arith
cells_a_small (suc (suc (suc (suc m)))) = omega arith

matrix_mul_matrix_lem_example :
    IsProduct product 2 cells_c cells_a cells_b (matrix_mul_matrix 2 cells_c cells_a cells_b)
matrix_mul_matrix_lem_example =
    matrix_mul_matrix_lem 2 cells_c cells_a cells_b (omega arith) (omega arith) (omega arith)

matrix_mul_matrix_bitextract_lem_example :
    IsProduct field_product 2 cells_c cells_a cells_b
      (matrix_mul_matrix_bitextract 2 cells_c cells_a cells_b)
matrix_mul_matrix_bitextract_lem_example =
    matrix_mul_matrix_bitextract_lem 2 cells_c cells_a cells_b (omega arith) (omega arith)
      (omega arith)

matrix_mul_vect_lem_example :
    Updated
      (λ i old.
        u32 (sum_terms 2 0 (λ j. product (get_or cells_a (i * 2 + j) 0) (get_or cells_b j 0))))
      0
      2
      cells_c
      (matrix_mul_vect 2 cells_c cells_a cells_b)
matrix_mul_vect_lem_example =
    matrix_mul_vect_lem 2 cells_c cells_a cells_b (omega arith) (omega arith) (omega arith)

matrix_test_restores_example :
    (t : Tested) × (matrix_test 2 cells_c cells_a cells_b 0x22 ≡ ok t)
    × (t.a ≡ cells_a)
    × (length t.c ≡ length cells_c)
matrix_test_restores_example =
    matrix_test_restores 2 cells_c cells_a cells_b 0x22 (omega arith) (omega arith) (omega arith)
      (omega arith) cells_a_small

core_init_matrix_lem_example :
    (p : Prepared) × (core_init_matrix 40 4 0 (replicate 5 0) (replicate 5 0) ≡ ok p)
    × IsLaidOut 40 4 p.params
    × ((k : ℕ) → k < p.params.n * p.params.n → get_or p.a k 0 < 2 ^ 8)
    × ((k : ℕ) → k < p.params.n * p.params.n → get_or p.b k 0 < 2 ^ 16)
core_init_matrix_lem_example =
    core_init_matrix_lem 40 4 0 (replicate 5 0) (replicate 5 0) (omega arith) (omega arith)
      (omega arith) refl (omega arith) (omega arith) (omega arith)
