-- ===== src/Coremark/Matrix/Product.antt =====
-- The products of core_matrix.c against sums over a row and a column.
use mathlib.Core.Path.{subst}
use native.Mathlib.Nat.{
  zero-add, add-zero, mul-add-div_right, mul-add-mod_self_right, div-eq_of_lt, mod-eq_of_lt,
}
use gandiva.Base.{
  ℕ, zero, suc, ◌+◌, ◌*◌, ◌/◌, ◌%◌, ◌^◌, ◌≤◌, ◌<◌, ◌≡◌, refl, ap, ap₂, sym, ◌∙◌, arith, List,
  length, get_or, set, set-set, set-get_or, length-set, get_or-set_self, u32, Run, ok, load-ok,
  store-ok,
}
use gandiva.Base.Loop.{for_loop, Updated, Updated-set, Updated-run, for_loop-Updated}
use gandiva.Coremark.Matrix.{
  cells, product, extract, add_term, accumulate, matrix_mul_vect, matrix_mul_matrix,
  matrix_mul_matrix_bitextract,
}
use gandiva.Coremark.Matrix.Fields.{field_product, extract_lem}
use gandiva.Coremark.Matrix.Cells.{cells-Updated, index_in_range}

-- f i + … + f (i + n - 1)
unfoldable pub sum_terms : ℕ → ℕ → (ℕ → ℕ) → ℕ
sum_terms zero i f = 0
sum_terms (suc n) i f = f i + sum_terms n (i + 1) f

-- The value that the in-place loop leaves.
running : ℕ → ℕ → (ℕ → ℕ) → ℕ → ℕ
running zero i f s = s
running (suc n) i f s = running n (i + 1) f (u32 (s + f i))

running-sum :
    (n i : ℕ) (f : ℕ → ℕ) (s : ℕ) → s < 2 ^ 32 → running n i f s ≡ u32 (s + sum_terms n i f)
unfolding running sum_terms
running-sum zero i f s h = omega arith
running-sum (suc n) i f s h = running-sum n (i + 1) f (u32 (s + f i)) (omega arith) ∙ omega arith

module _ (term : ℕ → ℕ → ℕ) (a b : List ℕ) (row col : ℕ → ℕ) (at : ℕ) where
  abbrev value : ℕ → ℕ
  value k = term (get_or a (row k) 0) (get_or b (col k) 0)

  loop-running :
      (n i j : ℕ) (c : List ℕ)
      → i + n ≡ j
      → ((k : ℕ) → k < j → (row k < length a) × (col k < length b))
      → at < length c
      → for_loop n i (add_term term a b row col at) c
        ≡ ok (set c at (running n i value (get_or c at 0)))
  unfolding for_loop running add_term
  loop-running zero i j c e ranges fits = ap ok (sym (set-get_or c at 0))
  loop-running (suc n) i j c e ranges fits =
      let (in_a, in_b) = ranges i (omega arith) in
      let new = u32 (get_or c at 0 + value i) in
      rw (load-ok a (row i) in_a, load-ok b (col i) in_b, load-ok c at fits, store-ok c at new fits)
        (loop-running n (i + 1) j (set c at new) (omega arith) ranges
            (rw (length-set c at new) fits)
          ∙ ap ok (
              ap (λ v. set (set c at new) at (running n (i + 1) value v))
                (get_or-set_self c at new 0 fits)
              ∙ set-set c at new (running n (i + 1) value new)))

  pub accumulate-sum :
      (n : ℕ) (c : List ℕ)
      → ((k : ℕ) → k < n → (row k < length a) × (col k < length b))
      → at < length c
      → accumulate n term a b row col at c ≡ ok (set c at (u32 (sum_terms n 0 value)))
  unfolding accumulate
  accumulate-sum n c ranges fits = rw (store-ok c at 0 fits) (
      loop-running n 0 n (set c at 0) (omega arith) ranges (rw (length-set c at 0) fits)
      ∙ ap ok (
          ap (λ v. set (set c at 0) at (running n 0 value v)) (get_or-set_self c at 0 0 fits)
          ∙ set-set c at 0 (running n 0 value 0)
          ∙ ap (set c at)
              (running-sum n 0 value 0 (omega arith) ∙ ap u32 (zero-add (sum_terms n 0 value)))))

pub div_of_index : (i j n : ℕ) → j < n → (i * n + j) / n ≡ i
div_of_index i j n h =
    mul-add-div_right (omega arith) i j ∙ ap (λ t. i + t) (div-eq_of_lt h) ∙ add-zero i

pub mod_of_index : (i j n : ℕ) → j < n → (i * n + j) % n ≡ j
mod_of_index i j n h = mul-add-mod_self_right i n j ∙ mod-eq_of_lt h

-- The cell of row `i` and column `j` of a product of two N by N blocks, modulo 2 ^ 32.
unfoldable pub product_cell : (ℕ → ℕ → ℕ) → ℕ → List ℕ → List ℕ → ℕ → ℕ → ℕ
product_cell term n a b i j =
    u32 (sum_terms n 0 (λ k. term (get_or a (i * n + k) 0) (get_or b (k * n + j) 0)))

-- The block holds the product, and what lies behind it is as before.
pub record IsProduct (term : ℕ → ℕ → ℕ) (n : ℕ) (c a b : List ℕ) (r : Run (List ℕ)) : Type 0 where
  pub out : List ℕ
  pub returns : r ≡ ok out
  pub same_length : length out ≡ length c
  pub cell : (i j : ℕ) → i < n → j < n → get_or out (i * n + j) 0 ≡ product_cell term n a b i j
  pub behind : (m : ℕ) → n * n ≤ m → get_or out m 0 ≡ get_or c m 0

module _ (term : ℕ → ℕ → ℕ) (n : ℕ) (c a b : List ℕ) (fit_c : n * n ≤ length c)
    (fit_a : n * n ≤ length a) (fit_b : n * n ≤ length b) where
  abbrev new_cell : ℕ → ℕ → ℕ
  new_cell m old = product_cell term n a b (m / n) (m % n)

  step :
      (i j : ℕ) (d : List ℕ)
      → i < n
      → j < n
      → length d ≡ length c
      → Updated new_cell
          (i * n + j)
          (i * n + j + 1)
          d
          (accumulate n term a b (λ k. i * n + k) (λ k. k * n + j) (i * n + j) d)
  unfolding product_cell
  step i j d p q same =
      let here : i * n + j < length d = omega (arith, index_in_range i j n p q) in
      Updated-run
        (accumulate-sum term a b (λ k. i * n + k) (λ k. k * n + j) (i * n + j) n d
            (λ k h.
              (omega (arith, index_in_range i k n p h), omega (arith, index_in_range k j n h q)))
            here
          ∙ ap₂ (λ r s. ok (set d (i * n + j) (product_cell term n a b r s)))
              (sym (div_of_index i j n q)) (sym (mod_of_index i j n q)))
        (Updated-set new_cell (i * n + j) d here)

  pub product_lem :
      IsProduct term n c a b
        (cells n (λ i j. accumulate n term a b (λ k. i * n + k) (λ k. k * n + j) (i * n + j)) c)
  product_lem = record {
    out = done.out;
    returns = done.returns;
    same_length = done.same_length;
    cell = λ i j p q.
        done.inside (i * n + j) (omega arith) (index_in_range i j n p q)
        ∙ ap₂ (product_cell term n a b) (div_of_index i j n q) (mod_of_index i j n q);
    behind = λ m h. done.outside m (omega arith);
  }
    where
      done :
          Updated new_cell 0
            (n * n)
            c
            (cells n (λ i j. accumulate n term a b (λ k. i * n + k) (λ k. k * n + j) (i * n + j)) c)
      done = cells-Updated new_cell n _ c step

-- On blocks of N * N cells or more, matrix_mul_matrix stays within them and returns; each cell of C
-- is the sum of the products of row i of A and column j of B, as signed 16-bit values, modulo
-- 2 ^ 32, for every N.
pub matrix_mul_matrix_lem :
    (n : ℕ) (c a b : List ℕ)
    → n * n ≤ length c
    → n * n ≤ length a
    → n * n ≤ length b
    → IsProduct product n c a b (matrix_mul_matrix n c a b)
unfolding matrix_mul_matrix
matrix_mul_matrix_lem n c a b fc fa fb = product_lem product n c a b fc fa fb

-- matrix_mul_matrix_bitextract on blocks of N * N cells or more stays within them and returns; each
-- cell of C is the sum over row i of A and column j of B, modulo 2 ^ 32, of the product of two bit
-- fields of the product of the two cells: the four bits from bit 2 on and the seven bits from bit 5
-- on, which are those of the product of the cells as unsigned numbers.
pub matrix_mul_matrix_bitextract_lem :
    (n : ℕ) (c a b : List ℕ)
    → n * n ≤ length c
    → n * n ≤ length a
    → n * n ≤ length b
    → IsProduct field_product n c a b (matrix_mul_matrix_bitextract n c a b)
unfolding matrix_mul_matrix_bitextract
matrix_mul_matrix_bitextract_lem n c a b fc fa fb =
    subst (λ term. IsProduct term n c a b (matrix_mul_matrix_bitextract n c a b))
      (λ i x y. extract_lem x y i) (product_lem extract n c a b fc fa fb)

-- On blocks with room for N cells of C and B and N * N of A, matrix_mul_vect stays within them and
-- returns; each of the first N cells of C is the sum of the products of a row of A and the first N
-- cells of B, as signed 16-bit values, modulo 2 ^ 32, and no other cell is changed.
pub matrix_mul_vect_lem :
    (n : ℕ) (c a b : List ℕ)
    → n ≤ length c
    → n * n ≤ length a
    → n ≤ length b
    → Updated
        (λ i old. u32 (sum_terms n 0 (λ j. product (get_or a (i * n + j) 0) (get_or b j 0))))
        0
        n
        c
        (matrix_mul_vect n c a b)
unfolding matrix_mul_vect
matrix_mul_vect_lem n c a b fc fa fb =
    (for_loop-Updated _ (λ i. i) (length c) _ n 0 n c (omega arith) (λ k. omega arith)
      (λ i d p same.
        Updated-run
          (accumulate-sum product a b (λ j. i * n + j) (λ j. j) i n d
            (λ k h. (omega (arith, index_in_range i k n p h), omega arith)) (omega arith))
          (Updated-set _ i d (omega arith)))
      refl).1
