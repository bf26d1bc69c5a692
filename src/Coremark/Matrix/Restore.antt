-- ===== src/Coremark/Matrix/Restore.antt =====
-- matrix_test as a whole: what it does to its matrices.
use gandiva.Base.{
  ℕ, ◌+◌, ◌*◌, ◌^◌, ◌≤◌, ◌<◌, ◌≡◌, refl, ◌∙◌, arith, inl, inr, List, length, get_or, get_or_ext,
  Bool-cases, ltb, u16, neg_u16, Run, ok, ◌>>=◌, load-ok, store-ok,
}
use mathlib.Core.Path.{subst}
use gandiva.Base.Loop.{Updated, Updated-set, Updated-run}
use gandiva.Coremark.Crc.{crc16}
use gandiva.Coremark.Matrix.{
  product, matrix_add_const, matrix_mul_const, matrix_mul_vect, matrix_mul_matrix,
  matrix_mul_matrix_bitextract, matrix_sum, matrix_big, Tested, tested, matrix_test,
}
use gandiva.Coremark.Matrix.Cells.{cells-Updated, index_in_range, le_square}
use gandiva.Coremark.Matrix.Product.{
  matrix_mul_vect_lem, matrix_mul_matrix_lem, matrix_mul_matrix_bitextract_lem,
}
use gandiva.Coremark.Matrix.Sum.{matrix_sum-Bounded}

-- matrix_add_const adds to each of the N * N cells, modulo 2 ^ 16.
pub matrix_add_const_lem :
    (n : ℕ) (a : List ℕ) (val : ℕ)
    → n * n ≤ length a
    → Updated (λ m old. u16 (old + val)) 0 (n * n) a (matrix_add_const n a val)
unfolding matrix_add_const
matrix_add_const_lem n a val fits = cells-Updated _ n _ a λ i j d p q same.
    let here : i * n + j < length d = omega (arith, index_in_range i j n p q) in
    Updated-run
      (rw
        (
          load-ok d (i * n + j) here,
          store-ok d (i * n + j) (u16 (get_or d (i * n + j) 0 + val)) here,
        )
        refl)
      (Updated-set _ (i * n + j) d here)

pub matrix_mul_const_lem :
    (n : ℕ) (c a : List ℕ) (val : ℕ)
    → n * n ≤ length c
    → n * n ≤ length a
    → Updated (λ m old. product (get_or a m 0) val) 0 (n * n) c (matrix_mul_const n c a val)
unfolding matrix_mul_const
matrix_mul_const_lem n c a val fit_c fit_a = cells-Updated _ n _ c λ i j d p q same.
    let below = index_in_range i j n p q in
    let here : i * n + j < length d = omega arith in
    Updated-run
      (rw
        (
          load-ok a (i * n + j) (omega arith),
          store-ok d (i * n + j) (product (get_or a (i * n + j) 0) val) here,
        )
        refl)
      (Updated-set _ (i * n + j) d here)

-- Every cell is a 16-bit pattern.
abbrev pub IsMatdat : List ℕ → Type 0
IsMatdat a = (m : ℕ) → get_or a m 0 < 2 ^ 16

add_undo : (x val : ℕ) → x < 2 ^ 16 → val < 2 ^ 16 → u16 (u16 (x + val) + neg_u16 val) ≡ x
add_undo x val h k = omega arith

add_const_twice :
    (n : ℕ) (a : List ℕ) (val : ℕ) {r s : Run (List ℕ)}
    → val < 2 ^ 16
    → IsMatdat a
    → (first : Updated (λ m old. u16 (old + val)) 0 (n * n) a r)
    → (second : Updated (λ m old. u16 (old + neg_u16 val)) 0 (n * n) first.out s) → second.out ≡ a
add_const_twice n a val small matdat first second =
    get_or_ext 0 second.out a (second.same_length ∙ first.same_length) λ m h.
      elim (Bool-cases (ltb m (n * n))) [
        | inl inside ↦ ground (
          arith,
          second.inside m (omega arith) (ground arith),
          first.inside m (omega arith) (ground arith),
          add_undo (get_or a m 0) val (matdat m) small,
        )
        | inr outside ↦ second.outside m (inr (ground arith)) ∙ first.outside m (inr (ground arith))
      ]

-- What is left of matrix_test at a point: it returns with A as `a`, and C as long as `len`.
abbrev Ends : ℕ → List ℕ → Run Tested → Type 0
Ends len a r = (t : Tested) × (r ≡ ok t) × (t.a ≡ a) × (length t.c ≡ len)

-- A stage: an operation that writes C, and the sum of what it wrote.
stage :
    (n clipval len : ℕ) (a c out : List ℕ) (r : Run (List ℕ)) (k : List ℕ → ℕ → Run Tested)
    → r ≡ ok out
    → length out ≡ length c
    → length c ≡ len
    → n * n ≤ len
    → ((c' : List ℕ) (t : ℕ) → length c' ≡ len → Ends len a (k c' t))
    → Ends len a (r >>= λ c'. matrix_sum n c' clipval >>= λ t'. k c' t')
stage n clipval len a c out r k e same l fits next =
    let (t, sum, _) = matrix_sum-Bounded n out clipval (omega arith) in
    rw (e, sum) (next out t (same ∙ l))

last_stage :
    (n val crc : ℕ) (c a a' : List ℕ)
    → n * n ≤ length a
    → val < 2 ^ 16
    → IsMatdat a
    → (add : Updated (λ m old. u16 (old + val)) 0 (n * n) a (matrix_add_const n a val))
    → a' ≡ add.out
    → Ends (length c) a (matrix_add_const n a' (neg_u16 val) >>= λ a''. ok (tested crc c a''))
last_stage n val crc c a a' fits small matdat add e =
    let sub = matrix_add_const_lem n add.out (neg_u16 val) (omega (arith, add.same_length)) in
    rw (e, sub.returns)
      (tested crc c sub.out, refl, add_const_twice n a val small matdat add sub, refl)

stages :
    (n val : ℕ) (c a a' b : List ℕ)
    → n * n ≤ length c
    → n * n ≤ length a'
    → n * n ≤ length b
    → n ≤ n * n
    → ((crc : ℕ) (c' : List ℕ)
        → length c' ≡ length c
        → Ends (length c) a (matrix_add_const n a' (neg_u16 val) >>= λ a''. ok (tested crc c' a'')))
    → Ends (length c) a (
        matrix_mul_const n c a' val >>= λ c₁. matrix_sum n c₁ (matrix_big val) >>= λ t₁.
        matrix_mul_vect n c₁ a' b >>= λ c₂. matrix_sum n c₂ (matrix_big val) >>= λ t₂.
        matrix_mul_matrix n c₂ a' b >>= λ c₃. matrix_sum n c₃ (matrix_big val) >>= λ t₃.
        matrix_mul_matrix_bitextract n c₃ a' b >>= λ c₄. matrix_sum n c₄ (matrix_big val) >>= λ t₄.
        matrix_add_const n a' (neg_u16 val) >>= λ a''.
        ok (tested (crc16 t₄ (crc16 t₃ (crc16 t₂ (crc16 t₁ 0)))) c₄ a''))
stages n val c a a' b fc fa fb sq last =
    let u₁ = matrix_mul_const_lem n c a' val fc fa in
    stage n _ (length c) a c u₁.out _ _ u₁.returns u₁.same_length refl fc λ c₁ t₁ l₁.
      let u₂ = matrix_mul_vect_lem n c₁ a' b (omega arith) fa (omega arith) in
      stage n _ (length c) a c₁ u₂.out _ _ u₂.returns u₂.same_length l₁ fc λ c₂ t₂ l₂.
        let u₃ = matrix_mul_matrix_lem n c₂ a' b (omega arith) fa fb in
        stage n _ (length c) a c₂ u₃.out _ _ u₃.returns u₃.same_length l₂ fc λ c₃ t₃ l₃.
          let u₄ = matrix_mul_matrix_bitextract_lem n c₃ a' b (omega arith) fa fb in
          stage n _ (length c) a c₃ u₄.out _ _ u₄.returns u₄.same_length l₃ fc
            λ c₄ t₄ l₄. last (crc16 t₄ (crc16 t₃ (crc16 t₂ (crc16 t₁ 0)))) c₄ l₄

-- matrix_test returns, for blocks of N * N cells or more, and leaves A as it found it: the last
-- addition takes back the first, across the wrap of 16 bits.
pub matrix_test_restores :
    (n : ℕ) (c a b : List ℕ) (val : ℕ)
    → n * n ≤ length c
    → n * n ≤ length a
    → n * n ≤ length b
    → val < 2 ^ 16
    → IsMatdat a
    → (t : Tested) × (matrix_test n c a b val ≡ ok t) × (t.a ≡ a) × (length t.c ≡ length c)
unfolding matrix_test
matrix_test_restores n c a b val fc fa fb small matdat =
    let add = matrix_add_const_lem n a val fa in
    rw add.returns (
      stages n val c a add.out b fc (omega (arith, add.same_length)) fb (le_square n) λ crc c' l.
        subst
          (λ len.
            Ends len a (matrix_add_const n add.out (neg_u16 val) >>= λ a''. ok (tested crc c' a'')))
          l (last_stage n val crc c' a add.out fa small matdat add refl))
