-- ===== src/Coremark/Matrix/Fields.antt =====
-- The two bit fields that matrix_mul_matrix_bitextract takes from a product of two cells.
use native.Mathlib.Nat.{mul-le-mul}
use gandiva.Base.{ℕ, ◌*◌, ◌/◌, ◌%◌, ◌^◌, ◌≤◌, ◌≡◌, arith, inl, inr, Bool-cases, neg16}
use gandiva.Coremark.Matrix.{product, extract}

-- The four bits from bit 2 on, times the seven bits from bit 5 on, of the product of two numbers.
abbrev pub field_product : ℕ → ℕ → ℕ
field_product a b = (a * b / 2 ^ 2 % 2 ^ 4) * (a * b / 2 ^ 5 % 2 ^ 7)

-- The sign bits do not reach the low 12 bits of a product.
product-low : (a b : ℕ) → product a b % 2 ^ 12 ≡ a * b % 2 ^ 12
product-low a b = elim (Bool-cases (neg16 a)) [
  | inl na ↦ elim (Bool-cases (neg16 b)) [
    | inl nb ↦ rw (na, nb) (omega arith)
    | inr pb ↦ rw (na, pb) (omega arith)
  ]
  | inr pa ↦ elim (Bool-cases (neg16 b)) [
    | inl nb ↦ rw (pa, nb) (omega arith)
    | inr pb ↦ rw (pa, pb) (omega arith)
  ]
]

pub extract_lem : (a b : ℕ) → extract a b ≡ field_product a b
extract_lem a b =
    let low = product-low a b in
    let first : product a b / 2 ^ 2 % 2 ^ 4 ≡ a * b / 2 ^ 2 % 2 ^ 4 = omega (arith, low) in
    let second : product a b / 2 ^ 5 % 2 ^ 7 ≡ a * b / 2 ^ 5 % 2 ^ 7 = omega (arith, low) in
    let p = a * b / 2 ^ 2 % 2 ^ 4 in
    let q = a * b / 2 ^ 5 % 2 ^ 7 in
    let le_p : p ≤ 15 = omega arith in
    let le_q : q ≤ 127 = omega arith in
    let small : p * q ≤ 15 * 127 = mul-le-mul le_p le_q in rw (first, second) (omega (arith, small))
