-- ===== src/Coremark/Matrix.antt =====
-- coremark/src/core_matrix.c: the matrix operations, on blocks of 16-bit (MATDAT) and 32-bit
-- (MATRES) patterns. Products and sums wrap; where the C code's `int` would overflow, so do these.
pub mod Fields
pub mod Cells
pub mod Product
pub mod Restore
pub mod Sum
pub mod Init
use gandiva.Base.{
  ℕ, zero, suc, ◌+◌, ◌-◌, ◌*◌, ◌/◌, ◌%◌, ◌^◌, bit_or, Bool, true, false, List, ltb, leb,
}
use gandiva.Base.{
  ◌==◌, if◌then◌else◌, u16, u32, shr, low_bits, neg16, neg32, sext16, lt_s32, neg_u16,
}
use gandiva.Base.{Run, ok, fault, out_of_fuel, ◌>>=◌, load, store}
use gandiva.Base.Loop.{for_loop}
use gandiva.Coremark.Crc.{crc16}

-- (MATRES)a * (MATRES)b
abbrev pub product : ℕ → ℕ → ℕ
product a b = u32 (sext16 a * sext16 b)

-- ((x) >> (from)) & (~(0xffffffff << (to))), for from + to ≤ 32
abbrev pub bit_extract : ℕ → ℕ → ℕ → ℕ
bit_extract x from to = low_bits (shr x from) to

abbrev pub extract : ℕ → ℕ → ℕ
extract a b = u32 (bit_extract (product a b) 2 4 * bit_extract (product a b) 5 7)

-- (0xf000 | (x)), and (y) ? (x)&0x0ff : (x)&0x0ffff
abbrev pub matrix_big : ℕ → ℕ
matrix_big x = bit_or 0xf000 x

abbrev pub matrix_clip : ℕ → ℕ → ℕ
matrix_clip x y = if y == 0 then low_bits x 16 else low_bits x 8

-- for (i = 0; i < N; i++) for (j = 0; j < N; j++) body
unfoldable pub cells : ℕ → (ℕ → ℕ → List ℕ → Run (List ℕ)) → List ℕ → Run (List ℕ)
cells n body c = for_loop n 0 (λ i. for_loop n 0 (body i)) c

-- C[at] = 0; for (k = 0; k < N; k++) C[at] += term(A[row k], B[col k]);
unfoldable pub add_term :
    (ℕ → ℕ → ℕ) → List ℕ → List ℕ → (ℕ → ℕ) → (ℕ → ℕ) → ℕ → ℕ → List ℕ → Run (List ℕ)
add_term term a b row col at k c = load a (row k) >>= λ x.
    load b (col k) >>= λ y. load c at >>= λ s. store c at (u32 (s + term x y))

unfoldable pub accumulate :
    ℕ → (ℕ → ℕ → ℕ) → List ℕ → List ℕ → (ℕ → ℕ) → (ℕ → ℕ) → ℕ → List ℕ → Run (List ℕ)
accumulate n term a b row col at c =
    store c at 0 >>= λ c'. for_loop n 0 (add_term term a b row col at) c'

unfoldable pub matrix_add_const : ℕ → List ℕ → ℕ → Run (List ℕ)
matrix_add_const n a val =
    cells n (λ i j a'. load a' (i * n + j) >>= λ x. store a' (i * n + j) (u16 (x + val))) a

unfoldable pub matrix_mul_const : ℕ → List ℕ → List ℕ → ℕ → Run (List ℕ)
matrix_mul_const n c a val =
    cells n (λ i j c'. load a (i * n + j) >>= λ x. store c' (i * n + j) (product x val)) c

unfoldable pub matrix_mul_vect : ℕ → List ℕ → List ℕ → List ℕ → Run (List ℕ)
matrix_mul_vect n c a b = for_loop n 0 (λ i. accumulate n product a b (λ j. i * n + j) (λ j. j) i) c

unfoldable pub matrix_mul_matrix : ℕ → List ℕ → List ℕ → List ℕ → Run (List ℕ)
matrix_mul_matrix n c a b =
    cells n (λ i j. accumulate n product a b (λ k. i * n + k) (λ k. k * n + j) (i * n + j)) c

unfoldable pub matrix_mul_matrix_bitextract : ℕ → List ℕ → List ℕ → List ℕ → Run (List ℕ)
matrix_mul_matrix_bitextract n c a b =
    cells n (λ i j. accumulate n extract a b (λ k. i * n + k) (λ k. k * n + j) (i * n + j)) c

-- The locals of matrix_sum.
pub record Summing : Type 0 where
  pub tmp : ℕ
  pub prev : ℕ
  pub ret : ℕ

abbrev pub summing : ℕ → ℕ → ℕ → Summing
summing t p r = record { tmp = t; prev = p; ret = r }

unfoldable pub sum_step : ℕ → ℕ → Summing → Summing
sum_step clipval cur s =
    let tmp = u32 (s.tmp + cur) in
    if lt_s32 (sext16 clipval) tmp
    then summing 0 cur (u16 (s.ret + 10))
    else summing tmp cur (u16 (s.ret + (if lt_s32 s.prev cur then 1 else 0)))

unfoldable pub matrix_sum : ℕ → List ℕ → ℕ → Run ℕ
matrix_sum n c clipval =
    for_loop n 0
      (λ i. for_loop n 0 (λ j s. load c (i * n + j) >>= λ cur. ok (sum_step clipval cur s)))
      (summing 0 0 0)
    >>= λ s. ok s.ret

pub record Tested : Type 0 where
  pub crc : ℕ
  pub c : List ℕ
  pub a : List ℕ

abbrev pub tested : ℕ → List ℕ → List ℕ → Tested
tested r c a = record { crc = r; c = c; a = a }

unfoldable pub matrix_test : ℕ → List ℕ → List ℕ → List ℕ → ℕ → Run Tested
matrix_test n c a b val =
    let clipval = matrix_big val in
    matrix_add_const n a val >>= λ a'. matrix_mul_const n c a' val >>= λ c₁.
    matrix_sum n c₁ clipval >>= λ t₁. matrix_mul_vect n c₁ a' b >>= λ c₂.
    matrix_sum n c₂ clipval >>= λ t₂. matrix_mul_matrix n c₂ a' b >>= λ c₃.
    matrix_sum n c₃ clipval >>= λ t₃. matrix_mul_matrix_bitextract n c₃ a' b >>= λ c₄.
    matrix_sum n c₄ clipval >>= λ t₄. matrix_add_const n a' (neg_u16 val) >>= λ a''.
    ok (tested (crc16 t₄ (crc16 t₃ (crc16 t₂ (crc16 t₁ 0)))) c₄ a'')

-- The matrices stand for the pointers of `mat_params`; the seed is an `ee_s16`, as MATDAT is.
unfoldable pub core_bench_matrix : ℕ → List ℕ → List ℕ → List ℕ → ℕ → ℕ → Run Tested
core_bench_matrix n c a b seed crc =
    matrix_test n c a b seed >>= λ t. ok (record t { crc = crc16 t.crc crc })
