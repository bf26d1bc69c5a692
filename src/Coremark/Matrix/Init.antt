-- ===== src/Coremark/Matrix/Init.antt =====
-- core_init_matrix of coremark/src/core_matrix.c: the dimension, the places and the contents of the
-- matrices.
pub mod Size
pub mod Fill
pub mod Laws
use gandiva.Base.{
  ℕ, zero, suc, ◌+◌, ◌-◌, ◌*◌, ◌/◌, ◌%◌, ◌^◌, Bool, true, false, List, ltb, leb, ◌==◌,
}
use gandiva.Base.{
  if◌then◌else◌, u16, u32, neg32, neg_u32, Run, ok, fault, out_of_fuel, ◌>>=◌, load, store,
}
use gandiva.Base.Loop.{for_loop}
use gandiva.Coremark.Matrix.{matrix_clip}

-- while (j < blksize) { i++; j = i * i * 2 * 4; }
unfoldable pub size_loop : ℕ → ℕ → ℕ → ℕ → Run ℕ
size_loop zero blksize i j = out_of_fuel
size_loop (suc fuel) blksize i j =
    let more = size_loop fuel blksize (i + 1) (u32 ((i + 1) * (i + 1) * 2 * 4)) in
    if ltb j blksize then more else ok i

-- (void *)(4 + (((ee_ptr_int)(x)-1) & ~3)), of core_portme.h
abbrev pub align_mem : ℕ → ℕ
align_mem x = let y = u32 (x + 2 ^ 32 - 1) in u32 (4 + (y - y % 4))

-- `x % 65536` on `ee_s32`, which takes the sign of `x`.
abbrev pub rem_65536 : ℕ → ℕ
rem_65536 x = if neg32 x then neg_u32 (neg_u32 x % 65536) else x % 65536

pub record Filling : Type 0 where
  pub seed : ℕ
  pub order : ℕ
  pub a : List ℕ
  pub b : List ℕ

abbrev pub filling : ℕ → ℕ → List ℕ → List ℕ → Filling
filling s o a b = record { seed = s; order = o; a = a; b = b }

-- The body of the nested loops at the cell `at`, which is i * N + j.
unfoldable pub fill_cell : ℕ → Filling → Run Filling
fill_cell at s =
    let seed = rem_65536 (u32 (s.order * s.seed)) in
    let val₁ = matrix_clip (u16 (seed + s.order)) 0 in
    let val₂ = matrix_clip (u16 (val₁ + s.order)) 1 in
    store s.b at val₁ >>= λ b. store s.a at val₂ >>= λ a. ok (filling seed (u32 (s.order + 1)) a b)

unfoldable pub fill_cells : ℕ → Filling → Run Filling
fill_cells n s = for_loop n 0 (λ i. for_loop n 0 (λ j. fill_cell (i * n + j))) s

-- `mat_params`: the dimension and the addresses of the matrices.
pub record MatParams : Type 0 where
  pub n : ℕ
  pub a : ℕ
  pub b : ℕ
  pub c : ℕ

pub record Prepared : Type 0 where
  pub params : MatParams
  pub a : List ℕ
  pub b : List ℕ

-- `a` and `b` are what stands at the places of the matrices A and B.
unfoldable pub core_init_matrix : ℕ → ℕ → ℕ → List ℕ → List ℕ → Run Prepared
core_init_matrix blksize memblk seed a b = size_loop (blksize + 1) blksize 0 0 >>= λ i.
    let n = u32 (i + 2 ^ 32 - 1) in
    let at_a = align_mem memblk in
    let at_b = u32 (at_a + 2 * (n * n)) in
    fill_cells n (filling (if seed == 0 then 1 else seed) 1 a b) >>= λ s. ok (record {
      params = record { n = n; a = at_a; b = at_b; c = align_mem (u32 (at_b + 2 * (n * n))) };
      a = s.a;
      b = s.b;
    })
