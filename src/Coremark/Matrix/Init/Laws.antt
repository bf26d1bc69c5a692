-- ===== src/Coremark/Matrix/Init/Laws.antt =====
-- core_init_matrix as a whole: the dimension, the places and the contents of the matrices.
use gandiva.Base.{
  ℕ, ◌+◌, ◌-◌, ◌*◌, ◌%◌, ◌^◌, ◌≤◌, ◌<◌, ◌≡◌, refl, arith, inl, List, length, get_or, ◌==◌,
  if◌then◌else◌, u32, ok,
}
use gandiva.Coremark.Matrix.Cells.{le_square}
use gandiva.Coremark.Matrix.Init.{
  size_loop, align_mem, Filling, filling, fill_cells, MatParams, Prepared, core_init_matrix,
}
use gandiva.Coremark.Matrix.Init.Size.{size_loop-IsFirst}
use gandiva.Coremark.Matrix.Init.Fill.{fill_cells-IsFilled}

align_aligned : (x : ℕ) → 0 < x → x < 2 ^ 32 → x % 4 ≡ 0 → align_mem x ≡ x
align_aligned x pos small aligned = omega arith

-- The matrices lie one behind another in the block, with room for the 32-bit cells of C.
pub record IsLaidOut (blksize memblk : ℕ) (p : MatParams) : Type 0 where
  fits : 8 * (p.n * p.n) < blksize
  largest : blksize ≤ 8 * ((p.n + 1) * (p.n + 1))
  a_first : p.a ≡ memblk
  b_next : p.b ≡ p.a + 2 * (p.n * p.n)
  c_last : p.c ≡ p.b + 2 * (p.n * p.n)
  c_fits : p.c + 4 * (p.n * p.n) ≤ memblk + blksize

-- The run from its steps.
run_steps :
    (blksize memblk seed i n b_at c_at : ℕ) (a b : List ℕ) (s : Filling)
    → size_loop (blksize + 1) blksize 0 0 ≡ ok i
    → u32 (i + 2 ^ 32 - 1) ≡ n
    → align_mem memblk ≡ memblk
    → u32 (memblk + 2 * (n * n)) ≡ b_at
    → align_mem (u32 (b_at + 2 * (n * n))) ≡ c_at
    → fill_cells n (filling (if seed == 0 then 1 else seed) 1 a b) ≡ ok s
    → core_init_matrix blksize memblk seed a b
      ≡ ok (record { params = record { n = n; a = memblk; b = b_at; c = c_at }; a = s.a; b = s.b })
unfolding core_init_matrix
run_steps blksize memblk seed i n b_at c_at a b s e n_is a_is b_is c_is f =
    rw (e, n_is, a_is, b_is, c_is, f)

-- core_init_matrix returns on a block of 1 to 2^29 - 1 bytes at a 4-byte aligned address, not 0,
-- whose end is below 2^32, when the places of A and B have room for blksize / 8 cells. Its N is the
-- largest one with 8 * N * N bytes below the size of the block, A, B and C follow one another in
-- the block, and the first N * N cells of A and B are filled with 8-bit and 16-bit values.
pub core_init_matrix_lem :
    (blksize memblk seed : ℕ) (a b : List ℕ)
    → 0 < blksize
    → blksize < 2 ^ 29
    → 0 < memblk
    → memblk % 4 ≡ 0
    → memblk + blksize < 2 ^ 32
    → blksize ≤ 8 * length a
    → blksize ≤ 8 * length b
    → (p : Prepared) × (core_init_matrix blksize memblk seed a b ≡ ok p)
      × IsLaidOut blksize memblk p.params
      × ((k : ℕ) → k < p.params.n * p.params.n → get_or p.a k 0 < 2 ^ 8)
      × ((k : ℕ) → k < p.params.n * p.params.n → get_or p.b k 0 < 2 ^ 16)
core_init_matrix_lem blksize memblk seed a b pos small nonnull aligned end room_a room_b =
    let (i, e, (up, below, first)) =
      size_loop-IsFirst (blksize + 1) blksize 0 (omega arith) small pos (inl refl) in
    let n = i - 1 in
    let n_small = le_square n in
    let n_is : u32 (i + 2 ^ 32 - 1) ≡ n = omega arith in
    let next : n + 1 ≡ i = omega arith in
    let a_is : align_mem memblk ≡ memblk = align_aligned memblk nonnull (omega arith) aligned in
    let b_is : u32 (memblk + 2 * (n * n)) ≡ memblk + 2 * (n * n) = omega arith in
    let c_raw : u32 (memblk + 2 * (n * n) + 2 * (n * n)) ≡ memblk + 4 * (n * n) = omega arith in
    let c_is : align_mem (memblk + 4 * (n * n)) ≡ memblk + 4 * (n * n) =
      align_aligned (memblk + 4 * (n * n)) (omega arith) (omega arith) (omega arith) in
    let start = filling (if seed == 0 then 1 else seed) 1 a b in
    let (s, f, filled) =
      fill_cells-IsFilled (length a) (length b) n start (omega arith) (omega arith) (record {
        len_a = refl;
        len_b = refl;
        cells_a = λ k p. absurd (omega arith);
        cells_b = λ k p. absurd (omega arith);
      }) in
    (
      record {
        params = record { n = n; a = memblk; b = memblk + 2 * (n * n); c = memblk + 4 * (n * n) };
        a = s.a;
        b = s.b;
      },
      run_steps blksize memblk seed i n (memblk + 2 * (n * n)) (memblk + 4 * (n * n)) a b s e n_is
          a_is b_is (rw c_raw c_is) f,
      record {
        fits = below;
        largest = rw next first;
        a_first = refl;
        b_next = refl;
        c_last = omega arith;
        c_fits = omega arith;
      },
      filled.cells_a,
      filled.cells_b,
    )
