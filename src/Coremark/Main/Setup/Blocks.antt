-- ===== src/Coremark/Main/Setup/Blocks.antt =====
-- The cut of the memory block for the algorithms.
use gandiva.Base.{
  ℕ, zero, suc, ◌+◌, ◌*◌, ◌/◌, ◌%◌, ◌^◌, ◌≤◌, ◌<◌, ◌≡◌, ◌≢◌, ◌⊎◌, ◌↔◌, refl, arith, inl, inr, ◌==◌,
  if◌then◌else◌, true, Bool-cases, ltb, ne→==, ok, fault,
}
use gandiva.Coremark.Main.Setup.{
  total_data_size, executes, one_if, num_algorithms, block_size, Memblocks, assign_blocks,
}

-- A part of `size` bytes at `at` within the `total` bytes from `base` on.
abbrev pub Within : ℕ → ℕ → ℕ → ℕ → Type 0
Within base total at size = (base ≤ at) × (at + size ≤ base + total)

abbrev pub Apart : ℕ → ℕ → ℕ → Type 0
Apart a b size = (a + size ≤ b) ⊎ (b + size ≤ a)

-- The part of the algorithm `i`.
abbrev pub block_at : Memblocks → ℕ → ℕ
block_at m i = if i == 0 then m.list else (if i == 1 then m.matrix else m.state)

-- The place of an algorithm among those that are executed.
rank : ℕ → ℕ → ℕ
rank execs i =
    if i == 0
    then 0
    else (if i == 1
        then one_if (executes execs 0)
        else one_if (executes execs 0) + one_if (executes execs 1))

rank_lt : (execs i : ℕ) → i < 3 → executes execs i ≡ true → rank execs i + 1 ≤ num_algorithms execs
unfolding rank num_algorithms
rank_lt execs zero h e = ground (arith, e)
rank_lt execs (suc zero) h e = ground (arith, e)
rank_lt execs (suc (suc zero)) h e = ground (arith, e)
rank_lt execs (suc (suc (suc i))) h e = absurd (omega arith)

share : (n r size : ℕ) → r + 1 ≤ n → size ≡ 2000 / n → size * r + size ≤ 2000
share n r size h e = grind arith

block_at-rank :
    (execs memblock size i : ℕ)
    → i < 3
    → memblock + total_data_size < 2 ^ 32
    → size * rank execs i + size ≤ 2000
    → block_at (assign_blocks execs memblock size) i ≡ memblock + size * rank execs i
unfolding assign_blocks rank
block_at-rank execs memblock size zero h fits below = omega arith
block_at-rank execs memblock size (suc zero) h fits below = omega arith
block_at-rank execs memblock size (suc (suc zero)) h fits below = omega arith
block_at-rank execs memblock size (suc (suc (suc i))) h fits below = absurd (omega arith)

rank_mono :
    (execs i j : ℕ) → i < j → j < 3 → executes execs i ≡ true → rank execs i + 1 ≤ rank execs j
unfolding rank
rank_mono execs i zero below h e = absurd (omega arith)
rank_mono execs zero (suc zero) below h e = ground (arith, e)
rank_mono execs (suc i) (suc zero) below h e = absurd (omega arith)
rank_mono execs zero (suc (suc zero)) below h e = ground (arith, e)
rank_mono execs (suc zero) (suc (suc zero)) below h e = ground (arith, e)
rank_mono execs (suc (suc i)) (suc (suc zero)) below h e = absurd (omega arith)
rank_mono execs i (suc (suc (suc j))) below h e = absurd (omega arith)

times_mono : (size r t : ℕ) → r + 1 ≤ t → size * r + size ≤ size * t
times_mono size r t h = grind arith

block_size-ok :
    (execs : ℕ)
    → 0 < num_algorithms execs
    → block_size execs ≡ ok (total_data_size / num_algorithms execs)
unfolding block_size
block_size-ok execs some = rw (ne→== (num_algorithms execs) 0 (λ e. omega arith)) refl

-- For two algorithms that the mask executes, and a block of 2000 bytes whose end is below 2^32: the
-- size of a part is 2000 bytes over the number of algorithms, and the parts of the two lie within
-- the block and apart from one another.
pub assign_blocks_disjoint :
    (execs memblock i j : ℕ)
    → i < 3
    → j < 3
    → i ≢ j
    → executes execs i ≡ true
    → executes execs j ≡ true
    → memblock + total_data_size < 2 ^ 32
    → (size : ℕ) × (block_size execs ≡ ok size)
      × Within memblock total_data_size (block_at (assign_blocks execs memblock size) i) size
      × Within memblock total_data_size (block_at (assign_blocks execs memblock size) j) size
      × Apart
          (block_at (assign_blocks execs memblock size) i)
          (block_at (assign_blocks execs memblock size) j)
          size
assign_blocks_disjoint execs memblock i j hi hj ne ei ej fits =
    let n = num_algorithms execs in
    let size = total_data_size / n in
    let lt_i = rank_lt execs i hi ei in
    let lt_j = rank_lt execs j hj ej in
    let below_i = share n (rank execs i) size lt_i refl in
    let below_j = share n (rank execs j) size lt_j refl in
    let at_i = block_at-rank execs memblock size i hi fits below_i in
    let at_j = block_at-rank execs memblock size j hj fits below_j in
    (
      size,
      block_size-ok execs (omega arith),
      rw at_i (omega arith, omega arith),
      rw at_j (omega arith, omega arith),
      rw (at_i, at_j)
          (elim (Bool-cases (ltb i j)) [
            | inl first ↦
                let up =
                  times_mono size (rank execs i) (rank execs j)
                    (rank_mono execs i j (ground arith) hj ei) in
                inl (omega arith)
            | inr second ↦
                let up =
                  times_mono size (rank execs j) (rank execs i)
                    (rank_mono execs j i (ground arith) hi ej) in
                inr (omega arith)
          ]),
    )

-- The division by the number of algorithms fails exactly for a mask with none of the three.
pub block_size_fault : (execs : ℕ) → (block_size execs ≡ fault) ↔ (execs % 8 ≡ 0)
unfolding block_size num_algorithms
block_size_fault execs = (λ e. ground (arith, e), λ e. ground (arith, e))
