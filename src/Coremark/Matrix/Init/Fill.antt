-- ===== src/Coremark/Matrix/Init/Fill.antt =====
-- The contents that core_init_matrix gives A and B.
use gandiva.Base.{
  ℕ, ◌+◌, ◌*◌, ◌^◌, ◌≤◌, ◌<◌, ◌≡◌, ◌≢◌, sym, ◌∙◌, arith, inl, inr, List, length, get_or, set,
  length-set, get_or-set_self, get_or-set_ne, Bool-cases, ◌==◌, u16, u32, ok, store-ok,
}
use mathlib.Core.Path.{subst}
use gandiva.Base.Loop.{for_loop, for_loop_inv}
use gandiva.Coremark.Matrix.{matrix_clip}
use gandiva.Coremark.Matrix.Cells.{index_in_range}
use gandiva.Coremark.Matrix.Init.{rem_65536, Filling, filling, fill_cell, fill_cells}

-- A bound of the cells below `at`, and of the new one.
new_or_old :
    (P : ℕ → Type 0) (at k : ℕ) (new old : List ℕ)
    → k < at + 1
    → P (get_or new at 0)
    → (k ≢ at → get_or new k 0 ≡ get_or old k 0)
    → (k < at → P (get_or old k 0))
    → P (get_or new k 0)
new_or_old P at k new old p here other before = elim (Bool-cases (k == at)) [
  | inl same ↦ let e : k ≡ at = ground arith in rw e here
  | inr differs ↦ rw (other (λ e. ground arith)) (before (ground arith))
]

fill_cell-ok :
    (at : ℕ) (s : Filling)
    → at < length s.a
    → at < length s.b
    → (s' : Filling) × (fill_cell at s ≡ ok s')
      × (length s'.a ≡ length s.a)
      × (length s'.b ≡ length s.b)
      × (get_or s'.a at 0 < 2 ^ 8)
      × (get_or s'.b at 0 < 2 ^ 16)
      × ((m : ℕ) → m ≢ at → (get_or s'.a m 0 ≡ get_or s.a m 0) × (get_or s'.b m 0 ≡ get_or s.b m 0))
unfolding fill_cell
fill_cell-ok at s in_a in_b =
    let seed = rem_65536 (u32 (s.order * s.seed)) in
    let val₁ = matrix_clip (u16 (seed + s.order)) 0 in
    let val₂ = matrix_clip (u16 (val₁ + s.order)) 1 in
    (
      filling seed (u32 (s.order + 1)) (set s.a at val₂) (set s.b at val₁),
      rw (store-ok s.b at val₁ in_b, store-ok s.a at val₂ in_a),
      length-set s.a at val₂,
      length-set s.b at val₁,
      rw (get_or-set_self s.a at val₂ 0 in_a) (omega arith),
      rw (get_or-set_self s.b at val₁ 0 in_b) (omega arith),
      λ m ne. (
        get_or-set_ne s.a at m val₂ 0 (λ e. ne (sym e)),
        get_or-set_ne s.b at m val₁ 0 (λ e. ne (sym e)),
      ),
    )

-- The first `m` cells are filled: A with 8-bit and B with 16-bit values.
pub record IsFilled (la lb m : ℕ) (s : Filling) : Type 0 where
  pub len_a : length s.a ≡ la
  pub len_b : length s.b ≡ lb
  pub cells_a : (k : ℕ) → k < m → get_or s.a k 0 < 2 ^ 8
  pub cells_b : (k : ℕ) → k < m → get_or s.b k 0 < 2 ^ 16

fill_cell-IsFilled :
    (la lb at : ℕ) (s : Filling)
    → at < la
    → at < lb
    → IsFilled la lb at s
    → (s' : Filling) × (fill_cell at s ≡ ok s') × IsFilled la lb (at + 1) s'
fill_cell-IsFilled la lb at s in_a in_b h =
    let (s', e, ea, eb, va, vb, other) =
      fill_cell-ok at s (omega (arith, h.len_a)) (omega (arith, h.len_b)) in
    (
      s',
      e,
      record {
        len_a = ea ∙ h.len_a;
        len_b = eb ∙ h.len_b;
        cells_a = λ k p.
            new_or_old (λ v. v < 2 ^ 8) at k s'.a s.a p va (λ q. (other k q).0) (h.cells_a k);
        cells_b = λ k p.
            new_or_old (λ v. v < 2 ^ 16) at k s'.b s.b p vb (λ q. (other k q).1) (h.cells_b k);
      },
    )

pub fill_cells-IsFilled :
    (la lb n : ℕ) (s : Filling)
    → n * n ≤ la
    → n * n ≤ lb
    → IsFilled la lb 0 s
    → (s' : Filling) × (fill_cells n s ≡ ok s') × IsFilled la lb (n * n) s'
unfolding fill_cells
fill_cells-IsFilled la lb n s in_a in_b h =
    let at_none : 0 ≡ 0 * n = omega arith in
    for_loop_inv (λ i. IsFilled la lb (i * n)) _ n 0 n s (omega arith) row
      (subst (λ m. IsFilled la lb m s) at_none h)
  where
    row :
        (i : ℕ) (t : Filling)
        → i < n
        → IsFilled la lb (i * n) t
        → (t' : Filling) × (for_loop n 0 (λ j. fill_cell (i * n + j)) t ≡ ok t')
          × IsFilled la lb ((i + 1) * n) t'
    row i t p g =
        let at_start : i * n ≡ i * n + 0 = omega arith in
        let (t', e, g') =
          for_loop_inv (λ j. IsFilled la lb (i * n + j)) (λ j. fill_cell (i * n + j)) n 0 n t
            (omega arith)
            (λ j u q f.
              let below = index_in_range i j n p q in
              let (u', d, f') =
                fill_cell-IsFilled la lb (i * n + j) u (omega arith) (omega arith) f in
              let next : i * n + j + 1 ≡ i * n + (j + 1) = omega arith in
              (u', d, subst (λ m. IsFilled la lb m u') next f'))
            (subst (λ m. IsFilled la lb m t) at_start g) in
        let up : i * n + n ≡ (i + 1) * n = grind arith in
        (t', e, subst (λ m. IsFilled la lb m t') up g')
