-- ===== src/Dhrystone/Arrays.antt =====
-- Proc_8 of dhrystone/src/dhry_2.c: what it writes into the two arrays.
pub mod After
use gandiva.Base.{
  ℕ, ◌+◌, ◌-◌, ◌^◌, ◌≤◌, ◌<◌, ◌≡◌, refl, sym, ◌∙◌, arith, lt_s32, Bool-cases, inl, inr, ◌==◌,
  ==_iff, ◌&&◌, ◌||◌, if◌then◌else◌, true, false, u32, List, [], length, get_or, set,
  get_or-set_self, get_or-set_ne, length-set, get_elem?-eq-get_or, load-ok, store-ok, ok,
}
use gandiva.Dhrystone.{Globals, load_cell, store_cell}
use gandiva.Dhrystone.Procs.{row_loop, proc_8}

-- `size` rows of `size` numbers.
abbrev pub IsSquare : ℕ → List (List ℕ) → Type 0
IsSquare size m = (length m ≡ size) × ((i : ℕ) → i < size → length (get_or m i []) ≡ size)

abbrev pub cell : List (List ℕ) → ℕ → ℕ → ℕ
cell m i j = get_or (get_or m i []) j 0

abbrev pub write_cell : List (List ℕ) → ℕ → ℕ → ℕ → List (List ℕ)
write_cell m i j v = set m i (set (get_or m i []) j v)

pub get_or-set :
    (xs : List ℕ) (i a v : ℕ)
    → i < length xs
    → get_or (set xs i v) a 0 ≡ (if a == i then v else get_or xs a 0)
get_or-set xs i a v h = elim (Bool-cases (a == i)) [
  | inl same ↦
      let e : i ≡ a = sym ((==_iff a i).0 same) in rw same (rw (sym e) (get_or-set_self xs i v 0 h))
  | inr differs ↦ rw differs (get_or-set_ne xs i a v 0 (λ e. ground (arith, differs)))
]

module _ (size : ℕ) (m : List (List ℕ)) (square : IsSquare size m) (i j : ℕ) (hi : i < size)
    (hj : j < size) where
  pub load_cell-ok : load_cell m i j ≡ ok (cell m i j)
  unfolding load_cell
  load_cell-ok =
      rw (get_elem?-eq-get_or m i [] (omega (arith, square.0)))
        (load-ok (get_or m i []) j (omega (arith, square.1 i hi)))

  pub store_cell-ok : (v : ℕ) → store_cell m i j v ≡ ok (write_cell m i j v)
  unfolding store_cell
  store_cell-ok v =
      rw
        (
          get_elem?-eq-get_or m i [] (omega (arith, square.0)),
          store-ok (get_or m i []) j v (omega (arith, square.1 i hi)),
        )
        refl

  pub write_cell-IsSquare : (v : ℕ) → IsSquare size (write_cell m i j v)
  write_cell-IsSquare v =
      let row = set (get_or m i []) j v in
      (
        length-set m i row ∙ square.0,
        λ a ha. elim (Bool-cases (i == a)) [
          | inl same ↦
              let e : i ≡ a = (==_iff i a).0 same in
              rw (sym e, get_or-set_self m i row [] (omega (arith, square.0)))
                (length-set (get_or m i []) j v ∙ square.1 i hi)
          | inr differs ↦
              rw (get_or-set_ne m i a row [] (λ e. ground (arith, differs))) (square.1 a ha)
        ],
      )

  pub cell-write_cell :
      (v a b : ℕ) → cell (write_cell m i j v) a b ≡ (if (a == i) && (b == j) then v else cell m a b)
  cell-write_cell v a b =
      let row = set (get_or m i []) j v in
      elim (Bool-cases (a == i)) [
        | inl same ↦
            let e : i ≡ a = sym ((==_iff a i).0 same) in
            let at : get_or (set m i row) a [] ≡ row =
              rw (sym e) (get_or-set_self m i row [] (omega (arith, square.0))) in
            rw (at, same, sym e) (get_or-set (get_or m i []) j b v (omega (arith, square.1 i hi)))
        | inr differs ↦ rw (get_or-set_ne m i a row [] (λ e. ground (arith, differs)), differs) refl
      ]
