-- ===== src/Dhrystone/Arrays/After.antt =====
-- Proc_8 of dhrystone/src/dhry_2.c: what it leaves in the two arrays.
use gandiva.Base.{
  ℕ, ◌+◌, ◌-◌, ◌^◌, ◌≤◌, ◌<◌, ◌≡◌, refl, ◌∙◌, arith, lt_s32, ◌==◌, ◌&&◌, ◌||◌, if◌then◌else◌, true,
  false, u32, List, length, get_or, set, get_or-set_self, get_or-set_ne, length-set, load-ok,
  store-ok, ok,
}
use gandiva.Dhrystone.{Globals}
use gandiva.Dhrystone.Procs.{row_loop, proc_8}
use gandiva.Dhrystone.Arrays.{
  IsSquare, cell, write_cell, get_or-set, load_cell-ok, store_cell-ok, write_cell-IsSquare,
  cell-write_cell,
}

-- What Proc_8 leaves in the arrays, for the index `i` = Int_Loc.
abbrev pub arr_1_after : ℕ → ℕ → List ℕ → List ℕ
arr_1_after i v a = set (set (set a i v) (i + 1) v) (i + 30) i

abbrev pub arr_2_after : ℕ → ℕ → List (List ℕ) → List (List ℕ)
arr_2_after i v m =
    let rows = write_cell (write_cell m i i i) i (i + 1) i in
    write_cell (write_cell rows i (i - 1) (u32 (cell rows i (i - 1) + 1))) (i + 20) i v

row_loop-ok :
    (m : List (List ℕ)) (i : ℕ)
    → IsSquare 50 m
    → i + 30 < 50
    → row_loop 3 i i m ≡ ok (write_cell (write_cell m i i i) i (i + 1) i)
unfolding row_loop
row_loop-ok m i square h =
    let m' = write_cell m i i i in
    let square' = write_cell-IsSquare 50 m square i i (omega arith) (omega arith) i in
    let up : u32 (i + 1) ≡ i + 1 = omega arith in
    let up' : u32 (i + 1 + 1) ≡ i + 1 + 1 = omega arith in
    let first : lt_s32 (i + 1) i ≡ false = ground arith in
    let second : lt_s32 (i + 1) (i + 1) ≡ false = ground arith in
    let third : lt_s32 (i + 1) (i + 1 + 1) ≡ true = ground arith in
    rw
      (
        up,
        first,
        store_cell-ok 50 m square i i (omega arith) (omega arith) i,
        second,
        store_cell-ok 50 m' square' i (i + 1) (omega arith) (omega arith) i,
        up',
        third,
      )
      refl

pub proc_8-ok :
    (n v : ℕ) (g : Globals)
    → n ≤ 14
    → length g.arr_1_glob ≡ 50
    → IsSquare 50 g.arr_2_glob
    → proc_8 n v g
      ≡ ok (record g {
        arr_1_glob = arr_1_after (n + 5) v g.arr_1_glob;
        arr_2_glob = arr_2_after (n + 5) v g.arr_2_glob;
        int_glob = 5;
      })
unfolding proc_8
proc_8-ok n v g small long square =
    let i = n + 5 in
    let a = g.arr_1_glob in
    let m = g.arr_2_glob in
    let e₁ : u32 (n + 5) ≡ n + 5 = omega arith in
    let e₂ : u32 (n + 5 + 1) ≡ n + 5 + 1 = omega arith in
    let e₃ : u32 (n + 5 + 30) ≡ n + 5 + 30 = omega arith in
    let e₄ : u32 (n + 5 + 2 ^ 32 - 1) ≡ n + 5 - 1 = omega arith in
    let e₅ : u32 (n + 5 + 20) ≡ n + 5 + 20 = omega arith in
    let l₁ : length (set a i v) ≡ 50 = length-set a i v ∙ long in
    let l₂ : length (set (set a i v) (i + 1) v) ≡ 50 = length-set (set a i v) (i + 1) v ∙ l₁ in
    let l₃ : length (arr_1_after i v a) ≡ 50 =
      length-set (set (set a i v) (i + 1) v) (i + 30) i ∙ l₂ in
    let there : get_or (set a i v) i 0 ≡ v = get_or-set_self a i v 0 (omega arith) in
    let later : get_or (arr_1_after i v a) i 0 ≡ v =
      get_or-set_ne (set (set a i v) (i + 1) v) (i + 30) i i 0 (λ e. omega arith)
      ∙ get_or-set_ne (set a i v) (i + 1) i v 0 (λ e. omega arith)
      ∙ there in
    let m₁ = write_cell m i i i in
    let s₁ = write_cell-IsSquare 50 m square i i (omega arith) (omega arith) i in
    let m₂ = write_cell m₁ i (i + 1) i in
    let s₂ = write_cell-IsSquare 50 m₁ s₁ i (i + 1) (omega arith) (omega arith) i in
    let w = u32 (cell m₂ i (i - 1) + 1) in
    let m₃ = write_cell m₂ i (i - 1) w in
    let s₃ = write_cell-IsSquare 50 m₂ s₂ i (i - 1) (omega arith) (omega arith) w in
    rw
      (
        e₁,
        store-ok a i v (omega arith),
        load-ok (set a i v) i (omega arith),
        there,
        e₂,
        store-ok (set a i v) (i + 1) v (omega arith),
        e₃,
        store-ok (set (set a i v) (i + 1) v) (i + 30) i (omega arith),
        row_loop-ok m i square (omega arith),
        e₄,
        load_cell-ok 50 m₂ s₂ i (i - 1) (omega arith) (omega arith),
        store_cell-ok 50 m₂ s₂ i (i - 1) (omega arith) (omega arith) w,
        load-ok (arr_1_after i v a) i (omega arith),
        later,
        e₅,
        store_cell-ok 50 m₃ s₃ (i + 20) i (omega arith) (omega arith) v,
      )
      refl

pub arr_1-cell :
    (a : List ℕ) (i v x : ℕ)
    → length a ≡ 50
    → i + 30 < 50
    → get_or (arr_1_after i v a) x 0
      ≡ (if x == i + 30 then i else (if (x == i + 1) || (x == i) then v else get_or a x 0))
arr_1-cell a i v x long h =
    let l₁ = length-set a i v in
    let l₂ = length-set (set a i v) (i + 1) v in
    let e₁ = get_or-set a i x v (omega arith) in
    let e₂ = get_or-set (set a i v) (i + 1) x v (omega arith) in
    let e₃ = get_or-set (set (set a i v) (i + 1) v) (i + 30) x i (omega arith) in
    rw (e₃, e₂, e₁) (ground arith)

module _ (m : List (List ℕ)) (square : IsSquare 50 m) (i v : ℕ) (h : i + 30 < 50)
    (pos : 0 < i) where
  rows-IsSquare : IsSquare 50 (write_cell (write_cell m i i i) i (i + 1) i)
  rows-IsSquare =
      write_cell-IsSquare 50 (write_cell m i i i)
        (write_cell-IsSquare 50 m square i i (omega arith) (omega arith) i) i (i + 1) (omega arith)
        (omega arith) i

  rows-cell :
      (a b : ℕ)
      → cell (write_cell (write_cell m i i i) i (i + 1) i) a b
        ≡ (if (a == i) && ((b == i + 1) || (b == i)) then i else cell m a b)
  rows-cell a b =
      let m₁ = write_cell m i i i in
      let s₁ = write_cell-IsSquare 50 m square i i (omega arith) (omega arith) i in
      rw
        (
          cell-write_cell 50 m₁ s₁ i (i + 1) (omega arith) (omega arith) i a b,
          cell-write_cell 50 m square i i (omega arith) (omega arith) i a b,
        )
        (ground arith)

  pub arr_2-cell :
      (a b : ℕ)
      → cell (arr_2_after i v m) a b ≡ (
          if (a == i + 20) && (b == i)
          then v
          else (if (a == i) && (b == i - 1)
              then u32 (cell m i (i - 1) + 1)
              else (if (a == i) && ((b == i + 1) || (b == i)) then i else cell m a b)))
  arr_2-cell a b =
      let m₂ = write_cell (write_cell m i i i) i (i + 1) i in
      let s₂ = rows-IsSquare in
      let w = u32 (cell m₂ i (i - 1) + 1) in
      let m₃ = write_cell m₂ i (i - 1) w in
      let s₃ = write_cell-IsSquare 50 m₂ s₂ i (i - 1) (omega arith) (omega arith) w in
      let old : cell m₂ i (i - 1) ≡ cell m i (i - 1) = rows-cell i (i - 1) ∙ ground arith in
      rw
        (
          cell-write_cell 50 m₃ s₃ (i + 20) i (omega arith) (omega arith) v a b,
          cell-write_cell 50 m₂ s₂ i (i - 1) (omega arith) (omega arith) w a b,
          old,
          rows-cell a b,
        )
        refl

  pub arr_2-IsSquare : IsSquare 50 (arr_2_after i v m)
  arr_2-IsSquare =
      let m₂ = write_cell (write_cell m i i i) i (i + 1) i in
      let s₂ = rows-IsSquare in
      let w = u32 (cell m₂ i (i - 1) + 1) in
      let m₃ = write_cell m₂ i (i - 1) w in
      let s₃ = write_cell-IsSquare 50 m₂ s₂ i (i - 1) (omega arith) (omega arith) w in
      write_cell-IsSquare 50 m₃ s₃ (i + 20) i (omega arith) (omega arith) v

-- The cells of Arr_1_glob and of Arr_2_glob that Proc_8 leaves, from those before it.
abbrev pub arr_1_cell : ℕ → ℕ → List ℕ → ℕ → ℕ
arr_1_cell i v a x =
    if x == i + 30 then i else (if (x == i + 1) || (x == i) then v else get_or a x 0)

abbrev pub arr_2_cell : ℕ → ℕ → List (List ℕ) → ℕ → ℕ → ℕ
arr_2_cell i v m a b =
    if (a == i + 20) && (b == i)
    then v
    else (if (a == i) && (b == i - 1)
        then u32 (cell m i (i - 1) + 1)
        else (if (a == i) && ((b == i + 1) || (b == i)) then i else cell m a b))

-- For a first number of at most 14, Proc_8 stays within the arrays, and with i as that number plus
-- 5: it sets the cells i and i + 1 of Arr_1_glob to the second number and the cell i + 30 to i; in
-- row i of Arr_2_glob it sets the cells i and i + 1 to i and adds one to the cell i - 1; it sets
-- the cell i of row i + 20 to the second number; and it changes no other cell.
pub proc_8_lem :
    (n v : ℕ) (g : Globals)
    → n ≤ 14
    → length g.arr_1_glob ≡ 50
    → IsSquare 50 g.arr_2_glob
    → (a : List ℕ) × (m : List (List ℕ)) × (proc_8 n v g
        ≡ ok (record g { arr_1_glob = a; arr_2_glob = m; int_glob = 5 }))
      × (length a ≡ 50)
      × IsSquare 50 m
      × ((x : ℕ) → get_or a x 0 ≡ arr_1_cell (n + 5) v g.arr_1_glob x)
      × ((x y : ℕ) → cell m x y ≡ arr_2_cell (n + 5) v g.arr_2_glob x y)
proc_8_lem n v g small long square =
    let i = n + 5 in
    let a = g.arr_1_glob in
    (
      arr_1_after i v a,
      arr_2_after i v g.arr_2_glob,
      proc_8-ok n v g small long square,
      length-set (set (set a i v) (i + 1) v) (i + 30) i
          ∙ length-set (set a i v) (i + 1) v
          ∙ length-set a i v
          ∙ long,
      arr_2-IsSquare g.arr_2_glob square i v (omega arith) (omega arith),
      λ x. arr_1-cell a i v x long (omega arith),
      arr_2-cell g.arr_2_glob square i v (omega arith) (omega arith),
    )
