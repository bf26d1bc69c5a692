-- ===== src/Dhrystone/Final.antt =====
-- The values that main of dhrystone/src/dhry_1.c has at the end of the measurement.
use gandiva.Base.{
  ℕ, zero, suc, ◌+◌, ◌≤◌, ◌<◌, ◌≡◌, refl, ◌∙◌, arith, ◌==◌, not, ◌&&◌, Bool, true, false, u32, List,
  [], ◌∷◌, ◌++◌, codes, length, get_or, set, length-set, load, ok, Bool-cases, inl, inr,
}
use gandiva.Dhrystone.{
  Enumeration, ident_1, ident_2, ident_3, glob_1, glob_2, Rec, Globals, deref, assign, update,
}
use gandiva.Dhrystone.Procs.{
  func_1, func_2, func_2_loop, func_2_end, str_after, proc_6, proc_6_switch, proc_7, func_3,
}
use gandiva.Dhrystone.Runs.{
  Dhry, initialise, one_run, run_loop, dhrystone, strcpy, str_1_text, str_2_text, some_string,
  while_less, for_char, last_part, proc_1, proc_1_same, proc_2, proc_3, proc_4, proc_5, div_s32,
}
use gandiva.Dhrystone.Arrays.{
  IsSquare, cell, store_cell-ok, write_cell-IsSquare, cell-write_cell, write_cell,
}
use gandiva.Dhrystone.Arrays.After.{
  arr_1_after, arr_2_after, proc_8-ok, arr_1-cell, arr_2-cell, arr_2-IsSquare,
}

abbrev pub all_nonzero : List ℕ → Bool
all_nonzero [] = true
all_nonzero (c ∷ s) = not (c == 0) && all_nonzero s

strcpy-text :
    (s dst : List ℕ)
    → all_nonzero s ≡ true
    → length dst ≡ suc (length s)
    → strcpy dst (s ++ 0 ∷ []) ≡ ok (s ++ 0 ∷ [])
unfolding strcpy
strcpy-text [] [] e h = absurd (omega arith)
strcpy-text [] (d ∷ []) e h = refl
strcpy-text [] (d ∷ x ∷ dst) e h = absurd (omega arith)
strcpy-text (c ∷ s) [] e h = absurd (omega arith)
strcpy-text (c ∷ s) (d ∷ dst) e h = elim (Bool-cases (c == 0)) [
  | inl ends ↦ absurd (grind (arith, rw ends at e))
  | inr goes ↦ rw (goes, strcpy-text s dst (rw goes at e) (omega arith)) refl
]

-- A state at the start of a run.
abbrev before :
    List ℕ → List (List ℕ) → Rec → ℕ → ℕ → ℕ → ℕ → ℕ → ℕ → ℕ → ℕ → Enumeration → List ℕ → Dhry
before a m r int_comp b c₁ c₂ n i₁ i₂ i₃ e str_2 = record {
  int_1_loc = i₁;
  int_2_loc = i₂;
  int_3_loc = i₃;
  enum_loc = e;
  str_1_loc = str_1_text;
  str_2_loc = str_2;
  globals = record {
    rec_glob_1 = record {
      ptr_comp = glob_2;
      discr = ident_1;
      enum_comp = ident_3;
      int_comp = int_comp;
      str_comp = some_string;
    };
    rec_glob_2 = r;
    ptr_glob = glob_1;
    bool_glob = b;
    ch_1_glob = c₁;
    ch_2_glob = c₂;
    int_glob = n;
    arr_1_glob = a;
    arr_2_glob = m;
  };
}

abbrev second : Rec
second = record {
  ptr_comp = glob_2;
  discr = ident_1;
  enum_comp = ident_2;
  int_comp = 18;
  str_comp = some_string;
}

-- The state after a run, but for the arrays.
abbrev pub after_run : List ℕ → List (List ℕ) → Dhry
after_run a m = before a m second 17 1 0x41 0x42 5 7 39 9 ident_2 str_2_text

func_2_differs :
    (f : ℕ) (g : Globals)
    → func_2 (suc (suc f)) str_1_text str_2_text g ≡ ok (record { value = false; globals = g })
unfolding func_2 func_2_loop func_2_end func_1 str_after load
func_2_differs f g = refl

one_run-ok :
    (f : ℕ) (a : List ℕ) (m : List (List ℕ)) (r : Rec) (int_comp b c₁ c₂ n i₁ i₂ i₃ : ℕ)
    (e : Enumeration) (str_2 : List ℕ)
    → length a ≡ 50
    → IsSquare 50 m
    → length str_2 ≡ 31
    → one_run (suc (suc (suc f))) (before a m r int_comp b c₁ c₂ n i₁ i₂ i₃ e str_2)
      ≡ ok (after_run (arr_1_after 8 7 a) (arr_2_after 8 7 m))
unfolding one_run proc_4 proc_5 while_less proc_7 proc_1 proc_1_same proc_3 deref assign update
    proc_6 proc_6_switch func_3 for_char func_1 last_part div_s32 proc_2
one_run-ok f a m r int_comp b c₁ c₂ n i₁ i₂ i₃ e str_2 long square fits =
    rw
      (
        strcpy-text (codes "DHRYSTONE PROGRAM, 2'ND STRING") str_2 refl fits,
        func_2_differs (suc f),
        proc_8-ok 3 7 (before a m r int_comp 1 0x41 0x42 n i₁ i₂ i₃ e str_2).globals (omega arith)
            long square,
      )
      refl

-- The arrays `a` and `m` after runs that have made `x` of the cell that they count in.
record Counted (a : List ℕ) (m : List (List ℕ)) (x : ℕ) : Type 0 where
  long : length a ≡ 50
  square : IsSquare 50 m
  last : get_or a 8 0 ≡ 7
  count : cell m 8 7 ≡ x

run-Counted :
    (a : List ℕ) (m : List (List ℕ))
    → length a ≡ 50
    → IsSquare 50 m
    → Counted (arr_1_after 8 7 a) (arr_2_after 8 7 m) (u32 (cell m 8 7 + 1))
run-Counted a m long square = record {
  long =
      length-set (set (set a 8 7) 9 7) 38 8 ∙ length-set (set a 8 7) 9 7 ∙ length-set a 8 7 ∙ long;
  square = arr_2-IsSquare m square 8 7 (omega arith) (omega arith);
  last = arr_1-cell a 8 7 8 long (omega arith);
  count = arr_2-cell m square 8 7 (omega arith) (omega arith) 8 7;
}

run_loop-Counted :
    (k f : ℕ) (a : List ℕ) (m : List (List ℕ)) (r : Rec) (int_comp b c₁ c₂ n i₁ i₂ i₃ : ℕ)
    (e : Enumeration) (str_2 : List ℕ)
    → length a ≡ 50
    → IsSquare 50 m
    → length str_2 ≡ 31
    → (a' : List ℕ) × (m' : List (List ℕ)) × (run_loop
          (suc (suc (suc f)))
          (suc k)
          (before a m r int_comp b c₁ c₂ n i₁ i₂ i₃ e str_2)
        ≡ ok (after_run a' m'))
      × Counted a' m' (u32 (cell m 8 7 + suc k))
unfolding run_loop
run_loop-Counted zero f a m r int_comp b c₁ c₂ n i₁ i₂ i₃ e str_2 long square fits = (
  arr_1_after 8 7 a,
  arr_2_after 8 7 m,
  rw (one_run-ok f a m r int_comp b c₁ c₂ n i₁ i₂ i₃ e str_2 long square fits) refl,
  run-Counted a m long square,
)
run_loop-Counted (suc k) f a m r int_comp b c₁ c₂ n i₁ i₂ i₃ e str_2 long square fits =
    let c = run-Counted a m long square in
    let (a', m', run, c') =
      run_loop-Counted k f (arr_1_after 8 7 a) (arr_2_after 8 7 m) second 17 1 0x41 0x42 5 7 39 9
        ident_2 str_2_text c.long c.square refl in
    let total : u32 (cell (arr_2_after 8 7 m) 8 7 + suc k) ≡ u32 (cell m 8 7 + suc (suc k)) =
      let e = c.count in omega arith in
    (
      a',
      m',
      rw (one_run-ok f a m r int_comp b c₁ c₂ n i₁ i₂ i₃ e str_2 long square fits) run,
      rw total at c',
    )

-- With arrays of the declared sizes and 3 rounds or more for the loops, main comes to the end of the
-- measurement after any number of runs but 0. Then Int_glob is 5, Bool_glob 1, Ch_1_glob and Ch_2_glob
-- are 'A' and 'B', Arr_1_glob[8] is 7, Arr_2_glob[8][7] the number of runs plus 10, modulo 2^32, the
-- integers of the records are 17 and 18, and those of main 7, 39 and 9.
pub dhrystone_final :
    (fuel n : ℕ) (s : Dhry)
    → 3 ≤ fuel
    → 0 < n
    → length s.str_1_loc ≡ 31
    → length s.str_2_loc ≡ 31
    → length s.globals.rec_glob_1.str_comp ≡ 31
    → length s.globals.arr_1_glob ≡ 50
    → IsSquare 50 s.globals.arr_2_glob
    → (out : Dhry) × (dhrystone fuel n s ≡ ok out)
      × (out.globals.int_glob ≡ 5)
      × (out.globals.bool_glob ≡ 1)
      × (out.globals.ch_1_glob ≡ 0x41)
      × (out.globals.ch_2_glob ≡ 0x42)
      × (get_or out.globals.arr_1_glob 8 0 ≡ 7)
      × (cell out.globals.arr_2_glob 8 7 ≡ u32 (10 + n))
      × (out.globals.rec_glob_1.int_comp ≡ 17)
      × (out.globals.rec_glob_2.int_comp ≡ 18)
      × (out.int_1_loc ≡ 7)
      × (out.int_2_loc ≡ 39)
      × (out.int_3_loc ≡ 9)
unfolding dhrystone initialise
dhrystone_final (suc (suc (suc f))) (suc k) s enough some fits₁ fits₂ fits₃ long square =
    let g = s.globals in
    let m = write_cell g.arr_2_glob 8 7 10 in
    let square' = write_cell-IsSquare 50 g.arr_2_glob square 8 7 (omega arith) (omega arith) 10 in
    let ten = cell-write_cell 50 g.arr_2_glob square 8 7 (omega arith) (omega arith) 10 8 7 in
    let (a', m', run, c) =
      run_loop-Counted k f g.arr_1_glob m g.rec_glob_2 40 g.bool_glob g.ch_1_glob g.ch_2_glob
        g.int_glob s.int_1_loc s.int_2_loc s.int_3_loc s.enum_loc s.str_2_loc long square' fits₂ in
    (
      after_run a' m',
      rw
          (
            strcpy-text (codes "DHRYSTONE PROGRAM, SOME STRING") g.rec_glob_1.str_comp refl fits₃,
            strcpy-text (codes "DHRYSTONE PROGRAM, 1'ST STRING") s.str_1_loc refl fits₁,
            store_cell-ok 50 g.arr_2_glob square 8 7 (omega arith) (omega arith) 10,
          )
          run,
      refl,
      refl,
      refl,
      refl,
      c.last,
      rw ten at c.count,
      refl,
      refl,
      refl,
      refl,
      refl,
    )
dhrystone_final zero n s enough some fits₁ fits₂ fits₃ long square = absurd (omega arith)
dhrystone_final (suc zero) n s enough some fits₁ fits₂ fits₃ long square = absurd (omega arith)
dhrystone_final (suc (suc zero)) n s enough some fits₁ fits₂ fits₃ long square =
    absurd (omega arith)
dhrystone_final (suc (suc (suc f))) zero s enough some fits₁ fits₂ fits₃ long square =
    absurd (omega arith)
