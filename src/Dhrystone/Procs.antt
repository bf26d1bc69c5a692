-- ===== src/Dhrystone/Procs.antt =====
-- dhrystone/src/dhry_2.c. A function that writes through a pointer to an int returns what it writes.
use gandiva.Base.{
  ℕ, zero, suc, ◌+◌, ◌-◌, ◌^◌, ◌==◌, ltb, leb, if◌then◌else◌, Bool, true, false, ◌&&◌, lt_s32, u32,
  List, [], ◌∷◌, load, store, Run, ok, fault, out_of_fuel, ◌>>=◌,
}
use gandiva.Dhrystone.{
  Enumeration, ident_1, ident_2, ident_3, ident_4, ident_5, Globals, load_cell, store_cell,
}

unfoldable pub func_3 : Enumeration → Bool
func_3 ident_3 = true
func_3 _ = false

-- The switch of Proc_6, on what the lines before it have left.
unfoldable pub proc_6_switch : Enumeration → ℕ → Enumeration → Enumeration
proc_6_switch ident_1 int_glob left = ident_1
proc_6_switch ident_2 int_glob left = if lt_s32 100 int_glob then ident_1 else ident_4
proc_6_switch ident_3 int_glob left = ident_2
proc_6_switch ident_4 int_glob left = left
proc_6_switch ident_5 int_glob left = ident_3

unfoldable pub proc_6 : Enumeration → ℕ → Enumeration
proc_6 val int_glob = proc_6_switch val int_glob (if func_3 val then val else ident_4)

unfoldable pub proc_7 : ℕ → ℕ → ℕ
proc_7 int_1 int_2 = u32 (int_2 + u32 (int_1 + 2))

-- for (Int_Index = Int_Loc; Int_Index <= Int_Loc + 1; ++Int_Index). It has two rounds.
unfoldable pub row_loop : ℕ → ℕ → ℕ → List (List ℕ) → Run (List (List ℕ))
row_loop zero int_loc index m = out_of_fuel
row_loop (suc fuel) int_loc index m =
    let rest =
      store_cell m int_loc index int_loc >>= λ m'. row_loop fuel int_loc (u32 (index + 1)) m' in
    if lt_s32 (u32 (int_loc + 1)) index then ok m else rest

-- Proc_8 on the global arrays, with which main calls it.
unfoldable pub proc_8 : ℕ → ℕ → Globals → Run Globals
proc_8 int_1 int_2 g =
    let int_loc = u32 (int_1 + 5) in
    store g.arr_1_glob int_loc int_2 >>= λ a. load a int_loc >>= λ x.
    store a (u32 (int_loc + 1)) x >>= λ b. store b (u32 (int_loc + 30)) int_loc >>= λ c.
    row_loop 3 int_loc int_loc g.arr_2_glob >>= λ m.
    load_cell m int_loc (u32 (int_loc + 2 ^ 32 - 1)) >>= λ y.
    store_cell m int_loc (u32 (int_loc + 2 ^ 32 - 1)) (u32 (y + 1)) >>= λ n. load c int_loc >>= λ z.
    store_cell n (u32 (int_loc + 20)) int_loc z >>= λ o.
    ok (record g { arr_1_glob = c; arr_2_glob = o; int_glob = 5 })

pub record Func1 : Type 0 where
  pub value : Enumeration
  pub globals : Globals

unfoldable pub func_1 : ℕ → ℕ → Globals → Func1
func_1 ch_1 ch_2 g =
    if ch_1 == ch_2
    then record { value = ident_2; globals = record g { ch_1_glob = ch_1 } }
    else record { value = ident_1; globals = g }

abbrev pub is_ident_1 : Enumeration → Bool
is_ident_1 ident_1 = true
is_ident_1 _ = false

-- What the loop of Func_2 leaves: Ch_Loc, Int_Loc and the globals.
pub record Func2 : Type 0 where
  pub ch_loc : ℕ
  pub int_loc : ℕ
  pub globals : Globals

unfoldable pub func_2_loop : ℕ → List ℕ → List ℕ → Func2 → Run Func2
func_2_loop zero str_1 str_2 s = out_of_fuel
func_2_loop (suc fuel) str_1 str_2 s =
    let rest = load str_1 s.int_loc >>= λ a. load str_2 (u32 (s.int_loc + 1)) >>= λ b.
    let r = func_1 a b s.globals in
    let s' = record s { globals = r.globals } in
    func_2_loop fuel str_1 str_2 (
      if is_ident_1 r.value
      then record s' { ch_loc = 0x41; int_loc = u32 (s.int_loc + 1) }
      else s') in
    if lt_s32 2 s.int_loc then ok s else rest

-- strcmp(s, t) > 0
unfoldable pub str_after : List ℕ → List ℕ → Run Bool
str_after [] t = fault
str_after (x ∷ s) [] = fault
str_after (x ∷ s) (y ∷ t) =
    let rest = str_after s t in if x == y then (if x == 0 then ok false else rest) else ok (ltb y x)

pub record Answer : Type 0 where
  pub value : Bool
  pub globals : Globals

-- The end of Func_2, behind its loop.
unfoldable pub func_2_end : List ℕ → List ℕ → Func2 → Run Answer
func_2_end str_1 str_2 s =
    let int_loc = if leb 0x57 s.ch_loc && ltb s.ch_loc 0x5a then 7 else s.int_loc in
    let later = str_after str_1 str_2 >>= λ after. ok (
      if after
      then record { value = true; globals = record s.globals { int_glob = u32 (int_loc + 7) } }
      else record { value = false; globals = s.globals }) in
    if s.ch_loc == 0x52 then ok (record { value = true; globals = s.globals }) else later

-- Func_2, with `fuel` rounds of its loop. Ch_Loc is set in the first round that ends.
unfoldable pub func_2 : ℕ → List ℕ → List ℕ → Globals → Run Answer
func_2 fuel str_1 str_2 g =
    func_2_loop fuel str_1 str_2 (record { ch_loc = 0; int_loc = 2; globals = g }) >>= λ s.
    func_2_end str_1 str_2 s
