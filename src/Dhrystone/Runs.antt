-- ===== src/Dhrystone/Runs.antt =====
-- dhrystone/src/dhry_1.c: the procedures, and main up to the end of the measurement.
use gandiva.Base.{
  ℕ, zero, suc, ◌+◌, ◌-◌, ◌*◌, ◌/◌, ◌^◌, ◌==◌, leb, if◌then◌else◌, Bool, true, false, neg32,
  neg_u32, lt_s32, u8, u32, bit_or, List, [], ◌∷◌, ◌++◌, codes, Run, ok, fault, out_of_fuel, ◌>>=◌,
}
use Prim.Native.String.{String}
use gandiva.Dhrystone.{
  Enumeration, ident_1, ident_2, ident_3, ident_4, ident_5, RecPointer, glob_1, glob_2, Globals,
  deref, assign, update, store_cell,
}
use gandiva.Dhrystone.Procs.{is_ident_1, proc_6, proc_7, proc_8, func_1, func_2}

-- Proc_3 with a pointer to the field Ptr_Comp of the record at `target`. With NULL in Ptr_glob, for
-- which the code leaves the first assignment out, the second one faults, as here.
unfoldable pub proc_3 : RecPointer → Globals → Run Globals
proc_3 target g = deref g.ptr_glob g >>= λ r.
    update target (λ t. record t { ptr_comp = r.ptr_comp }) g >>= λ g'.
    update g'.ptr_glob (λ t. record t { int_comp = proc_7 10 g'.int_glob }) g'

-- The two branches of Proc_1, for its parameter `p` and `next`.
unfoldable pub proc_1_same : RecPointer → RecPointer → Globals → Run Globals
proc_1_same p next g = update next (λ t. record t { int_comp = 6 }) g >>= λ g₁. deref p g₁ >>= λ r.
    update next (λ t. record t { enum_comp = proc_6 r.enum_comp g₁.int_glob }) g₁ >>= λ g₂.
    deref g₂.ptr_glob g₂ >>= λ s. update next (λ t. record t { ptr_comp = s.ptr_comp }) g₂ >>= λ g₃.
    update next (λ t. record t { int_comp = proc_7 t.int_comp 10 }) g₃

unfoldable pub proc_1_other : RecPointer → Globals → Run Globals
proc_1_other p g = deref p g >>= λ r. deref r.ptr_comp g >>= λ s. assign p s g

unfoldable pub proc_1 : RecPointer → Globals → Run Globals
proc_1 p g = deref p g >>= λ r. deref g.ptr_glob g >>= λ s. assign r.ptr_comp s g >>= λ g₁.
    update p (λ t. record t { int_comp = 5 }) g₁ >>= λ g₂. deref p g₂ >>= λ q.
    update r.ptr_comp (λ t. record t { int_comp = q.int_comp }) g₂ >>= λ g₃. deref p g₃ >>= λ q'.
    update r.ptr_comp (λ t. record t { ptr_comp = q'.ptr_comp }) g₃ >>= λ g₄.
    proc_3 r.ptr_comp g₄ >>= λ g₅. deref r.ptr_comp g₅ >>= λ n.
    if is_ident_1 n.discr then proc_1_same p r.ptr_comp g₅ else proc_1_other p g₅

-- Proc_2. Its loop ends in its first round or, since Enum_Loc is not set without Ch_1_glob = 'A',
-- reads a variable that has no value.
unfoldable pub proc_2 : ℕ → Globals → Run ℕ
proc_2 int_par g =
    let int_loc = u32 (u32 (int_par + 10) + 2 ^ 32 - 1) in
    if g.ch_1_glob == 0x41 then ok (u32 (int_loc + 2 ^ 32 - g.int_glob)) else fault

unfoldable pub proc_4 : Globals → Globals
proc_4 g = record g {
  bool_glob = bit_or (if g.ch_1_glob == 0x41 then 1 else 0) g.bool_glob;
  ch_2_glob = 0x42;
}

unfoldable pub proc_5 : Globals → Globals
proc_5 g = record g { ch_1_glob = 0x41; bool_glob = 0 }

-- Signed division, rounded towards zero.
abbrev pub magnitude : ℕ → ℕ
magnitude a = if neg32 a then neg_u32 a else a

unfoldable pub div_s32 : ℕ → ℕ → Run ℕ
div_s32 a b =
    let quotient = magnitude a / magnitude b in
    let signed =
      if neg32 a
      then (if neg32 b then quotient else neg_u32 quotient)
      else (if neg32 b then neg_u32 quotient else quotient) in
    if b == 0 then fault else ok signed

-- strcpy into an array: the source up to its zero byte, and the rest as it was.
unfoldable pub strcpy : List ℕ → List ℕ → Run (List ℕ)
strcpy dst [] = fault
strcpy [] (c ∷ src) = fault
strcpy (d ∷ dst) (c ∷ src) =
    let rest = strcpy dst src >>= λ out. ok (c ∷ out) in if c == 0 then ok (0 ∷ dst) else rest

abbrev pub literal : String → List ℕ
literal s = codes s ++ 0 ∷ []

abbrev pub str_1_text : List ℕ
str_1_text = literal "DHRYSTONE PROGRAM, 1'ST STRING"

abbrev pub str_2_text : List ℕ
str_2_text = literal "DHRYSTONE PROGRAM, 2'ND STRING"

abbrev pub some_string : List ℕ
some_string = literal "DHRYSTONE PROGRAM, SOME STRING"

-- The variables of main and the globals.
pub record Dhry : Type 0 where
  pub int_1_loc : ℕ
  pub int_2_loc : ℕ
  pub int_3_loc : ℕ
  pub enum_loc : Enumeration
  pub str_1_loc : List ℕ
  pub str_2_loc : List ℕ
  pub globals : Globals

-- What main sets up before the loop.
unfoldable pub initialise : Dhry → Run Dhry
initialise s =
    let g = record s.globals { ptr_glob = glob_1 } in
    strcpy g.rec_glob_1.str_comp some_string >>= λ str_comp.
    strcpy s.str_1_loc str_1_text >>= λ str_1. store_cell g.arr_2_glob 8 7 10 >>= λ m.
    ok (record s {
      str_1_loc = str_1;
      globals = record g {
        rec_glob_1 = record {
          ptr_comp = glob_2;
          discr = ident_1;
          enum_comp = ident_3;
          int_comp = 40;
          str_comp = str_comp;
        };
        arr_2_glob = m;
      };
    })

-- while (Int_1_Loc < Int_2_Loc). Proc_7 overwrites what the line before it assigns to Int_3_Loc.
unfoldable pub while_less : ℕ → Dhry → Run Dhry
while_less zero s = out_of_fuel
while_less (suc fuel) s =
    let rest = while_less fuel (record s {
      int_3_loc = proc_7 s.int_1_loc s.int_2_loc;
      int_1_loc = u32 (s.int_1_loc + 1);
    }) in
    if lt_s32 s.int_1_loc s.int_2_loc then rest else ok s

abbrev pub same_ident : Enumeration → Enumeration → Bool
same_ident ident_1 ident_1 = true
same_ident ident_2 ident_2 = true
same_ident ident_3 ident_3 = true
same_ident ident_4 ident_4 = true
same_ident ident_5 ident_5 = true
same_ident _ _ = false

-- for (Ch_Index = 'A'; Ch_Index <= Ch_2_glob; ++Ch_Index)
unfoldable pub for_char : ℕ → ℕ → Dhry → Run Dhry
for_char zero ch s = out_of_fuel
for_char (suc fuel) ch s =
    let r = func_1 ch 0x43 s.globals in
    let s' = record s { globals = r.globals } in
    let rest = for_char fuel (u8 (ch + 1)) (
      if same_ident s.enum_loc r.value
      then record s' { enum_loc = proc_6 ident_1 r.globals.int_glob }
      else s') in
    if leb ch s.globals.ch_2_glob then rest else ok s

-- The part of a run behind its loops.
unfoldable pub last_part : Dhry → Run Dhry
last_part s =
    let int_3 = u32 (s.int_2_loc * s.int_1_loc) in
    div_s32 int_3 s.int_1_loc >>= λ int_2.
    let int_2' = u32 (u32 (7 * u32 (int_3 + 2 ^ 32 - int_2)) + 2 ^ 32 - s.int_1_loc) in
    proc_2 s.int_1_loc s.globals >>= λ int_1.
    ok (record s { int_1_loc = int_1; int_2_loc = int_2'; int_3_loc = int_3 })

-- A run. `fuel` bounds the rounds of the loops, of which none has more than 256.
unfoldable pub one_run : ℕ → Dhry → Run Dhry
one_run fuel s =
    let g = proc_4 (proc_5 s.globals) in
    strcpy s.str_2_loc str_2_text >>= λ str_2. func_2 fuel s.str_1_loc str_2 g >>= λ answer.
    let g' = record answer.globals { bool_glob = if answer.value then 0 else 1 } in
    while_less fuel (record s {
      int_1_loc = 2;
      int_2_loc = 3;
      enum_loc = ident_2;
      str_2_loc = str_2;
      globals = g';
    })
    >>= λ t. proc_8 t.int_1_loc t.int_3_loc t.globals >>= λ g₈. proc_1 g₈.ptr_glob g₈ >>= λ g₁.
        for_char fuel 0x41 (record t { globals = g₁ }) >>= λ u. last_part u

-- `n` runs.
unfoldable pub run_loop : ℕ → ℕ → Dhry → Run Dhry
run_loop fuel zero s = ok s
run_loop fuel (suc n) s = one_run fuel s >>= λ s'. run_loop fuel n s'

unfoldable pub dhrystone : ℕ → ℕ → Dhry → Run Dhry
dhrystone fuel n s = initialise s >>= λ s'. run_loop fuel n s'
