-- ===== src/Tests/Dhrystone.antt =====
-- Two runs of Dhrystone on arrays of zeros, a format, and a score.
use gandiva.Base.{
  ℕ, zero, suc, ◌+◌, ◌*◌, ◌/◌, ◌<◌, ◌≡◌, refl, arith, List, [], ◌∷◌, length, get_or, replicate, u32,
  ok,
}
use gandiva.Dhrystone.{ident_1, null, Rec, Globals}
use gandiva.Dhrystone.Procs.{proc_8}
use gandiva.Dhrystone.Arrays.{IsSquare, cell}
use gandiva.Dhrystone.Arrays.After.{arr_1_cell, arr_2_cell, proc_8_lem}
use gandiva.Dhrystone.Runs.{Dhry, dhrystone}
use gandiva.Dhrystone.Final.{dhrystone_final}
use gandiva.Dhrystone.Port.{Sent, dhr_printf}
use gandiva.Dhrystone.Format.{Piece, lit, dec, chr, str, percent, format, arguments, AllShow}
use gandiva.Dhrystone.Format.Rounds.{dhr_printf_lem}
use gandiva.Dhrystone.Score.{Score, score, clk_freq_hz, score_lem}

abbrev blank : List ℕ
blank = replicate 31 0

abbrev row : List ℕ
row = replicate 50 0

abbrev table : List (List ℕ)
table = replicate 50 row

get_or-replicate : (n i : ℕ) (r : List ℕ) → i < n → get_or (replicate n r) i [] ≡ r
get_or-replicate zero i r h = absurd (omega arith)
get_or-replicate (suc n) zero r h = refl
get_or-replicate (suc n) (suc i) r h = get_or-replicate n i r (omega arith)

table-IsSquare : IsSquare 50 table
table-IsSquare = (refl, λ i h. rw (get_or-replicate 50 i row h) refl)

abbrev empty : Rec
empty = record {
  ptr_comp = null;
  discr = ident_1;
  enum_comp = ident_1;
  int_comp = 0;
  str_comp = blank;
}

abbrev globals : Globals
globals = record {
  rec_glob_1 = empty;
  rec_glob_2 = empty;
  ptr_glob = null;
  bool_glob = 0;
  ch_1_glob = 0;
  ch_2_glob = 0;
  int_glob = 0;
  arr_1_glob = row;
  arr_2_glob = table;
}

abbrev started : Dhry
started = record {
  int_1_loc = 0;
  int_2_loc = 0;
  int_3_loc = 0;
  enum_loc = ident_1;
  str_1_loc = blank;
  str_2_loc = blank;
  globals = globals;
}

proc_8_lem_example :
    (a : List ℕ) × (m : List (List ℕ)) × (proc_8 3 7 globals
      ≡ ok (record globals { arr_1_glob = a; arr_2_glob = m; int_glob = 5 }))
    × (length a ≡ 50)
    × IsSquare 50 m
    × ((x : ℕ) → get_or a x 0 ≡ arr_1_cell 8 7 row x)
    × ((x y : ℕ) → cell m x y ≡ arr_2_cell 8 7 table x y)
proc_8_lem_example = proc_8_lem 3 7 globals (omega arith) refl table-IsSquare

dhrystone_final_example :
    (out : Dhry) × (dhrystone 3 2 started ≡ ok out)
    × (out.globals.int_glob ≡ 5)
    × (out.globals.bool_glob ≡ 1)
    × (out.globals.ch_1_glob ≡ 0x41)
    × (out.globals.ch_2_glob ≡ 0x42)
    × (get_or out.globals.arr_1_glob 8 0 ≡ 7)
    × (cell out.globals.arr_2_glob 8 7 ≡ 12)
    × (out.globals.rec_glob_1.int_comp ≡ 17)
    × (out.globals.rec_glob_2.int_comp ≡ 18)
    × (out.int_1_loc ≡ 7)
    × (out.int_2_loc ≡ 39)
    × (out.int_3_loc ≡ 9)
dhrystone_final_example =
    dhrystone_final 3 2 started (omega arith) (omega arith) refl refl refl refl table-IsSquare

-- "A%03d%%" with -5, %c with 66, and %s.
abbrev pieces : List Piece
pieces = lit 65 ∷ dec 3 0xffff_fffb ∷ percent ∷ chr 66 ∷ str (67 ∷ 68 ∷ []) ∷ []

dhr_printf_lem_example :
    (out : Sent) × (dhr_printf 6 (format pieces) (arguments pieces) ≡ ok out)
    × (out.count ≡ u32 (length out.bytes))
    × AllShow pieces out.bytes
dhr_printf_lem_example =
    dhr_printf_lem 6 pieces
      ((λ e. omega arith, λ e. omega arith), ((omega arith, omega arith), (tt, (tt, (refl, tt)))))
      (omega arith)

score_lem_example :
    (s : Score) × (score 5000 10 ≡ ok s)
    × (s.dhrystones_per_sec ≡ 10 * clk_freq_hz / 5000)
    × (s.us_per_run ≡ 5000 * 1000000 / (10 * clk_freq_hz))
    × (s.dmips * 1000 + s.dmips_frac ≡ s.dhrystones_per_sec * 1000 / 1757)
    × (s.dmips_frac < 1000)
    × (s.dmips_mhz * 1000 + s.dmips_mhz_frac ≡ s.dhrystones_per_sec / 50 * 1000 / 1757)
    × (s.dmips_mhz_frac < 1000)
score_lem_example =
    score_lem 5000 10 (omega arith) (omega arith) (omega arith) (omega arith) (omega arith)
