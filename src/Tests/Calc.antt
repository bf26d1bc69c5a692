-- ===== src/Tests/Calc.antt =====
-- calc_func on an item that runs the state machine.
use gandiva.Base.{
  ℕ, zero, suc, ◌≤◌, ◌<◌, ◌≡◌, ◌^◌, refl, arith, true, not, ◌||◌, ltb, List, [], ◌∷◌, ◌++◌, codes,
  shr, ok,
}
use gandiva.Base.Bits.{all_below, all_below_sound}
use gandiva.Coremark.State.Corrupt.{hits, NoCommaMade}
use gandiva.Coremark.State.Bench.{KeepsEnd}
use gandiva.Coremark.Matrix.Restore.{IsMatdat}
use gandiva.Coremark.Calc.{Results, Calculated, calc_func}
use gandiva.Coremark.Calc.Caches.{IsReady, calc_func_caches}

abbrev text : List ℕ
text = codes "12," ++ 0 ∷ []

abbrev cells : List ℕ
cells = 7 ∷ []

abbrev pub results : Results
results = record {
  size = 4;
  memblock = text;
  seed1 = 0x15;
  seed2 = 0x15;
  seed3 = 0x66;
  n = 1;
  c = cells;
  a = cells;
  b = cells;
  crc = 0;
  crcstate = 0;
  crcmatrix = 0;
}

end_kept : all_below (2 ^ 8) (λ step. ltb step 0x22 || not (hits step 0 3)) ≡ true
unfolding all_below
end_kept = refl

keeps_end : (step : ℕ) → 0x22 ≤ step → step < 2 ^ 8 → KeepsEnd 4 step text
keeps_end step lo hi =
    let h =
      all_below_sound (2 ^ 8) (λ step. ltb step 0x22 || not (hits step 0 3)) step end_kept hi in
    (3, omega arith, refl, ground arith)

no_comma : (step : ℕ) → 0x22 ≤ step → step < 2 ^ 8 → NoCommaMade 4 0x15 step text
no_comma step lo hi zero lt hit ne e = omega arith
no_comma step lo hi (suc zero) lt hit ne e = omega arith
no_comma step lo hi (suc (suc zero)) lt hit ne e = ne refl
no_comma step lo hi (suc (suc (suc zero))) lt hit ne e = omega arith
no_comma step lo hi (suc (suc (suc (suc j)))) lt hit ne e = omega arith

cells_small : IsMatdat cells
cells_small zero = omega arith
cells_small (suc m) = omega arith

pub results-IsReady : IsReady results
results-IsReady = record {
  same_seed = refl;
  in_block = omega arith;
  keeps_end = keeps_end;
  no_comma = no_comma;
  room_c = omega arith;
  room_a = omega arith;
  room_b = omega arith;
  matdat = cells_small;
}

calc_func_caches_example :
    (out : Calculated) × (calc_func 0x1818 results ≡ ok out)
    × (out.value < 2 ^ 7)
    × (shr out.pdata 8 ≡ shr 0x1818 8)
    × (calc_func out.pdata out.res ≡ ok out)
    × IsReady out.res
calc_func_caches_example = calc_func_caches 0x1818 results results-IsReady
