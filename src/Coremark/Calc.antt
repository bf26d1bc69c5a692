-- ===== src/Coremark/Calc.antt =====
-- calc_func of coremark/src/core_list_join.c, which the comparison of two list items calls: it runs
-- one of the other benchmarks, and caches the result in the item.
pub mod Caches
use gandiva.Base.{
  ℕ, ◌+◌, ◌-◌, ◌*◌, ◌/◌, ◌%◌, ◌^◌, ◌==◌, ltb, if◌then◌else◌, List, shr, low_bits, Run, ok, ◌>>=◌,
}
use gandiva.Coremark.Crc.{crcu16}
use gandiva.Coremark.State.{Benched, core_bench_state}
use gandiva.Coremark.Matrix.{Tested, core_bench_matrix}

-- The part of `core_results` that the functions of the list read and write. `memblock` is the block
-- of the state machine, and `c`, `a` and `b` stand at the matrices of `mat`.
pub record Results : Type 0 where
  pub size : ℕ
  pub memblock : List ℕ
  pub seed1 : ℕ
  pub seed2 : ℕ
  pub seed3 : ℕ
  pub n : ℕ
  pub c : List ℕ
  pub a : List ℕ
  pub b : List ℕ
  pub crc : ℕ
  pub crcstate : ℕ
  pub crcmatrix : ℕ

-- The value that is returned, with what `pdata` and `res` point to.
pub record Calculated : Type 0 where
  pub value : ℕ
  pub pdata : ℕ
  pub res : Results

abbrev pub calculated : ℕ → ℕ → Results → Calculated
calculated v d r = record { value = v; pdata = d; res = r }

pub record Ran : Type 0 where
  pub retval : ℕ
  pub res : Results

-- dtype, with the four bits replicated.
abbrev pub dtype_of : ℕ → ℕ
dtype_of item = low_bits (shr item 3) 4 + low_bits (shr item 3) 4 * 2 ^ 4

abbrev pub state_ran : Results → Benched → Ran
state_ran res out = record {
  retval = out.crc;
  res = record res {
    memblock = out.memblock;
    crcstate = if res.crcstate == 0 then out.crc else res.crcstate;
  };
}

-- case 0
unfoldable pub run_state : ℕ → Results → Run Ran
run_state item res =
    let dtype = dtype_of item in
    core_bench_state res.size res.memblock res.seed1 res.seed2
      (if ltb dtype 0x22 then 0x22 else dtype) res.crc
    >>= λ out. ok (state_ran res out)

abbrev pub matrix_ran : Results → Tested → Ran
matrix_ran res out = record {
  retval = out.crc;
  res = record res {
    c = out.c;
    a = out.a;
    crcmatrix = if res.crcmatrix == 0 then out.crc else res.crcmatrix;
  };
}

-- case 1
unfoldable pub run_matrix : ℕ → Results → Run Ran
run_matrix item res = core_bench_matrix res.n res.c res.a res.b (dtype_of item) res.crc >>= λ out.
    ok (matrix_ran res out)

unfoldable pub run_flag : ℕ → Results → Run Ran
run_flag item res =
    if low_bits item 3 == 0
    then run_state item res
    else (if low_bits item 3 == 1
        then run_matrix item res
        else ok (record { retval = item; res = res }))

unfoldable pub calc_func : ℕ → Results → Run Calculated
calc_func item res =
    if shr item 7 % 2 == 1
    then ok (calculated (low_bits item 7) item res)
    else run_flag item res >>= λ ran. ok (
        calculated (low_bits ran.retval 7) (item - low_bits item 8 + 0x80 + low_bits ran.retval 7)
          (record ran.res { crc = crcu16 ran.retval ran.res.crc }))
