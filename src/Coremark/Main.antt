-- ===== src/Coremark/Main.antt =====
-- iterate of coremark/src/core_main.c: the benchmark loop over the list benchmark.
pub mod Setup
pub mod Report
pub mod Iterations
pub mod Whole
use gandiva.Base.{ℕ, ◌==◌, if◌then◌else◌, Option, none, some, Run, ok, fault, ◌>>=◌}
use gandiva.Base.Loop.{for_loop}
use gandiva.Coremark.Crc.{crcu16}
use gandiva.Coremark.Calc.{Results}
use gandiva.Coremark.List.{Heap}
use gandiva.Coremark.List.Bench.{core_bench_list}

pub record Iterating : Type 0 where
  pub res : Results
  pub crclist : ℕ
  pub heap : Heap

-- A call of core_bench_list, whose CRC goes into `res->crc`.
unfoldable pub list_crc : ℕ → ℕ → ℕ → Iterating → Run Iterating
list_crc fuel list finder_idx s = core_bench_list fuel list s.res finder_idx s.heap >>= λ out.
    with_res out.res
      λ res. ok (record s { res = record res { crc = crcu16 out.retval res.crc }; heap = out.heap })
  where
    with_res : Option Results → (Results → Run Iterating) → Run Iterating
    with_res none k = fault
    with_res (some res) k = k res

unfoldable pub iteration : ℕ → ℕ → ℕ → Iterating → Run Iterating
iteration fuel list i s = list_crc fuel list 1 s >>= λ s₁. list_crc fuel list 0xffff s₁ >>= λ s₂.
    ok (record s₂ { crclist = if i == 0 then s₂.res.crc else s₂.crclist })

unfoldable pub iterate : ℕ → ℕ → ℕ → Results → Heap → Run Iterating
iterate fuel list iterations res h =
    for_loop iterations 0 (iteration fuel list)
      (record { res = record res { crc = 0; crcmatrix = 0; crcstate = 0 }; crclist = 0; heap = h })
