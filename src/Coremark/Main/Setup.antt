-- ===== src/Coremark/Main/Setup.antt =====
-- The first part of main in coremark/src/core_main.c: the seeds and the parts of the memory block,
-- for MEM_STACK and one context (core_portme.h).
pub mod Blocks
use gandiva.Base.{
  ℕ, ◌+◌, ◌*◌, ◌/◌, ◌%◌, ◌^◌, ◌==◌, if◌then◌else◌, Bool, ◌&&◌, bit_or, sext16, u16, u32, shr, List,
  Run, ok, fault, ◌>>=◌,
}
use gandiva.Coremark.List.{Heap}
use gandiva.Coremark.List.Sort.{Sorted}
use gandiva.Coremark.List.Init.{core_list_init}
use gandiva.Coremark.Matrix.Init.{Prepared, core_init_matrix}
use gandiva.Coremark.State.Input.{core_init_state}

-- get_seed_32 of core_util.c, on the five volatile variables of core_portme.c.
pub record Volatiles : Type 0 where
  pub seed1 : ℕ
  pub seed2 : ℕ
  pub seed3 : ℕ
  pub seed4 : ℕ
  pub seed5 : ℕ

unfoldable pub get_seed_32 : Volatiles → ℕ → ℕ
get_seed_32 v i =
    if i == 1
    then v.seed1
    else (if i == 2
        then v.seed2
        else (if i == 3
            then v.seed3
            else (if i == 4 then v.seed4 else (if i == 5 then v.seed5 else 0))))

-- (ee_s16) get_seed_32(x)
abbrev pub get_seed : Volatiles → ℕ → ℕ
get_seed v i = u16 (get_seed_32 v i)

pub record Seeds : Type 0 where
  pub seed1 : ℕ
  pub seed2 : ℕ
  pub seed3 : ℕ
  pub iterations : ℕ
  pub execs : ℕ

abbrev pub all_algorithms_mask : ℕ
all_algorithms_mask = 7

unfoldable pub read_seeds : Volatiles → Seeds
read_seeds v = record {
  seed1 = get_seed v 1;
  seed2 = get_seed v 2;
  seed3 = get_seed v 3;
  iterations = get_seed_32 v 4;
  execs = if get_seed_32 v 5 == 0 then all_algorithms_mask else get_seed_32 v 5;
}

abbrev pub performance_run : Seeds → Seeds
performance_run s = record s { seed1 = 0; seed2 = 0; seed3 = 0x66 }

abbrev pub validation_run : Seeds → Seeds
validation_run s = record s { seed1 = 0x3415; seed2 = 0x3415; seed3 = 0x66 }

-- The default values, one test after the other.
unfoldable pub default_seeds : Seeds → Seeds
default_seeds s =
    let t = if (s.seed1 == 0) && (s.seed2 == 0) && (s.seed3 == 0) then performance_run s else s in
    if (t.seed1 == 1) && (t.seed2 == 0) && (t.seed3 == 0) then validation_run t else t

abbrev pub total_data_size : ℕ
total_data_size = 2000

-- (1 << i) & execs
abbrev pub executes : ℕ → ℕ → Bool
executes execs i = shr execs i % 2 == 1

abbrev pub one_if : Bool → ℕ
one_if b = if b then 1 else 0

unfoldable pub num_algorithms : ℕ → ℕ
num_algorithms execs =
    one_if (executes execs 0) + one_if (executes execs 1) + one_if (executes execs 2)

-- `size / num_algorithms`, where a mask without algorithms divides by zero.
unfoldable pub block_size : ℕ → Run ℕ
block_size execs =
    if num_algorithms execs == 0 then fault else ok (total_data_size / num_algorithms execs)

-- memblock[i + 1] of each algorithm that is executed: the block is cut in order.
pub record Memblocks : Type 0 where
  pub list : ℕ
  pub matrix : ℕ
  pub state : ℕ

unfoldable pub assign_blocks : ℕ → ℕ → ℕ → Memblocks
assign_blocks execs memblock size =
    let after_list = one_if (executes execs 0) in
    record {
      list = memblock;
      matrix = u32 (memblock + size * after_list);
      state = u32 (memblock + size * (after_list + one_if (executes execs 1)));
    }

-- (ee_s32)seed1 | (((ee_s32)seed2) << 16)
abbrev pub matrix_seed : Seeds → ℕ
matrix_seed s = bit_or (sext16 s.seed1) (u32 (sext16 s.seed2 * 2 ^ 16))

-- What the three calls of the init functions leave. An algorithm that is not executed is not
-- prepared: what stood there before is kept.
pub record Ready : Type 0 where
  pub list : Sorted
  pub matrix : Prepared
  pub state : List ℕ

unfoldable pub init_list : ℕ → Seeds → ℕ → ℕ → Sorted → Run Sorted
init_list fuel s size at old =
    if executes s.execs 0 then core_list_init fuel size at s.seed1 old.heap else ok old

unfoldable pub init_matrix : Seeds → ℕ → ℕ → Prepared → Run Prepared
init_matrix s size at old =
    if executes s.execs 1 then core_init_matrix size at (matrix_seed s) old.a old.b else ok old

unfoldable pub init_state : Seeds → ℕ → List ℕ → Run (List ℕ)
init_state s size old = if executes s.execs 2 then core_init_state size s.seed1 old else ok old

unfoldable pub call_inits : ℕ → Seeds → ℕ → Ready → Run Ready
call_inits fuel s memblock old = block_size s.execs >>= λ size.
    let at = assign_blocks s.execs memblock size in
    init_list fuel s size at.list old.list >>= λ list.
    init_matrix s size at.matrix old.matrix >>= λ matrix. init_state s size old.state >>= λ state.
    ok (record { list = list; matrix = matrix; state = state })
