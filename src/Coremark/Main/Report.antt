-- ===== src/Coremark/Main/Report.antt =====
-- The last part of main in coremark/src/core_main.c: the number of iterations, and the check of the
-- CRCs against the known ones. A signed 16-bit count is its pattern.
pub mod Figures
pub mod Print
pub mod Valid
pub mod Verdict
use gandiva.Base.{
  ℕ, zero, suc, ◌+◌, ◌-◌, ◌*◌, ◌/◌, ◌%◌, ◌^◌, ◌==◌, ltb, if◌then◌else◌, Bool, not, ◌&&◌, Option,
  none, some, List, [], ◌∷◌, get_elem?, u8, u16, u32, Run, ok, out_of_fuel, or_fault, ◌>>=◌,
}
use gandiva.Coremark.Crc.{crc16}
use gandiva.Coremark.Main.{Iterating, iterate}
use gandiva.Coremark.Main.Setup.{Seeds, executes}

abbrev pub ee_ticks_per_sec : ℕ
ee_ticks_per_sec = 50000000

-- time_in_secs, and get_time as the difference of two clock values.
abbrev pub time_in_secs : ℕ → ℕ
time_in_secs ticks = ticks / ee_ticks_per_sec

abbrev pub get_time : ℕ → ℕ → ℕ
get_time start stop = u32 (stop + 2 ^ 32 - start)

-- The clock before and after each round, from the hardware.
pub record Timed : Type 0 where
  pub start : ℕ
  pub stop : ℕ

-- while (secs_passed < 1): the iterations, the seconds of the last round, and what it leaves.
pub record Calibrated : Type 0 where
  pub iterations : ℕ
  pub secs_passed : ℕ
  pub state : Iterating

unfoldable pub calibrate_loop : List Timed → ℕ → ℕ → ℕ → ℕ → Iterating → Run Calibrated
calibrate_loop [] fuel list iterations secs s = out_of_fuel
calibrate_loop (t ∷ clock) fuel list iterations secs s =
    let rest = iterate fuel list (u32 (iterations * 10)) s.res s.heap >>= λ s'.
    calibrate_loop clock fuel list (u32 (iterations * 10)) (time_in_secs (get_time t.start t.stop))
      s' in
    if ltb secs 1
    then rest
    else ok (record { iterations = iterations; secs_passed = secs; state = s })

-- The iterations to run for, when none were given.
unfoldable pub set_iterations : Calibrated → ℕ
set_iterations c =
    let divisor = if c.secs_passed == 0 then 1 else c.secs_passed in
    u32 (c.iterations * (1 + 10 / divisor))

unfoldable pub seedcrc : Seeds → ℕ → ℕ
seedcrc s size = crc16 (u16 size) (crc16 s.seed3 (crc16 s.seed2 (crc16 s.seed1 0)))

-- The switch on seedcrc.
unfoldable pub known_id : ℕ → Option ℕ
known_id crc =
    if crc == 0x8a02
    then some 0
    else (if crc == 0x7b05
        then some 1
        else (if crc == 0x4eaf
            then some 2
            else (if crc == 0xe9f5 then some 3 else (if crc == 0x18f2 then some 4 else none))))

abbrev pub list_known_crc : List ℕ
list_known_crc = 0xd4b0 ∷ 0x3340 ∷ 0x6a79 ∷ 0xe714 ∷ 0xe3c1 ∷ []

abbrev pub matrix_known_crc : List ℕ
matrix_known_crc = 0xbe52 ∷ 0x1199 ∷ 0x5608 ∷ 0x1fd7 ∷ 0x0747 ∷ []

abbrev pub state_known_crc : List ℕ
state_known_crc = 0x5e47 ∷ 0x39bf ∷ 0xe5a4 ∷ 0x8e3a ∷ 0x8d84 ∷ []

-- The CRCs of a run that are checked.
pub record Crcs : Type 0 where
  pub crclist : ℕ
  pub crcmatrix : ℕ
  pub crcstate : ℕ

abbrev pub known_at : List ℕ → ℕ → Run ℕ
known_at table id = or_fault (get_elem? table id)

-- One of the three checks, on the number of errors so far.
unfoldable pub check_crc : Bool → ℕ → ℕ → ℕ → ℕ
check_crc runs crc known err = if runs && not (crc == known) then err + 1 else err

unfoldable pub count_errors : ℕ → Crcs → ℕ → Run ℕ
count_errors execs c id = known_at list_known_crc id >>= λ list.
    known_at matrix_known_crc id >>= λ matrix. known_at state_known_crc id >>= λ state. ok (
      check_crc (executes execs 2) c.crcstate state (
        check_crc (executes execs 1) c.crcmatrix matrix
          (check_crc (executes execs 0) c.crclist list 0)))

-- The sizes that check_data_types of core_util.c tests, as the compiler gives them.
pub record Sizes : Type 0 where
  pub ee_u8 : ℕ
  pub ee_u16 : ℕ
  pub ee_s16 : ℕ
  pub ee_s32 : ℕ
  pub ee_u32 : ℕ
  pub ee_ptr_int : ℕ
  pub int_pointer : ℕ

abbrev pub one_unless : ℕ → ℕ → ℕ
one_unless a b = if a == b then 0 else 1

unfoldable pub check_data_types : Sizes → ℕ
check_data_types s =
    one_unless s.ee_u8 1
    + one_unless s.ee_u16 2
    + one_unless s.ee_s16 2
    + one_unless s.ee_s32 4
    + one_unless s.ee_u32 4
    + one_unless s.ee_ptr_int s.int_pointer

unfoldable pub errors_of : Option ℕ → ℕ → Crcs → Sizes → Run ℕ
errors_of none execs c sizes = ok (u16 (0xffff + check_data_types sizes))
errors_of (some id) execs c sizes =
    count_errors execs c id >>= λ err. ok (u16 (err + check_data_types sizes))

-- total_errors: -1 for seeds that are not known, then the errors and those of the data types.
unfoldable pub total_errors : Seeds → ℕ → Crcs → Sizes → Run ℕ
total_errors s size c sizes = errors_of (known_id (seedcrc s size)) s.execs c sizes
