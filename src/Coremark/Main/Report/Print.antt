-- ===== src/Coremark/Main/Report/Print.antt =====
-- What the last part of main in coremark/src/core_main.c prints, as the calls of ee_printf, for one
-- context and without HAS_FLOAT.
use gandiva.Base.{
  ℕ, ◌*◌, ◌/◌, ◌%◌, ◌==◌, ltb, if◌then◌else◌, not, ◌&&◌, neg16, u32, Option, none, some, List, [],
  ◌∷◌, ◌++◌, codes, Run, ok, fault, ◌>>=◌,
}
use gandiva.Coremark.Printf.Format.{Arg, word, bytes, ee_printf}
use gandiva.Coremark.Main.Setup.{executes}
use gandiva.Coremark.Main.Report.{
  time_in_secs, Crcs, known_at, list_known_crc, matrix_known_crc, state_known_crc,
}

-- A call of ee_printf.
pub record Call : Type 0 where
  pub fmt : List ℕ
  pub args : List Arg

abbrev pub call : List ℕ → List Arg → Call
call fmt args = record { fmt = fmt; args = args }

-- What the report is about. The texts are those of the macros that the build defines.
pub record Reported : Type 0 where
  pub size : ℕ
  pub total_time : ℕ
  pub iterations : ℕ
  pub execs : ℕ
  pub seedcrc : ℕ
  pub crclist : ℕ
  pub crcmatrix : ℕ
  pub crcstate : ℕ
  pub crc : ℕ
  pub compiler_version : List ℕ
  pub compiler_flags : List ℕ
  pub mem_location : List ℕ

abbrev pub divided : ℕ → ℕ → Run ℕ
divided a b = if b == 0 then fault else ok (a / b)

-- The sizes and times, up to the score.
unfoldable pub figures : Reported → Run (List Call)
figures r = divided r.total_time r.iterations >>= λ cycles.
    divided (r.iterations * 1000000) r.total_time >>= λ whole.
    divided (r.iterations * 100000000) r.total_time >>= λ part. ok (
      call (codes "CoreMark Size    : %lu\n") (word r.size ∷ [])
      ∷ call (codes "Total ticks      : %lu\n") (word r.total_time ∷ [])
      ∷ call (codes "Total cycles     : %lu\n") (word r.total_time ∷ [])
      ∷ call (codes "Cycles/Iteration : %lu\n") (word cycles ∷ [])
      ∷ call (codes "CoreMark/MHz     : %lu.%02lu\n")
          (word (u32 whole) ∷ word (u32 (part % 100)) ∷ [])
      ∷ [])

unfoldable pub seconds : Reported → List Call
seconds r =
    let secs = time_in_secs r.total_time in
    call (codes "Total time (secs): %d\n") (word secs ∷ [])
    ∷ (if ltb 0 secs
        then call (codes "Iterations/Sec   : %d\n") (word (r.iterations / secs) ∷ []) ∷ []
        else [])

unfoldable pub settings : Reported → List Call
settings r =
    call (codes "Iterations       : %lu\n") (word r.iterations ∷ [])
    ∷ call (codes "Compiler version : %s\n") (bytes (some r.compiler_version) ∷ [])
    ∷ call (codes "Compiler flags   : %s\n") (bytes (some r.compiler_flags) ∷ [])
    ∷ call (codes "Memory location  : %s\n") (bytes (some r.mem_location) ∷ [])
    ∷ call (codes "seedcrc          : 0x%04x\n") (word r.seedcrc ∷ [])
    ∷ []

-- The line of an algorithm that is executed.
unfoldable pub crc_line : ℕ → ℕ → List ℕ → ℕ → List Call
crc_line execs i fmt crc = if executes execs i then call fmt (word 0 ∷ word crc ∷ []) ∷ [] else []

unfoldable pub crc_lines : Reported → List Call
crc_lines r =
    crc_line r.execs 0 (codes "[%d]crclist       : 0x%04x\n") r.crclist
    ++ crc_line r.execs 1 (codes "[%d]crcmatrix     : 0x%04x\n") r.crcmatrix
    ++ crc_line r.execs 2 (codes "[%d]crcstate      : 0x%04x\n") r.crcstate
    ++ call (codes "[%d]crcfinal      : 0x%04x\n") (word 0 ∷ word r.crc ∷ []) ∷ []

abbrev pub validated : Call
validated =
    call (codes "Correct operation validated. See README.md for run and reporting rules.\n") []

abbrev pub detected : Call
detected = call (codes "Errors detected\n") []

abbrev pub cannot_validate : Call
cannot_validate =
    call
      (codes
        "Cannot validate operation for these seed values, please compare with results on a known platform.\n")
      []

-- The three tests of total_errors.
unfoldable pub verdict : ℕ → List Call
verdict total_errors =
    (if total_errors == 0 then validated ∷ [] else [])
    ++ (if not (neg16 total_errors) && not (total_errors == 0) then detected ∷ [] else [])
    ++ (if neg16 total_errors then cannot_validate ∷ [] else [])

unfoldable pub report : Reported → ℕ → Run (List Call)
report r total_errors = figures r >>= λ lines.
    ok (lines ++ seconds r ++ settings r ++ crc_lines r ++ verdict total_errors)

-- The calls one after the other: what is sent.
unfoldable pub print_all : ℕ → List Call → Run (List ℕ)
print_all fuel [] = ok []
print_all fuel (c ∷ calls) = ee_printf fuel (c.fmt ++ 0 ∷ []) c.args >>= λ printed.
    print_all fuel calls >>= λ rest. ok (printed.0 ++ rest)

-- The line of the switch on seedcrc.
unfoldable pub run_line : Option ℕ → List Call
run_line none = []
run_line (some id) =
    if id == 0
    then call (codes "6k performance run parameters for coremark.\n") [] ∷ []
    else (if id == 1
        then call (codes "6k validation run parameters for coremark.\n") [] ∷ []
        else (if id == 2
            then call (codes "Profile generation run parameters for coremark.\n") [] ∷ []
            else (if id == 3
                then call (codes "2K performance run parameters for coremark.\n") [] ∷ []
                else call (codes "2K validation run parameters for coremark.\n") [] ∷ [])))

-- The line of an algorithm whose CRC is not the known one.
unfoldable pub error_line : ℕ → ℕ → List ℕ → ℕ → ℕ → List Call
error_line execs i fmt crc known =
    if executes execs i && not (crc == known)
    then call fmt (word 0 ∷ word crc ∷ word known ∷ []) ∷ []
    else []

unfoldable pub error_lines : ℕ → Crcs → Option ℕ → Run (List Call)
error_lines execs c none = ok []
error_lines execs c (some id) = known_at list_known_crc id >>= λ list.
    known_at matrix_known_crc id >>= λ matrix. known_at state_known_crc id >>= λ state. ok (
      error_line execs 0 (codes "[%u]ERROR! list crc 0x%04x - should be 0x%04x\n") c.crclist list
      ++ error_line execs 1 (codes "[%u]ERROR! matrix crc 0x%04x - should be 0x%04x\n") c.crcmatrix
          matrix
      ++ error_line execs 2 (codes "[%u]ERROR! state crc 0x%04x - should be 0x%04x\n") c.crcstate
          state)
