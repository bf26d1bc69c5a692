-- ===== src/Tests/Main.antt =====
-- The cut of the memory block for two algorithms, and the errors of a validation run.
use gandiva.Base.{
  ◌+◌, ◌*◌, ◌/◌, ◌<◌, ◌++◌, codes, [], ◌∷◌, ℕ, ◌≡◌, ◌↔◌, refl, arith, none, some, ok, fault, ◌%◌,
}
use gandiva.Coremark.Main.Setup.{Seeds, total_data_size, block_size, assign_blocks}
use gandiva.Coremark.Main.Setup.Blocks.{
  Within, Apart, block_at, assign_blocks_disjoint, block_size_fault,
}
use gandiva.Coremark.Main.Report.{Crcs, Sizes, seedcrc, known_id, total_errors}
use gandiva.Coremark.Main.Report.Valid.{AllAgree}
use gandiva.Coremark.Printf.Format.{word}
use gandiva.Coremark.Main.Report.Figures.{figures_lem}
use gandiva.Coremark.Main.Report.Print.{
  Reported, call, figures, verdict, validated, detected, cannot_validate,
}
use gandiva.Coremark.Main.Report.Verdict.{total_errors-verdict}

assign_blocks_disjoint_example :
    (size : ℕ) × (block_size 6 ≡ ok size)
    × Within 4096 total_data_size (block_at (assign_blocks 6 4096 size) 1) size
    × Within 4096 total_data_size (block_at (assign_blocks 6 4096 size) 2) size
    × Apart (block_at (assign_blocks 6 4096 size) 1) (block_at (assign_blocks 6 4096 size) 2) size
assign_blocks_disjoint_example =
    assign_blocks_disjoint 6 4096 1 2 (omega arith) (omega arith) (λ e. omega arith) refl refl
      (omega arith)

block_size_fault_example : (block_size 8 ≡ fault) ↔ (8 % 8 ≡ 0)
block_size_fault_example = block_size_fault 8

abbrev seeds : Seeds
seeds = record { seed1 = 0x3415; seed2 = 0x3415; seed3 = 0x66; iterations = 1; execs = 7 }

abbrev crcs : Crcs
crcs = record { crclist = 0xe3c1; crcmatrix = 0x0747; crcstate = 0x8d84 }

abbrev sizes : Sizes
sizes = record {
  ee_u8 = 1;
  ee_u16 = 2;
  ee_s16 = 2;
  ee_s32 = 4;
  ee_u32 = 4;
  ee_ptr_int = 4;
  int_pointer = 4;
}

total_errors-verdict_example :
    (n : ℕ) × (total_errors seeds 666 crcs sizes ≡ ok n)
    × ((id : ℕ)
        → known_id (seedcrc seeds 666) ≡ some id
        → AllAgree 7 crcs id
        → verdict n ≡ validated ∷ [])
    × ((id : ℕ)
        → known_id (seedcrc seeds 666) ≡ some id
        → ¬ AllAgree 7 crcs id
        → verdict n ≡ detected ∷ [])
    × (known_id (seedcrc seeds 666) ≡ none → verdict n ≡ cannot_validate ∷ [])
total_errors-verdict_example =
    total_errors-verdict seeds 666 crcs sizes (refl, refl, refl, refl, refl, refl)

abbrev reported : Reported
reported = record {
  size = 666;
  total_time = 3500000;
  iterations = 10;
  execs = 7;
  seedcrc = 0x18f2;
  crclist = 0xe3c1;
  crcmatrix = 0x0747;
  crcstate = 0x8d84;
  crc = 0;
  compiler_version = codes "GCC" ++ 0 ∷ [];
  compiler_flags = codes "-O2" ++ 0 ∷ [];
  mem_location = codes "DRAM" ++ 0 ∷ [];
}

figures_lem_example :
    (whole : ℕ) × (part : ℕ) × (figures reported
      ≡ ok (
          call (codes "CoreMark Size    : %lu\n") (word 666 ∷ [])
          ∷ call (codes "Total ticks      : %lu\n") (word 3500000 ∷ [])
          ∷ call (codes "Total cycles     : %lu\n") (word 3500000 ∷ [])
          ∷ call (codes "Cycles/Iteration : %lu\n") (word (3500000 / 10) ∷ [])
          ∷ call (codes "CoreMark/MHz     : %lu.%02lu\n") (word whole ∷ word part ∷ [])
          ∷ []))
    × (whole * 100 + part ≡ 10 * 100000000 / 3500000)
    × (part < 100)
figures_lem_example = figures_lem reported (λ e. omega arith) (λ e. omega arith) (omega arith)
