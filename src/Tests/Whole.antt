-- ===== src/Tests/Whole.antt =====
-- main with the list benchmark alone: the mask has the list only, whose block has room for 98 items,
-- and the blocks of the other two stand as they were.
use mathlib.Core.Path.{subst}
use gandiva.Base.{
  ℕ, zero, suc, ◌-◌, ◌^◌, ◌≤◌, ◌<◌, ◌≡◌, refl, sym, arith, true, ◌||◌, ltb, List, [], ◌∷◌, ◌++◌,
  length, get_or, none, ok,
}
use native.Mathlib.Nat.{mod-eq_of_lt}
use gandiva.Coremark.Calc.{Results}
use gandiva.Base.Bits.{all_below, all_below_sound}
use gandiva.Coremark.Calc.Caches.{IsReady}
use gandiva.Coremark.Matrix.Restore.{IsMatdat}
use gandiva.Coremark.List.{Heap}
use gandiva.Coremark.List.Sort.{Sorted}
use gandiva.Coremark.List.Init.{list_size, fresh_idx, core_list_init}
use gandiva.Coremark.List.Init.Ready.{IsList, core_list_init_lem}
use gandiva.Coremark.Main.{Iterating, iterate}
use gandiva.Coremark.Main.Setup.{
  Volatiles, Seeds, get_seed_32, read_seeds, default_seeds, num_algorithms, block_size, Ready,
  call_inits, init_list, init_matrix, init_state, assign_blocks,
}
use gandiva.Coremark.Main.Report.{total_errors}
use gandiva.Coremark.Main.Report.Print.{Call, verdict}
use gandiva.Coremark.Main.Whole.{Setting, results_of, crcs_of, main, conclude, main_lem}

abbrev volatiles : Volatiles
volatiles = record { seed1 = 0x3415; seed2 = 0x3415; seed3 = 0x66; seed4 = 1; seed5 = 1 }

abbrev seeds : Seeds
seeds = record { seed1 = 0x3415; seed2 = 0x3415; seed3 = 0x66; iterations = 1; execs = 1 }

seeds_read : default_seeds (read_seeds volatiles) ≡ seeds
unfolding default_seeds read_seeds get_seed_32
seeds_read = refl

sized : block_size 1 ≡ ok 2000
unfolding block_size num_algorithms
sized = refl

abbrev blank : Heap
blank = record { next = λ p. 0; info = λ p. 0; data16 = λ d. 0; idx = λ d. 0 }

blank_index : (d : ℕ) → blank.idx d < 2 ^ 16
blank_index d = omega arith

indices : all_below 98 (λ i. ltb i 1 || ltb 0 (fresh_idx 98 0x3415 i)) ≡ true
unfolding all_below fresh_idx
indices = refl

index_given : (i : ℕ) → 1 ≤ i → i < list_size 2000 → 0 < fresh_idx (list_size 2000) 0x3415 i
index_given i lo hi =
    let h = all_below_sound 98 (λ j. ltb j 1 || ltb 0 (fresh_idx 98 0x3415 j)) i indices hi in
    ground arith

abbrev zero_bytes : ℕ → List ℕ
zero_bytes zero = []
zero_bytes (suc n) = 0 ∷ zero_bytes n

zero_cell : (n j : ℕ) → get_or (zero_bytes n) j 0 ≡ 0
zero_cell zero j = refl
zero_cell (suc n) zero = refl
zero_cell (suc n) (suc j) = zero_cell n j

length-zero_bytes : (n : ℕ) → length (zero_bytes n) ≡ n
length-zero_bytes zero = refl
length-zero_bytes (suc n) = omega (arith, length-zero_bytes n)

abbrev cells : List ℕ
cells = 7 ∷ []

cells_small : IsMatdat cells
cells_small zero = omega arith
cells_small (suc m) = omega arith

-- A block of `size` zero bytes.
abbrev zeros : ℕ → Results
zeros size = record {
  size = size;
  memblock = zero_bytes size;
  seed1 = 0x3415;
  seed2 = 0x3415;
  seed3 = 0x66;
  n = 1;
  c = cells;
  a = cells;
  b = cells;
  crc = 0;
  crcstate = 0;
  crcmatrix = 0;
}

zeros-IsReady : (size : ℕ) → 2 ≤ size → IsReady (zeros size)
zeros-IsReady size two = record {
  same_seed = refl;
  in_block = omega (arith, length-zero_bytes size);
  keeps_end = λ step lo hi. (
    1,
    omega (arith, length-zero_bytes size),
    zero_cell size 1,
    ground (arith, mod-eq_of_lt {n = 1} {m = step}),
  );
  no_comma = λ step lo hi j lt hit ne. rw (zero_cell size j) (λ e. omega arith);
  room_c = omega arith;
  room_a = omega arith;
  room_b = omega arith;
  matdat = cells_small;
}

abbrev built :
    (out : Sorted) × (core_list_init 98 2000 8 0x3415 blank ≡ ok out)
    × (out.list ≡ 8)
    × IsList 8 (list_size 2000 - 1) out.heap
built =
    core_list_init_lem 98 2000 8 0x3415 blank (λ e. omega arith) (omega arith) (omega arith)
      (omega arith) (omega arith) blank_index index_given

abbrev made : Sorted
made = built.0

abbrev old : Ready
old = record {
  list = record { list = 0; heap = blank; res = none };
  matrix = record { params = record { n = 1; a = 0; b = 0; c = 0 }; a = cells; b = cells };
  state = zero_bytes 2000;
}

abbrev ready : Ready
ready = record old { list = made }

made-IsList : IsList made.list 97 made.heap
made-IsList = subst (λ p. IsList p 97 made.heap) (sym built.2) built.3

inits_with :
    (l : Sorted)
    → core_list_init 98 2000 8 0x3415 blank ≡ ok l
    → call_inits 98 seeds 8 old ≡ ok (record old { list = l })
unfolding call_inits init_list init_matrix init_state assign_blocks
inits_with l e = rw (sized, e) refl

abbrev setting : Setting
setting = record {
  sizes = record {
    ee_u8 = 1;
    ee_u16 = 2;
    ee_s16 = 2;
    ee_s32 = 4;
    ee_u32 = 4;
    ee_ptr_int = 4;
    int_pointer = 4;
  };
  compiler_version = [];
  compiler_flags = [];
  mem_location = [];
  calibration = [];
  timed = record { start = 0; stop = 100 };
  c = cells;
}

main_lem_example :
    (first : Iterating) × (last : Iterating) × (lines : List Call) × (n : ℕ) × (iterate 98 made.list
        1
        (results_of seeds 2000 cells ready)
        made.heap
      ≡ ok first)
    × (iterate 98 made.list seeds.iterations (results_of seeds 2000 cells ready) made.heap
        ≡ ok last)
    × (last.crclist ≡ first.crclist)
    × IsList made.list 97 last.heap
    × (total_errors seeds 2000 (crcs_of last) setting.sizes ≡ ok n)
    × (main 98 setting volatiles 8 old ≡ conclude setting seeds 2000 seeds.iterations last)
    × (main 98 setting volatiles 8 old ≡ ok (lines ++ verdict n))
main_lem_example =
    main_lem 98 setting volatiles 8 old ready seeds 2000 97 seeds_read sized
      (inits_with made built.1) (λ e. omega arith) (λ e. omega arith)
      (refl, refl, refl, refl, refl, refl) made-IsList (zeros-IsReady 2000 (omega arith))
      (omega arith) (omega arith) (omega arith)
