-- ===== src/Tests/Embench.antt =====
-- The Embench board support: a run of 600 cycles over a wrap-around of the lower word, and a clock
-- that is read once in a million cycles.
use gandiva.Base.{
  ℕ, ◌+◌, ◌-◌, ◌*◌, ◌%◌, ◌^◌, ◌<◌, ◌≤◌, ◌≡◌, refl, arith, u32, List, [], ◌++◌, codes, ok,
}
use gandiva.Rtos.Console.Decimal.{IsDecimal}
use gandiva.Embench.{Board, delay, wait_loop, initialise_board, exit}
use gandiva.Embench.Start.{initialise_board_waits}
use gandiva.Embench.Cycles.{exit_lem}

abbrev board : Board
board = record {
  sent = [];
  start_cycles_lo = 0xffffff00;
  start_cycles_hi = 0;
  stop_cycles_lo = 344;
  stop_cycles_hi = 1;
  tohost = 0;
}

exit_lem_example :
    (text : List ℕ) × (number : List ℕ) × (exit 7 board
      ≡ ok (record board {
        sent = (((([] ++ codes "RET=") ++ text) ++ codes "\nCYCLES=") ++ number) ++ codes "\n";
        tohost = 1;
      }))
    × IsDecimal (u32 7) text
    × IsDecimal (0x100000158 - 0xffffff00) number
exit_lem_example =
    exit_lem 7 0xffffff00 0x100000158 board refl refl (omega arith) (omega arith) (omega arith)

abbrev clock : ℕ → ℕ
clock k = k * 1000000

goes_on : (k : ℕ) → clock k < clock (k + 1)
goes_on k = omega arith

not_far : (k : ℕ) → clock (k + 1) + delay < clock k + 2 ^ 32
not_far k = omega arith

initialise_board_waits_example :
    (k : ℕ) × (wait_loop 50000001 (λ i. clock i % 2 ^ 32) (clock 0 % 2 ^ 32) 1 ≡ ok k)
    × (clock 0 + delay < clock k)
    × ((j : ℕ) → j < k → clock j ≤ clock 0 + delay)
    × (initialise_board 50000001 (λ i. clock i % 2 ^ 32) board
        ≡ ok (record board { sent = [] ++ codes "BOOT\n" }))
initialise_board_waits_example =
    initialise_board_waits 50000001 clock board (omega arith) goes_on not_far
