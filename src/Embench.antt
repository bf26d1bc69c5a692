-- ===== src/Embench.antt =====
-- embench/config/gandiva/boardsupport.c: the support that an Embench program runs with. The two words
-- of the cycle counter come from the hardware, and the bytes that uart_putc sends are a list, in
-- order.
pub mod Cycles
pub mod Start
use gandiva.Base.{
  ℕ, zero, suc, ◌+◌, ◌-◌, ◌*◌, ◌/◌, ◌%◌, ◌^◌, ◌==◌, ltb, if◌then◌else◌, List, [], ◌∷◌, ◌++◌, codes,
  u8, u32, Run, ok, fault, out_of_fuel, ◌>>=◌,
}

pub record Board : Type 0 where
  pub sent : List ℕ
  pub start_cycles_lo : ℕ
  pub start_cycles_hi : ℕ
  pub stop_cycles_lo : ℕ
  pub stop_cycles_hi : ℕ
  pub tohost : ℕ

unfoldable pub uart_putc : ℕ → Board → Board
uart_putc c b = record b { sent = b.sent ++ u8 c ∷ [] }

-- The text from the pointer on: one without a NUL faults.
unfoldable pub uart_puts : List ℕ → Board → Run Board
uart_puts [] b = fault
uart_puts (c ∷ s) b = let rest = uart_puts s (uart_putc c b) in if c == 0 then ok b else rest

-- A text that the compiler ends with a NUL.
abbrev pub literal : List ℕ → List ℕ
literal s = s ++ 0 ∷ []

-- while (v), with `room` bytes left in buf. The digits that are in buf are `acc`, the last one
-- first.
unfoldable pub fill_buf : ℕ → ℕ → List ℕ → Run (List ℕ)
fill_buf zero v acc = if v == 0 then ok acc else fault
fill_buf (suc room) v acc =
    let rest = fill_buf room (v / 10) ((0x30 + v % 10) ∷ acc) in if v == 0 then ok acc else rest

-- for (int i = n - 1; i >= 0; i--)
unfoldable pub send_buf : List ℕ → Board → Board
send_buf [] b = b
send_buf (c ∷ buf) b = send_buf buf (uart_putc c b)

unfoldable pub print_uint : ℕ → Board → Run Board
print_uint v b =
    if v == 0 then ok (uart_putc 0x30 b) else fill_buf 12 v [] >>= λ buf. ok (send_buf buf b)

-- The cycles that initialise_board waits for.
abbrev pub delay : ℕ
delay = 50000000

-- The loop of initialise_board, with the value of mcycle in each round; the result is the last one.
unfoldable pub wait_loop : ℕ → (ℕ → ℕ) → ℕ → ℕ → Run ℕ
wait_loop zero mcycle start_lo k = out_of_fuel
wait_loop (suc fuel) mcycle start_lo k =
    let rest = wait_loop fuel mcycle start_lo (k + 1) in
    if ltb delay (u32 (mcycle k + 2 ^ 32 - start_lo)) then ok k else rest

-- The first reading is `start_lo`.
unfoldable pub initialise_board : ℕ → (ℕ → ℕ) → Board → Run Board
initialise_board fuel mcycle b =
    wait_loop fuel mcycle (mcycle 0) 1 >>= λ k. uart_puts (literal (codes "BOOT\n")) b

unfoldable pub start_trigger : ℕ → ℕ → Board → Run Board
start_trigger mcycle mcycleh b = uart_puts (literal (codes "START\n")) b >>= λ b'.
    ok (record b' { start_cycles_lo = mcycle; start_cycles_hi = mcycleh })

unfoldable pub stop_trigger : ℕ → ℕ → Board → Board
stop_trigger mcycle mcycleh b = record b { stop_cycles_lo = mcycle; stop_cycles_hi = mcycleh }

-- ((uint64_t)hi << 32) | lo
abbrev pub cycles : ℕ → ℕ → ℕ
cycles hi lo = hi * 2 ^ 32 + lo

unfoldable pub elapsed : Board → ℕ
elapsed b = u32 (
    (cycles b.stop_cycles_hi b.stop_cycles_lo + 2 ^ 64 - cycles b.start_cycles_hi b.start_cycles_lo)
    % 2 ^ 64)

-- _exit, up to its endless loop.
unfoldable pub exit : ℕ → Board → Run Board
exit code b = uart_puts (literal (codes "RET=")) b >>= λ b₁. print_uint (u32 code) b₁ >>= λ b₂.
    uart_puts (literal (codes "\nCYCLES=")) b₂ >>= λ b₃. print_uint (elapsed b) b₃ >>= λ b₄.
    uart_puts (literal (codes "\n")) b₄ >>= λ b₅. ok (record b₅ { tohost = 1 })
