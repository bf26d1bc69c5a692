-- ===== src/Rtos/Console.antt =====
-- rtos/bsp/bsp.c: text on the UART. The bytes that uart_putc sends are a list, in order.
pub mod Decimal
use gandiva.Base.{
  ℕ, zero, suc, ◌+◌, ◌*◌, ◌/◌, ◌%◌, ◌^◌, ◌==◌, if◌then◌else◌, List, [], ◌∷◌, ◌++◌, neg32, neg_u32,
  shr, low_bits, codes, Run, ok, fault, ◌>>=◌, load,
}

-- The text from the pointer on: one without a NUL faults.
unfoldable pub uart_puts : List ℕ → Run (List ℕ)
uart_puts [] = fault
uart_puts (c ∷ s) =
    let rest = uart_puts s >>= λ sent. ok (c ∷ sent) in if c == 0 then ok [] else rest

-- while( u ), with `room` bytes left in buf. The digits that are in buf are `acc`, the last one
-- first, which is the order that they are sent in.
unfoldable pub fill_buf : ℕ → ℕ → List ℕ → Run (List ℕ)
fill_buf zero u acc = if u == 0 then ok acc else fault
fill_buf (suc room) u acc =
    let rest = fill_buf room (u / 10) ((0x30 + u % 10) ∷ acc) in if u == 0 then ok acc else rest

unfoldable pub send_unsigned : ℕ → Run (List ℕ)
send_unsigned u = if u == 0 then ok (0x30 ∷ []) else fill_buf 12 u []

unfoldable pub uart_putdec : ℕ → Run (List ℕ)
uart_putdec v =
    if neg32 v then send_unsigned (neg_u32 v) >>= (λ sent. ok (0x2d ∷ sent)) else send_unsigned v

-- for( i = 28; i >= 0; i -= 4 ), from its last `n` rounds on.
unfoldable pub hex_loop : ℕ → ℕ → Run (List ℕ)
hex_loop zero v = ok []
hex_loop (suc n) v = load (codes "0123456789abcdef") (low_bits (shr v (4 * n)) 4) >>= λ c.
    hex_loop n v >>= λ sent. ok (c ∷ sent)

unfoldable pub uart_puthex : ℕ → Run (List ℕ)
uart_puthex v = hex_loop 8 v >>= λ sent. ok (codes "0x" ++ sent)
