-- ===== src/Embench/Cycles.antt =====
-- What a measured run sends: the digits of print_uint, and the cycles of _exit.
use gandiva.Base.{
  ℕ, zero, suc, ◌+◌, ◌-◌, ◌/◌, ◌%◌, ◌^◌, ◌≤◌, ◌<◌, ◌≡◌, refl, ap, ◌∙◌, arith, inl, inr, Bool-cases,
  ◌==◌, leb, Bool, true, false, ◌&&◌, List, [], ◌∷◌, ◌++◌, append_assoc, append-nil, codes, u8, u32,
  ok,
}
use gandiva.Rtos.Console
use gandiva.Rtos.Console.Decimal.{all_digits, IsDecimal, fill_buf-IsDecimal}
use gandiva.Embench.{
  Board, uart_putc, uart_puts, literal, fill_buf, send_buf, print_uint, elapsed, exit,
}

-- The board after the text `s` was sent.
abbrev pub after : List ℕ → Board → Board
after s b = record b { sent = b.sent ++ s }

-- A byte other than NUL.
abbrev pub is_byte : ℕ → Bool
is_byte c = leb 1 c && leb c 0xff

abbrev pub all_bytes : List ℕ → Bool
all_bytes [] = true
all_bytes (c ∷ s) = is_byte c && all_bytes s

after_one : (c : ℕ) (s : List ℕ) (b : Board) → u8 c ≡ c → after s (uart_putc c b) ≡ after (c ∷ s) b
unfolding uart_putc
after_one c s b e = rw (e, append_assoc b.sent (c ∷ []) s) refl

pub uart_puts-literal :
    (s : List ℕ) (b : Board) → all_bytes s ≡ true → uart_puts (literal s) b ≡ ok (after s b)
unfolding uart_puts
uart_puts-literal [] b bytes = rw (append-nil b.sent) refl
uart_puts-literal (c ∷ s) b bytes =
    let e : u8 c ≡ c = ground arith in
    let nonzero : (c == 0) ≡ false = ground arith in
    rw nonzero
      (uart_puts-literal s (uart_putc c b) (ground arith) ∙ ap (λ d. ok d) (after_one c s b e))

send_buf-after : (s : List ℕ) (b : Board) → all_digits s ≡ true → send_buf s b ≡ after s b
unfolding send_buf
send_buf-after [] b digits = rw (append-nil b.sent) refl
send_buf-after (c ∷ s) b digits =
    let e : u8 c ≡ c = ground arith in
    send_buf-after s (uart_putc c b) (ground arith) ∙ after_one c s b e

-- The digits are made as uart_putdec of rtos/bsp makes them.
fill_buf_same : (room v : ℕ) (acc : List ℕ) → fill_buf room v acc ≡ Console.fill_buf room v acc
unfolding fill_buf Console.fill_buf
fill_buf_same zero v acc = refl
fill_buf_same (suc room) v acc = rw (fill_buf_same room (v / 10) ((0x30 + v % 10) ∷ acc)) refl

print_uint-after :
    (v : ℕ)
    → v < 2 ^ 32
    → (text : List ℕ) × ((b : Board) → print_uint v b ≡ ok (after text b)) × IsDecimal v text
unfolding print_uint uart_putc
print_uint-after v small = elim (Bool-cases (v == 0)) [
  | inl is_zero ↦
      let e : v ≡ 0 = ground arith in
      rw e (0x30 ∷ [], λ b. refl, record { canonical = refl; digits_only = refl; value = refl })
  | inr more ↦
      let (out, e, is) = fill_buf-IsDecimal v (ground arith) small in
      (out, λ b. rw (more, fill_buf_same 12 v [], e, send_buf-after out b is.digits_only) refl, is)
]

-- The difference of the 64-bit counts, cut to 32 bits, is that of the lower words.
elapsed_low :
    (a c : ℕ) (b : Board)
    → b.start_cycles_lo ≡ a % 2 ^ 32
    → b.stop_cycles_lo ≡ c % 2 ^ 32
    → b.start_cycles_hi < 2 ^ 32
    → a ≤ c
    → c < a + 2 ^ 32
    → elapsed b ≡ c - a
unfolding elapsed
elapsed_low a c b start stop hi le near = omega arith

-- What _exit sends, from what its two numbers are printed as.
exit_sends :
    (code n : ℕ) (text number : List ℕ) (b : Board)
    → elapsed b ≡ n
    → ((d : Board) → print_uint (u32 code) d ≡ ok (after text d))
    → ((d : Board) → print_uint n d ≡ ok (after number d))
    → exit code b
      ≡ ok (record b {
        sent = ((((b.sent ++ codes "RET=") ++ text) ++ codes "\nCYCLES=") ++ number) ++ codes "\n";
        tohost = 1;
      })
unfolding exit
exit_sends code n text number b e first second =
    let b₁ = after (codes "RET=") b in
    let b₂ = after text b₁ in
    let b₃ = after (codes "\nCYCLES=") b₂ in
    let b₄ = after number b₃ in
    rw
      (
        uart_puts-literal (codes "RET=") b refl,
        first b₁,
        uart_puts-literal (codes "\nCYCLES=") b₂ refl,
        e,
        second b₃,
        uart_puts-literal (codes "\n") b₄ refl,
      )
      refl

-- _exit after a run that began at the cycle `a` and ended at the cycle `c`, less than 2^32 cycles
-- later, when the lower words of the counter are those of these cycles and whatever its upper
-- words are: it sends RET= with the decimal digits of the code and CYCLES= with those of
-- the number of cycles between them, each of at least one digit, without leading zeros, and with
-- the end of its line, and writes 1 to tohost.
pub exit_lem :
    (code a c : ℕ) (b : Board)
    → b.start_cycles_lo ≡ a % 2 ^ 32
    → b.stop_cycles_lo ≡ c % 2 ^ 32
    → b.start_cycles_hi < 2 ^ 32
    → a ≤ c
    → c < a + 2 ^ 32
    → (text : List ℕ) × (number : List ℕ) × (exit code b
        ≡ ok (record b {
          sent =
              ((((b.sent ++ codes "RET=") ++ text) ++ codes "\nCYCLES=") ++ number) ++ codes "\n";
          tohost = 1;
        }))
      × IsDecimal (u32 code) text
      × IsDecimal (c - a) number
exit_lem code a c b start stop hi le near =
    let (text, first, is) = print_uint-after (u32 code) (omega arith) in
    let (number, second, is') = print_uint-after (c - a) (omega arith) in
    (
      text,
      number,
      exit_sends code (c - a) text number b (elapsed_low a c b start stop hi le near) first second,
      is,
      is',
    )
