-- ===== src/Rtos/Halt.antt =====
-- rtos/bsp/bsp.c: the ends of a simulation, and the handlers that lead to them.
use gandiva.Base.{
  ℕ, ◌≡◌, refl, List, [], ◌∷◌, ◌++◌, codes, Bool, true, false, arith, not, ◌&&◌, ◌==◌, Run, ok,
  ◌>>=◌,
}
use gandiva.Rtos.Console.{uart_puts, uart_putdec}

-- What was sent, and the value written to TOHOST before the endless loop.
pub record Halted : Type 0 where
  pub sent : List ℕ
  pub tohost : ℕ

abbrev pub sim_pass : List ℕ → Halted
sim_pass sent = record { sent = sent; tohost = 1 }

abbrev pub sim_fail : List ℕ → Halted
sim_fail sent = record { sent = sent; tohost = 2 }

-- A string that the compiler ends with a NUL.
abbrev pub text_of : List ℕ → List ℕ
text_of s = s ++ 0 ∷ []

unfoldable pub v_assert_called : List ℕ → ℕ → Run Halted
v_assert_called file line = uart_puts (text_of (codes "\n[ASSERT] ")) >>= λ head.
    uart_puts file >>= λ name.
    uart_putdec line >>= λ number. ok (sim_fail (head ++ name ++ 0x3a ∷ number ++ 0x0a ∷ []))

-- freertos_risc_v_application_exception_handler
unfoldable pub exception_handler : Run Halted
exception_handler =
    uart_puts (text_of (codes "\n[TRAP] unexpected exception\n")) >>= λ sent. ok (sim_fail sent)

-- freertos_risc_v_application_interrupt_handler
unfoldable pub interrupt_handler : Run Halted
interrupt_handler =
    uart_puts (text_of (codes "\n[TRAP] unexpected interrupt\n")) >>= λ sent. ok (sim_fail sent)

abbrev pub no_nul : List ℕ → Bool
no_nul [] = true
no_nul (c ∷ s) = not (c == 0) && no_nul s

uart_puts-text_of : (s : List ℕ) → no_nul s ≡ true → uart_puts (text_of s) ≡ ok s
unfolding uart_puts
uart_puts-text_of [] none = refl
uart_puts-text_of (c ∷ s) none =
    let nonzero : (c == 0) ≡ false = ground arith in
    rw (nonzero, uart_puts-text_of s (ground arith)) refl

-- A failed assertion sends the name of the file and the number of the line, as uart_putdec prints
-- it as a signed number, and ends the simulation as failed.
pub v_assert_called_lem :
    (file : List ℕ) (line : ℕ) (number : List ℕ)
    → no_nul file ≡ true
    → uart_putdec line ≡ ok number
    → v_assert_called (text_of file) line
      ≡ ok (sim_fail (codes "\n[ASSERT] " ++ file ++ 0x3a ∷ number ++ 0x0a ∷ []))
unfolding v_assert_called
v_assert_called_lem file line number none e =
    rw (uart_puts-text_of (codes "\n[ASSERT] ") refl, uart_puts-text_of file none, e) refl
