-- ===== src/Tests/Text.antt =====
-- Numbers as text, at concrete numbers.
use gandiva.Base.{ℕ, ◌-◌, ◌^◌, ◌≤◌, ◌<◌, ◌≡◌, ◌⊎◌, refl, arith, List, [], ◌∷◌, ◌++◌, some, ok}
use gandiva.Coremark.Printf.{skip_atoi, number}
use gandiva.Coremark.Printf.Decimal.{skip_atoi-number}
use gandiva.Rtos.Console.{uart_putdec}
use gandiva.Rtos.Console.Decimal.{IsDecimal, uart_putdec_lem}

skip_atoi-number_example :
    (text : List ℕ) × (number 1204 10 6 5 1 ≡ ok (some text))
    × (skip_atoi 0 (text ++ 0x20 ∷ []) ≡ ok (1204, 0x20 ∷ []))
skip_atoi-number_example = skip_atoi-number 1204 6 5 0x20 [] (omega arith) refl

uart_putdec_lem_example :
    (text : List ℕ) × (((0xffff_ff85 < 2 ^ 31)
        × (uart_putdec 0xffff_ff85 ≡ ok text)
        × IsDecimal 0xffff_ff85 text)
      ⊎ ((2 ^ 31 ≤ 0xffff_ff85)
          × (uart_putdec 0xffff_ff85 ≡ ok (0x2d ∷ text))
          × IsDecimal (2 ^ 32 - 0xffff_ff85) text))
uart_putdec_lem_example = uart_putdec_lem 0xffff_ff85 (omega arith)
