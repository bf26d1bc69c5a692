-- ===== src/Rtos/Console/Decimal.antt =====
-- uart_putdec and the value in base ten.
use gandiva.Base.{
  ℕ, zero, suc, ◌+◌, ◌-◌, ◌*◌, ◌/◌, ◌%◌, ◌^◌, ◌≤◌, ◌<◌, ◌≡◌, refl, arith, ◌⊎◌, inl, inr, Bool-cases,
  ◌==◌, leb, Bool, true, false, not, ◌&&◌, List, [], ◌∷◌, neg32, neg_u32, ok,
}
use gandiva.Rtos.Console.{fill_buf, send_unsigned, uart_putdec}

-- The value of a text of digits, behind digits of value `i`.
abbrev pub decimal_value : ℕ → List ℕ → ℕ
decimal_value i [] = i
decimal_value i (c ∷ s) = decimal_value (i * 10 + (c - 0x30)) s

abbrev pub all_digits : List ℕ → Bool
all_digits [] = true
all_digits (c ∷ s) = leb 0x30 c && leb c 0x39 && all_digits s

-- The text has a digit in front that is not 0.
abbrev pub begins : List ℕ → Bool
begins [] = false
begins (c ∷ s) = not (c == 0x30)

-- The text has a digit, and no 0 in front of another digit.
abbrev pub no_leading_zero : List ℕ → Bool
no_leading_zero [] = false
no_leading_zero (c ∷ []) = true
no_leading_zero (c ∷ d ∷ s) = not (c == 0x30)

begins-no_leading_zero : (s : List ℕ) → begins s ≡ true → no_leading_zero s ≡ true
begins-no_leading_zero [] e = e
begins-no_leading_zero (c ∷ []) e = refl
begins-no_leading_zero (c ∷ d ∷ s) e = e

fill_buf-decimal_value :
    (room u : ℕ) (acc : List ℕ)
    → u < 10 ^ room
    → all_digits acc ≡ true
    → (out : List ℕ) × (fill_buf room u acc ≡ ok out)
      × (all_digits out ≡ true)
      × (decimal_value 0 out ≡ decimal_value u acc)
      × (u ≡ 0 → out ≡ acc)
      × (0 < u → begins out ≡ true)
unfolding fill_buf
fill_buf-decimal_value zero u acc fits all =
    let e : u ≡ 0 = omega arith in
    rw e (acc, refl, all, refl, λ _. refl, λ pos. absurd (omega arith))
fill_buf-decimal_value (suc room) u acc fits all = elim (Bool-cases (u == 0)) [
  | inl none_left ↦
      let e : u ≡ 0 = ground arith in
      rw e (acc, refl, all, refl, λ _. refl, λ pos. absurd (omega arith))
  | inr more ↦
      let (out, e, all', value, ended, goes) =
        fill_buf-decimal_value room (u / 10) ((0x30 + u % 10) ∷ acc) (omega arith) (ground arith) in
      let back : u / 10 * 10 + (0x30 + u % 10 - 0x30) ≡ u = omega arith in
      let first : begins out ≡ true = elim (Bool-cases (leb 10 u)) [
        | inl many ↦ goes (ground arith)
        | inr few ↦
            let last : u / 10 ≡ 0 = ground arith in
            let digit : ((0x30 + u % 10) == 0x30) ≡ false = ground arith in
            rw (ended last, digit) refl
      ] in
      rw more (out, e, all', rw back at value, λ z. absurd (ground arith), λ _. first)
]

-- `text` is the decimal text of the value: it is not empty and has no leading zero.
pub record IsDecimal (u : ℕ) (text : List ℕ) : Type 0 where
  pub canonical : no_leading_zero text ≡ true
  pub digits_only : all_digits text ≡ true
  pub value : decimal_value 0 text ≡ u

pub fill_buf-IsDecimal :
    (u : ℕ) → 0 < u → u < 2 ^ 32 → (out : List ℕ) × (fill_buf 12 u [] ≡ ok out) × IsDecimal u out
fill_buf-IsDecimal u pos small =
    let (out, e, all, v, _, goes) = fill_buf-decimal_value 12 u [] (omega arith) refl in
    (
      out,
      e,
      record { canonical = begins-no_leading_zero out (goes pos); digits_only = all; value = v },
    )

pub send_unsigned-IsDecimal :
    (u : ℕ) → u < 2 ^ 32 → (text : List ℕ) × (send_unsigned u ≡ ok text) × IsDecimal u text
unfolding send_unsigned
send_unsigned-IsDecimal u small = elim (Bool-cases (u == 0)) [
  | inl is_zero ↦
      let e : u ≡ 0 = ground arith in
      rw e (0x30 ∷ [], refl, record { canonical = refl; digits_only = refl; value = refl })
  | inr more ↦ let (out, e, is) = fill_buf-IsDecimal u (ground arith) small in rw more (out, e, is)
]

-- uart_putdec sends each 32-bit value without leaving its buffer: a value below 2^31 as the
-- decimal digits of that value, at least one and without leading zeros, and any other, which is
-- negative, as a minus sign and the decimal digits of its distance from 2^32.
pub uart_putdec_lem :
    (v : ℕ)
    → v < 2 ^ 32
    → (text : List ℕ) × (((v < 2 ^ 31) × (uart_putdec v ≡ ok text) × IsDecimal v text)
        ⊎ ((2 ^ 31 ≤ v) × (uart_putdec v ≡ ok (0x2d ∷ text)) × IsDecimal (2 ^ 32 - v) text))
unfolding uart_putdec
uart_putdec_lem v small = elim (Bool-cases (neg32 v)) [
  | inl negative ↦
      let size : neg_u32 v ≡ 2 ^ 32 - v = ground arith in
      let (text, e, is) = send_unsigned-IsDecimal (2 ^ 32 - v) (ground arith) in
      rw (negative, size, e) (text, inr (ground arith, refl, is))
  | inr positive ↦
      let (text, e, is) = send_unsigned-IsDecimal v small in
      rw (positive, e) (text, inl (ground arith, refl, is))
]
