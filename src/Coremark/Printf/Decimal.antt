-- ===== src/Coremark/Printf/Decimal.antt =====
-- number and skip_atoi of ee_printf.c, which print and read numbers in base ten.
use gandiva.Base.{
  ℕ, zero, suc, ◌+◌, ◌-◌, ◌*◌, ◌/◌, ◌%◌, ◌^◌, ◌<◌, ◌≡◌, refl, ◌∙◌, arith, inl, inr, Bool-cases,
  ◌==◌, true, false, some, List, [], ◌∷◌, ◌++◌, append_assoc, length, get_or, replicate, u32, ok,
  load, load-ok,
}
use gandiva.Base.Bits.{all_below, all_below_sound}
use gandiva.Coremark.Printf.{
  digits, is_digit, skip_atoi, put_digits, tmp_digits, sign_of, prefix_of, layout, number,
}

digits_ok : all_below 10 (λ k. get_or digits k 0 == 0x30 + k) ≡ true
unfolding all_below
digits_ok = refl

digit_at : (k : ℕ) → k < 10 → load digits k ≡ ok (0x30 + k)
digit_at k h =
    let e = all_below_sound 10 _ k digits_ok h in
    let e' : get_or digits k 0 ≡ 0x30 + k = ground arith in
    rw (load-ok digits k (omega arith), e') refl

-- Reading a digit shifts the value.
skip_atoi-digit :
    (num : ℕ) (s : List ℕ)
    → num < 2 ^ 32
    → skip_atoi (num / 10) ((0x30 + num % 10) ∷ s) ≡ skip_atoi num s
unfolding skip_atoi
skip_atoi-digit num s small =
    let is : is_digit (0x30 + num % 10) ≡ true = ground arith in
    let value : u32 (num / 10 * 10 + (0x30 + num % 10) + (2 ^ 32 - 0x30)) ≡ num = omega arith in
    rw (is, value) refl

-- The digits of a number are written within `room`, and are read back as the number.
put_digits-skip_atoi :
    (room num : ℕ) (acc rest : List ℕ)
    → num < 2 ^ 32
    → num < 2 ^ room
    → (out : List ℕ) × (put_digits room digits 10 num acc ≡ ok out)
      × (skip_atoi 0 (out ++ rest) ≡ skip_atoi num (acc ++ rest))
unfolding put_digits
put_digits-skip_atoi zero num acc rest small fits =
    let e : num ≡ 0 = omega arith in rw e (acc, refl, refl)
put_digits-skip_atoi (suc room) num acc rest small fits = elim (Bool-cases (num == 0)) [
  | inl none_left ↦ let e : num ≡ 0 = ground arith in rw e (acc, refl, refl)
  | inr more ↦
      let (out, e, read) =
        put_digits-skip_atoi room (num / 10) ((0x30 + num % 10) ∷ acc) rest (omega arith)
          (omega arith) in
      rw (more, digit_at (num % 10) (omega arith))
        (out, e, read ∙ skip_atoi-digit num (acc ++ rest) small)
]

skip_atoi-stop :
    (num c : ℕ) (rest : List ℕ) → is_digit c ≡ false → skip_atoi num (c ∷ rest) ≡ ok (num, c ∷ rest)
unfolding skip_atoi
skip_atoi-stop num c rest stop = rw stop refl

skip_atoi-zeros : (n : ℕ) (s : List ℕ) → skip_atoi 0 (replicate n 0x30 ++ s) ≡ skip_atoi 0 s
unfolding skip_atoi
skip_atoi-zeros zero s = refl
skip_atoi-zeros (suc n) s = skip_atoi-zeros n s

tmp_digits-skip_atoi :
    (num : ℕ) (rest : List ℕ)
    → num < 2 ^ 32
    → (out : List ℕ) × (tmp_digits digits 10 num ≡ ok out)
      × (skip_atoi 0 (out ++ rest) ≡ skip_atoi num rest)
unfolding tmp_digits
tmp_digits-skip_atoi num rest small = elim (Bool-cases (num == 0)) [
  | inl none_left ↦ let e : num ≡ 0 = ground arith in rw e (0x30 ∷ [], refl, skip_atoi-zeros 1 rest)
  | inr more ↦ rw more (put_digits-skip_atoi 66 num [] rest small (omega arith))
]

-- number prints an unsigned 32-bit value in base ten with ZEROPAD and no other flag, for any field
-- size and precision, without leaving tmp; and skip_atoi, on that text before a byte that is no
-- digit, reads the value back and stops at that byte.
pub skip_atoi-number :
    (num size precision c : ℕ) (rest : List ℕ)
    → num < 2 ^ 32
    → is_digit c ≡ false
    → (text : List ℕ) × (number num 10 size precision 1 ≡ ok (some text))
      × (skip_atoi 0 (text ++ c ∷ rest) ≡ ok (num, c ∷ rest))
unfolding number layout sign_of prefix_of
skip_atoi-number num size precision c rest small stop =
    let (tmp, e, read) = tmp_digits-skip_atoi num (c ∷ rest) small in
    let zeros = precision - length tmp in
    let pad = size - 0 - 0 - zeros - length tmp in
    (
      replicate pad 0x30 ++ replicate zeros 0x30 ++ tmp,
      rw e refl,
      rw (append_assoc, append_assoc)
          (skip_atoi-zeros pad (replicate zeros 0x30 ++ (tmp ++ (c ∷ rest)))
            ∙ skip_atoi-zeros zeros (tmp ++ (c ∷ rest))
            ∙ read
            ∙ skip_atoi-stop num c rest stop),
    )
