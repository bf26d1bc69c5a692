-- ===== src/Coremark/Crc/Linear.antt =====
-- The CRC of core_util.c as division by a polynomial: the bitwise loop against a shift register.
use gandiva.Base.{
  ℕ, zero, suc, ◌+◌, ◌*◌, ◌/◌, ◌%◌, ◌^◌, ◌<◌, bit_and, bit_or, bit_xor, ◌≡◌, refl, arith, Bool,
  true, ◌&&◌, ◌==◌, ap, sym, ◌∙◌, if◌then◌else◌, u8,
}
use native.Mathlib.Nat.{pow-suc, div-div-eq-div-mul}
use gandiva.Base.Bits.{all_pairs, all_pairs_sound, bit_xor_assoc, bit_xor_comm, bit_xor-zero}
use gandiva.Base.Bits.{bit_xor-half, bit_xor-digit, bit_and-one, bit_xor-lt}
use gandiva.Coremark.Crc.{crc_round, crc_rounds, crcu8, crcu16}

-- One step of the register for x^16 + x^15 + x^2 + 1, lowest digit first (CRC-16/ARC).
unfoldable pub shift_register : ℕ → ℕ
shift_register x = if x % 2 == 1 then bit_xor (x / 2) 0xa001 else x / 2

unfoldable pub shift_times : ℕ → ℕ → ℕ
shift_times zero x = x
shift_times (suc n) x = shift_times n (shift_register x)

-- What the masks of a round do to a CRC.
abbrev word_ok : ℕ → ℕ → Bool
word_ok a b =
    (bit_or (bit_xor (a * 256 + b) 0x4002 / 2) 0x8000 == bit_xor ((a * 256 + b) / 2) 0xa001)
    && (bit_and ((a * 256 + b) / 2) 0x7fff == ((a * 256 + b) / 2))

words_ok : all_pairs 256 256 word_ok ≡ true
unfolding all_pairs
words_ok = refl

bit_xor_digits : (x y : ℕ) → x < 2 → y < 2 → bit_xor x y ≡ (x + y) % 2
bit_xor_digits zero zero h k = refl
bit_xor_digits zero (suc zero) h k = refl
bit_xor_digits (suc zero) zero h k = refl
bit_xor_digits (suc zero) (suc zero) h k = refl
bit_xor_digits zero (suc (suc y)) h k = absurd (omega arith)
bit_xor_digits (suc zero) (suc (suc y)) h k = absurd (omega arith)
bit_xor_digits (suc (suc x)) y h k = absurd (omega arith)

div_pow_suc : (b n : ℕ) → b / 2 ^ suc n ≡ b / 2 / 2 ^ n
div_pow_suc b n =
    ap (λ k. b / k) (omega (arith, pow-suc 2 n)) ∙ sym (div-div-eq-div-mul b 2 (2 ^ n))

masks_of_ok :
    (c : ℕ)
    → ((bit_or (bit_xor c 0x4002 / 2) 0x8000 == bit_xor (c / 2) 0xa001)
        && (bit_and (c / 2) 0x7fff == (c / 2)))
      ≡ true
    → (bit_or (bit_xor c 0x4002 / 2) 0x8000 ≡ bit_xor (c / 2) 0xa001)
      × (bit_and (c / 2) 0x7fff ≡ c / 2)
masks_of_ok c h = ground arith

masks :
    (c : ℕ)
    → c < 2 ^ 16
    → (bit_or (bit_xor c 0x4002 / 2) 0x8000 ≡ bit_xor (c / 2) 0xa001)
      × (bit_and (c / 2) 0x7fff ≡ c / 2)
masks c h =
    let e : c / 256 * 256 + c % 256 ≡ c = omega arith in
    masks_of_ok c (
      rw e at
        (all_pairs_sound 256 256 word_ok (c / 256) (c % 256) words_ok (omega arith) (omega arith)))

round_value :
    (b c : ℕ)
    → c < 2 ^ 16
    → crc_round b c ≡ (if (b % 2 + c % 2) % 2 == 1 then bit_xor (c / 2) 0xa001 else c / 2)
unfolding crc_round
round_value b c h =
    ground (arith, masks c h, bit_and-one b, bit_and-one (u8 c), bit_xor_digits (b % 2) (c % 2))

xor_right_comm : (a b c : ℕ) → bit_xor (bit_xor a b) c ≡ bit_xor (bit_xor a c) b
xor_right_comm a b c =
    bit_xor_assoc a b c ∙ ap (bit_xor a) (bit_xor_comm b c) ∙ sym (bit_xor_assoc a c b)

-- A round with the bits `b` left is a step of the register that holds the CRC and these bits.
round-register :
    (b c : ℕ) → c < 2 ^ 16 → bit_xor (crc_round b c) (b / 2) ≡ shift_register (bit_xor c b)
unfolding shift_register
round-register b c h = ground (
  arith,
  round_value b c h,
  bit_xor-half c b,
  bit_xor-digit c b,
  xor_right_comm (c / 2) 0xa001 (b / 2),
)

round-lt : (b c : ℕ) → c < 2 ^ 16 → crc_round b c < 2 ^ 16
round-lt b c h = ground (arith, round_value b c h, bit_xor-lt 16 (c / 2) 0xa001)

rounds-register :
    (n b c : ℕ) → c < 2 ^ 16 → bit_xor (crc_rounds n b c) (b / 2 ^ n) ≡ shift_times n (bit_xor c b)
unfolding crc_rounds shift_times
rounds-register zero b c h = ap (bit_xor c) (omega arith)
rounds-register (suc n) b c h =
    ap (bit_xor (crc_rounds n (b / 2) (crc_round b c))) (div_pow_suc b n)
    ∙ rounds-register n (b / 2) (crc_round b c) (round-lt b c h)
    ∙ ap (shift_times n) (round-register b c h)

-- `crcu8` of a byte is eight steps of the register from the CRC with the byte added.
pub crcu8-register :
    (byte crc : ℕ) → byte < 2 ^ 8 → crc < 2 ^ 16 → crcu8 byte crc ≡ shift_times 8 (bit_xor crc byte)
unfolding crcu8
crcu8-register byte crc hb hc =
    let e : byte / 2 ^ 8 ≡ 0 = omega arith in
    sym (bit_xor-zero (crc_rounds 8 byte crc))
    ∙ ap (bit_xor (crc_rounds 8 byte crc)) (sym e)
    ∙ rounds-register 8 byte crc hc

rounds-lt : (n b c : ℕ) → c < 2 ^ 16 → crc_rounds n b c < 2 ^ 16
unfolding crc_rounds
rounds-lt zero b c h = h
rounds-lt (suc n) b c h = rounds-lt n (b / 2) (crc_round b c) (round-lt b c h)

pub crcu8-lt : (byte crc : ℕ) → crc < 2 ^ 16 → crcu8 byte crc < 2 ^ 16
unfolding crcu8
crcu8-lt byte crc h = rounds-lt 8 byte crc h

-- The two numbers have the same `n` lowest digits.
abbrev SameDigits : ℕ → ℕ → ℕ → Type 0
SameDigits zero a b = Unit
SameDigits (suc n) a b = (a % 2 ≡ b % 2) × SameDigits n (a / 2) (b / 2)

round_of_digit : (a b c : ℕ) → a % 2 ≡ b % 2 → crc_round a c ≡ crc_round b c
unfolding crc_round
round_of_digit a b c h = ground (arith, bit_and-one a, bit_and-one b)

rounds_of_digits : (n a b c : ℕ) → SameDigits n a b → crc_rounds n a c ≡ crc_rounds n b c
unfolding crc_rounds
rounds_of_digits zero a b c h = refl
rounds_of_digits (suc n) a b c h =
    rw (round_of_digit a b c h.0) (rounds_of_digits n (a / 2) (b / 2) (crc_round b c) h.1)

shift_times-add : (m n x : ℕ) → shift_times n (shift_times m x) ≡ shift_times (m + n) x
unfolding shift_times
shift_times-add zero n x = let e : 0 + n ≡ n = omega arith in rw e
shift_times-add (suc m) n x =
    let e : suc m + n ≡ suc (m + n) = omega arith in rw e (shift_times-add m n (shift_register x))

-- The low byte of a word first: the register then holds the high byte, still to come.
low_byte_first :
    (w c : ℕ) → c < 2 ^ 16 → bit_xor (crcu8 (w % 2 ^ 8) c) (w / 2 ^ 8) ≡ shift_times 8 (bit_xor c w)
unfolding crcu8
low_byte_first w c h =
    ap (λ r. bit_xor r (w / 2 ^ 8)) (rounds_of_digits 8 (w % 2 ^ 8) w c (omega arith))
    ∙ rounds-register 8 w c h

-- `crcu16` is sixteen steps of the shift register for the polynomial 0x8005, lowest digit first,
-- from the CRC with the word added: the bitwise loop computes CRC-16 over the two bytes, low
-- byte first, for every word and every CRC of 16 bits.
pub crcu16-register :
    (newval crc : ℕ)
    → newval < 2 ^ 16
    → crc < 2 ^ 16
    → crcu16 newval crc ≡ shift_times 16 (bit_xor crc newval)
unfolding crcu16
crcu16-register newval crc hn hc =
    let e : newval / 2 ^ 8 % 2 ^ 8 ≡ newval / 2 ^ 8 = omega arith in
    ap (λ b. crcu8 b (crcu8 (newval % 2 ^ 8) crc)) e
    ∙ crcu8-register (newval / 2 ^ 8) (crcu8 (newval % 2 ^ 8) crc) (omega arith)
        (crcu8-lt (newval % 2 ^ 8) crc hc)
    ∙ ap (shift_times 8) (low_byte_first newval crc hc)
    ∙ shift_times-add 8 8 (bit_xor crc newval)
