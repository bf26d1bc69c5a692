-- ===== src/Base/Bits.antt =====
-- Laws of the exclusive or at variables, from one equation for the lowest digit.
use Prim.Native.Nat.{
  ℕ, zero, suc, ◌+◌, ◌*◌, ◌/◌, ◌%◌, ◌^◌, ◌≤◌, ◌<◌, bit_and, bit_xor, digits, bitwise, differ,
  bit_and-bitwise, bit_xor-bitwise, min,
}
use mathlib.Core.Path.{◌≡◌, refl, ap, ◌∙◌}
use mathlib.Core.Bool.{Bool, true, ◌&&◌}
use native.Mathlib.Nat.{le_refl, pow-suc}
use native.Mathlib.Omega.{arith}

digits_fuel :
    (f : ℕ → ℕ → ℕ) (n m a b : ℕ)
    → a ≤ n
    → a ≤ m
    → digits (λ b. b) f n a b ≡ digits (λ b. b) f m a b
digits_fuel f zero zero a b p q = refl
digits_fuel f zero (suc m) zero b p q = refl
digits_fuel f zero (suc m) (suc a) b p q = absurd (omega arith)
digits_fuel f (suc n) zero zero b p q = refl
digits_fuel f (suc n) zero (suc a) b p q = absurd (omega arith)
digits_fuel f (suc n) (suc m) zero b p q = refl
digits_fuel f (suc n) (suc m) (suc a) b p q =
    rw (digits_fuel f n m (suc a / 2) (b / 2) (omega arith) (omega arith))

bitwise-suc :
    (f : ℕ → ℕ → ℕ) (a b : ℕ)
    → bitwise (λ b. b) f (suc a) b
      ≡ bitwise (λ b. b) f (suc a / 2) (b / 2) * 2 + f (suc a % 2) (b % 2)
bitwise-suc f a b =
    omega (arith, digits_fuel f a (suc a / 2) (suc a / 2) (b / 2) (omega arith) (le_refl _))

-- The digit of a sum modulo 2.
differ-sum : (x y : ℕ) → x < 2 → y < 2 → differ x y ≡ (x + y) % 2
differ-sum zero y h k = omega arith
differ-sum (suc zero) zero h k = refl
differ-sum (suc zero) (suc zero) h k = refl
differ-sum (suc zero) (suc (suc y)) h k = absurd (omega arith)
differ-sum (suc (suc x)) y h k = absurd (omega arith)

pub bit_xor_step : (a b : ℕ) → bit_xor a b ≡ bit_xor (a / 2) (b / 2) * 2 + (a % 2 + b % 2) % 2
bit_xor_step zero b = simp bit_xor-bitwise (omega arith)
bit_xor_step (suc a) b =
    rw (← differ-sum (suc a % 2) (b % 2) (omega arith) (omega arith))
      (simp bit_xor-bitwise (bitwise-suc differ a b))

pub bit_xor-half : (a b : ℕ) → bit_xor a b / 2 ≡ bit_xor (a / 2) (b / 2)
bit_xor-half a b = omega (arith, bit_xor_step a b)

pub bit_xor-digit : (a b : ℕ) → bit_xor a b % 2 ≡ (a % 2 + b % 2) % 2
bit_xor-digit a b = omega (arith, bit_xor_step a b)

-- Two numbers are equal if their lowest digits and their halves are.
eq_of_half : (a b : ℕ) → a / 2 ≡ b / 2 → a % 2 ≡ b % 2 → a ≡ b
eq_of_half a b h k = omega arith

comm_below : (n a b : ℕ) → a ≤ n → b ≤ n → bit_xor a b ≡ bit_xor b a
comm_below zero zero zero p q = refl
comm_below zero zero (suc b) p q = absurd (omega arith)
comm_below zero (suc a) b p q = absurd (omega arith)
comm_below (suc n) a b p q = omega (
  arith,
  bit_xor_step a b,
  bit_xor_step b a,
  comm_below n (a / 2) (b / 2) (omega arith) (omega arith),
)

assoc_below :
    (n a b c : ℕ) → a ≤ n → b ≤ n → c ≤ n → bit_xor (bit_xor a b) c ≡ bit_xor a (bit_xor b c)
assoc_below zero zero zero zero p q r = refl
assoc_below zero zero zero (suc c) p q r = absurd (omega arith)
assoc_below zero zero (suc b) c p q r = absurd (omega arith)
assoc_below zero (suc a) b c p q r = absurd (omega arith)
assoc_below (suc n) a b c p q r =
    eq_of_half _ _
      (simp bit_xor-half
        (assoc_below n (a / 2) (b / 2) (c / 2) (omega arith) (omega arith) (omega arith)))
      (omega (
        arith,
        bit_xor-digit (bit_xor a b) c,
        bit_xor-digit a b,
        bit_xor-digit a (bit_xor b c),
        bit_xor-digit b c,
      ))

self_below : (n a : ℕ) → a ≤ n → bit_xor a a ≡ 0
self_below zero zero p = refl
self_below zero (suc a) p = absurd (omega arith)
self_below (suc n) a p = omega (arith, bit_xor_step a a, self_below n (a / 2) (omega arith))

zero_below : (n a : ℕ) → a ≤ n → bit_xor a 0 ≡ a
zero_below zero zero p = refl
zero_below zero (suc a) p = absurd (omega arith)
zero_below (suc n) a p = omega (arith, bit_xor_step a 0, zero_below n (a / 2) (omega arith))

pub bit_xor_comm : (a b : ℕ) → bit_xor a b ≡ bit_xor b a
bit_xor_comm a b = comm_below (a + b) a b (omega arith) (omega arith)

pub bit_xor_assoc : (a b c : ℕ) → bit_xor (bit_xor a b) c ≡ bit_xor a (bit_xor b c)
bit_xor_assoc a b c = assoc_below (a + b + c) a b c (omega arith) (omega arith) (omega arith)

pub bit_xor_self : (a : ℕ) → bit_xor a a ≡ 0
bit_xor_self a = self_below a a (le_refl a)

pub bit_xor-zero : (a : ℕ) → bit_xor a 0 ≡ a
bit_xor-zero a = zero_below a a (le_refl a)

-- The same mask twice changes nothing.
pub bit_xor_undo : (a k : ℕ) → bit_xor (bit_xor a k) k ≡ a
bit_xor_undo a k = bit_xor_assoc a k k ∙ ap (bit_xor a) (bit_xor_self k) ∙ bit_xor-zero a

pub bit_xor_cancel : (a k : ℕ) → bit_xor k (bit_xor a k) ≡ a
bit_xor_cancel a k = bit_xor_comm k (bit_xor a k) ∙ bit_xor_undo a k

-- The result has no more digits than the operands.
pub bit_xor-lt : (n a b : ℕ) → a < 2 ^ n → b < 2 ^ n → bit_xor a b < 2 ^ n
bit_xor-lt zero a b p q =
    let ea : a ≡ 0 = omega arith in let eb : b ≡ 0 = omega arith in rw (ea, eb) (omega arith)
bit_xor-lt (suc n) a b p q = omega (
  arith,
  bit_xor_step a b,
  pow-suc 2 n,
  bit_xor-lt n (a / 2) (b / 2) (omega (arith, pow-suc 2 n)) (omega (arith, pow-suc 2 n)),
)

-- To check every value below a bound by evaluation, in rows of `width`.
unfoldable pub all_below : ℕ → (ℕ → Bool) → Bool
all_below zero test = true
all_below (suc bound) test = all_below bound test && test bound

pub all_below_sound :
    (bound : ℕ) (test : ℕ → Bool) (k : ℕ) → all_below bound test ≡ true → k < bound → test k ≡ true
unfolding all_below
all_below_sound zero test k passed below = absurd (omega arith)
all_below_sound (suc bound) test k passed below = ground (arith, all_below_sound bound test k)

unfoldable pub all_pairs : ℕ → ℕ → (ℕ → ℕ → Bool) → Bool
unfolding all_below
all_pairs m n p = all_below m (λ a. all_below n (p a))

pub all_pairs_sound :
    (m n : ℕ) (p : ℕ → ℕ → Bool) (a b : ℕ) → all_pairs m n p ≡ true → a < m → b < n → p a b ≡ true
unfolding all_pairs
all_pairs_sound m n p a b h la lb =
    all_below_sound n (p a) b (all_below_sound m (λ a. all_below n (p a)) a h la) lb

zero-bit_and : (b : ℕ) → bit_and 0 b ≡ 0
zero-bit_and b = bit_and-bitwise 0 b

and_digits : (n a : ℕ) → a ≤ n → digits (λ b. zero) min n a 0 ≡ 0
and_digits zero a h = refl
and_digits (suc n) zero h = refl
and_digits (suc n) (suc a) h = omega (arith, and_digits n (suc a / 2) (omega arith))

pub bit_and-one : (a : ℕ) → bit_and a 1 ≡ a % 2
bit_and-one zero = refl
bit_and-one (suc a) =
    omega (arith, bit_and-bitwise (suc a) 1, and_digits a (suc a / 2) (omega arith))

and_digits-le : (n a b : ℕ) → digits (λ c. zero) min n a b ≤ a
and_digits-le zero zero b = omega arith
and_digits-le zero (suc a) b = omega arith
and_digits-le (suc n) zero b = omega arith
and_digits-le (suc n) (suc a) b = omega (arith, and_digits-le n (suc a / 2) (b / 2))

pub bit_and-le : (a b : ℕ) → bit_and a b ≤ a
bit_and-le a b = omega (arith, bit_and-bitwise a b, and_digits-le a a b)
