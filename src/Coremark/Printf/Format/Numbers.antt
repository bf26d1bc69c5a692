-- ===== src/Coremark/Printf/Format/Numbers.antt =====
-- number does not leave tmp and returns a text, in each base from 2 to 36.
use gandiva.Base.{
  ℕ, zero, suc, ◌/◌, ◌%◌, ◌^◌, ◌≤◌, ◌<◌, ◌≡◌, refl, arith, inl, inr, Bool-cases, ◌==◌, le→ltb,
  if◌then◌else◌, Bool, true, false, some, List, [], ◌∷◌, length, get_or, load-ok, ok,
}
use gandiva.Coremark.Printf.{
  digits, upper_digits, uppercase, magnitude, put_digits, tmp_digits, number,
}

half : (num base : ℕ) → 2 ≤ base → num / base ≤ num / 2
half num base two = grind arith

rest_below : (num base : ℕ) → 2 ≤ base → num % base < base
rest_below num base two = grind arith

put_digits-ok :
    (room : ℕ) (dig : List ℕ) (base num : ℕ) (acc : List ℕ)
    → 2 ≤ base
    → base ≤ length dig
    → num < 2 ^ room
    → (out : List ℕ) × (put_digits room dig base num acc ≡ ok out)
unfolding put_digits
put_digits-ok zero dig base num acc two fits small =
    let e : num ≡ 0 = omega arith in rw e (acc, refl)
put_digits-ok (suc room) dig base num acc two fits small = elim (Bool-cases (num == 0)) [
  | inl ends ↦ rw ends (acc, refl)
  | inr goes ↦
      let less = half num base two in
      let down : num / base < 2 ^ room = omega arith in
      let below = rest_below num base two in
      let (out, e) =
        put_digits-ok room dig base (num / base) (get_or dig (num % base) 0 ∷ acc) two fits down in
      rw (goes, load-ok dig (num % base) (omega arith)) (out, e)
]

tmp_digits-ok :
    (dig : List ℕ) (base num : ℕ)
    → 2 ≤ base
    → base ≤ length dig
    → num < 2 ^ 32
    → (out : List ℕ) × (tmp_digits dig base num ≡ ok out)
unfolding tmp_digits
tmp_digits-ok dig base num two fits small = elim (Bool-cases (num == 0)) [
  | inl is_zero ↦ rw is_zero (0x30 ∷ [], refl)
  | inr more ↦ rw more (put_digits-ok 66 dig base num [] two fits (omega arith))
]

length-dig : (b : Bool) → length (if b then upper_digits else digits) ≡ 36
length-dig true = refl
length-dig false = refl

magnitude_lt : (type num : ℕ) → num < 2 ^ 32 → magnitude type num < 2 ^ 32
magnitude_lt type num small = ground arith

pub number-ok :
    (num base size precision type : ℕ)
    → 2 ≤ base
    → base ≤ 36
    → num < 2 ^ 32
    → (text : List ℕ) × (number num base size precision type ≡ ok (some text))
unfolding number
number-ok num base size precision type two most small =
    let dig = if uppercase type then upper_digits else digits in
    let fits = length-dig (uppercase type) in
    let (tmp, e) =
      tmp_digits-ok dig base (magnitude type num) two (omega arith) (magnitude_lt type num small) in
    rw (le→ltb base 2 two, le→ltb 36 base most, e) (_, refl)
