-- ===== src/Coremark/Printf.antt =====
-- coremark/src/barebones/ee_printf.c: the conversions that the formatted output is made of. Text
-- that is written through the pointer `str` is the list of its bytes, in order.
pub mod Decimal
pub mod Format
use gandiva.Base.{
  ℕ, zero, suc, ◌+◌, ◌-◌, ◌*◌, ◌/◌, ◌%◌, ◌^◌, ◌==◌, ltb, leb, if◌then◌else◌, Bool, not, ◌&&◌, ◌||◌,
  Option, none, some, List, [], ◌∷◌, ◌++◌, length, replicate, shr, low_bits, neg32, neg_u32, u32,
  Run, ok, fault, ◌>>=◌, load, codes,
}

abbrev pub digits : List ℕ
digits = codes "0123456789abcdefghijklmnopqrstuvwxyz"

abbrev pub upper_digits : List ℕ
upper_digits = codes "0123456789ABCDEFGHIJKLMNOPQRSTUVWXYZ"

-- type & (1 << k), for the flags below.
abbrev pub flag : ℕ → ℕ → Bool
flag type k = shr type k % 2 == 1

abbrev pub zeropad : ℕ → Bool
zeropad type = flag type 0

abbrev pub sign : ℕ → Bool
sign type = flag type 1

abbrev pub plus : ℕ → Bool
plus type = flag type 2

abbrev pub space : ℕ → Bool
space type = flag type 3

abbrev pub left : ℕ → Bool
left type = flag type 4

abbrev pub hex_prep : ℕ → Bool
hex_prep type = flag type 5

abbrev pub uppercase : ℕ → Bool
uppercase type = flag type 6

abbrev pub is_digit : ℕ → Bool
is_digit c = leb 0x30 c && leb c 0x39

-- The bytes from the pointer on: a text without a NUL faults.
unfoldable pub strnlen : List ℕ → ℕ → Run ℕ
strnlen [] count = fault
strnlen (c ∷ s) zero = ok 0
strnlen (c ∷ s) (suc count) =
    let rest = strnlen s count >>= λ n. ok (n + 1) in if c == 0 then ok 0 else rest

-- The value `i`, with the text behind the digits.
unfoldable pub skip_atoi : ℕ → List ℕ → Run (ℕ × List ℕ)
skip_atoi i [] = fault
skip_atoi i (c ∷ s) =
    let rest = skip_atoi (u32 (i * 10 + c + (2 ^ 32 - 0x30))) s in
    if is_digit c then rest else ok (i, c ∷ s)

-- while (num != 0), with `room` bytes left in tmp. The digits that are in tmp are `acc`, the last
-- one first.
unfoldable pub put_digits : ℕ → List ℕ → ℕ → ℕ → List ℕ → Run (List ℕ)
put_digits zero dig base num acc = if num == 0 then ok acc else fault
put_digits (suc room) dig base num acc =
    let rest = load dig (num % base) >>= λ d. put_digits room dig base (num / base) (d ∷ acc) in
    if num == 0 then ok acc else rest

unfoldable pub tmp_digits : List ℕ → ℕ → ℕ → Run (List ℕ)
tmp_digits dig base num = if num == 0 then ok (0x30 ∷ []) else put_digits 66 dig base num []

-- The sign to print, if any.
unfoldable pub sign_of : ℕ → ℕ → List ℕ
sign_of type num =
    if sign type
    then (if neg32 num
        then 0x2d ∷ []
        else (if plus type then 0x2b ∷ [] else (if space type then 0x20 ∷ [] else [])))
    else []

abbrev pub magnitude : ℕ → ℕ → ℕ
magnitude type num = if sign type && neg32 num then neg_u32 num else num

-- The prefix. It ends in `digits[33]` whatever the base's letters are.
unfoldable pub prefix_of : ℕ → ℕ → List ℕ
prefix_of type base =
    if hex_prep type
    then (if base == 8 then 0x30 ∷ [] else (if base == 16 then 0x30 ∷ 0x78 ∷ [] else []))
    else []

-- The text around the digits `tmp`, which `precision` and `size` widen.
unfoldable pub layout : ℕ → ℕ → List ℕ → List ℕ → ℕ → List ℕ → List ℕ
layout size type sgn prefix precision tmp =
    let zeros = precision - length tmp in
    let pad = size - length sgn - length prefix - zeros - length tmp in
    if left type
    then sgn ++ prefix ++ replicate zeros 0x30 ++ tmp ++ replicate pad 0x20
    else (if zeropad type
        then sgn ++ prefix ++ replicate pad 0x30 ++ replicate zeros 0x30 ++ tmp
        else replicate pad 0x20 ++ sgn ++ prefix ++ replicate zeros 0x30 ++ tmp)

-- `none` is the result NULL. Negative values of `size` and `precision` act as 0.
unfoldable pub number : ℕ → ℕ → ℕ → ℕ → ℕ → Run (Option (List ℕ))
number num base size precision type =
    let dig = if uppercase type then upper_digits else digits in
    let text = tmp_digits dig base (magnitude type num) >>= λ tmp.
    ok (some (layout size type (sign_of type num) (prefix_of type base) precision tmp)) in
    if ltb base 2 || ltb 36 base then ok none else text

-- The text of an address in a field of `size`.
unfoldable pub padded : ℕ → ℕ → List ℕ → List ℕ
padded size type tmp =
    if left type
    then tmp ++ replicate (size - length tmp) 0x20
    else replicate (size - length tmp) 0x20 ++ tmp

-- The rounds of eaddr from the byte `i` of the address on.
unfoldable pub eaddr_tmp : ℕ → ℕ → List ℕ → List ℕ → Run (List ℕ)
eaddr_tmp zero i dig addr = ok []
eaddr_tmp (suc n) i dig addr = load addr i >>= λ x. load dig (shr x 4) >>= λ hi.
    load dig (low_bits x 4) >>= λ lo. eaddr_tmp n (i + 1) dig addr >>= λ rest.
    ok ((if i == 0 then [] else 0x3a ∷ []) ++ hi ∷ lo ∷ rest)

unfoldable pub eaddr : List ℕ → ℕ → ℕ → Run (List ℕ)
eaddr addr size type =
    eaddr_tmp 6 0 (if uppercase type then upper_digits else digits) addr >>= λ tmp.
    ok (padded size type tmp)

-- A byte of iaddr in decimal.
unfoldable pub octet : ℕ → Run (List ℕ)
octet n =
    let units = load digits (n % 10) >>= λ u. ok (u ∷ []) in
    let tens = load digits (n % 100 / 10) >>= λ t. units >>= λ u. ok (t ∷ u) in
    let hundreds = load digits (n / 100) >>= λ h. tens >>= λ t. ok (h ∷ t) in
    if n == 0
    then load digits 0 >>= (λ z. ok (z ∷ []))
    else (if leb 100 n then hundreds else (if leb 10 n then tens else units))

unfoldable pub iaddr_tmp : ℕ → ℕ → List ℕ → Run (List ℕ)
iaddr_tmp zero i addr = ok []
iaddr_tmp (suc n) i addr = load addr i >>= λ x. octet x >>= λ text.
    iaddr_tmp n (i + 1) addr >>= λ rest. ok ((if i == 0 then [] else 0x2e ∷ []) ++ text ++ rest)

unfoldable pub iaddr : List ℕ → ℕ → ℕ → Run (List ℕ)
iaddr addr size type = iaddr_tmp 4 0 addr >>= λ tmp. ok (padded size type tmp)
