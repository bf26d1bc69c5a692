-- ===== src/Dhrystone/Format/Rounds.antt =====
-- The rounds of dhr_printf, a piece of the format in each.
use gandiva.Base.{
  ℕ, zero, suc, ◌+◌, ◌-◌, ◌/◌, ◌%◌, ◌^◌, ◌≤◌, ◌<◌, ◌≡◌, refl, sym, ap, ◌∙◌, arith, ◌⊎◌, inl, inr,
  Bool-cases, ◌==◌, ne→==, leb, true, false, neg32, neg_u32, u8, u32, List, [], ◌∷◌, ◌++◌,
  append_assoc, append-nil, length, length-append, replicate, ok,
}
use gandiva.Rtos.Console.{fill_buf, send_unsigned}
use gandiva.Rtos.Console.Decimal.{IsDecimal, send_unsigned-IsDecimal}
use gandiva.Dhrystone.Final.{all_nonzero}
use gandiva.Dhrystone.Port.{
  Arg, Sent, put, put_all, put_text, fill_decimal, put_padded, put_unsigned, put_signed, convert,
  width_loop, directive, printf_loop, dhr_printf,
}
use gandiva.Dhrystone.Format.{
  Piece, piece_text, piece_args, IsPiece, Shows, format, arguments, ArePieces, AllShow, sent, lit,
  dec, chr, str, percent,
}

put-sent : (c : ℕ) (bs : List ℕ) → put c (sent bs) ≡ sent (bs ++ c ∷ [])
unfolding put
put-sent c bs =
    let e : u32 (u32 (length bs) + 1) ≡ u32 (length (bs ++ c ∷ [])) =
      omega (arith, length-append {0} bs (c ∷ [])) in
    rw e refl

put_all-sent : (cs bs : List ℕ) → put_all cs (sent bs) ≡ sent (bs ++ cs)
unfolding put_all
put_all-sent [] bs = ap sent (sym (append-nil bs))
put_all-sent (c ∷ cs) bs =
    rw (put-sent c bs) (put_all-sent cs (bs ++ c ∷ []) ∙ ap sent (append_assoc bs (c ∷ []) cs))

put_text-sent :
    (s bs : List ℕ) → all_nonzero s ≡ true → put_text (s ++ 0 ∷ []) (sent bs) ≡ ok (sent (bs ++ s))
unfolding put_text
put_text-sent [] bs e = ap (λ l. ok (sent l)) (sym (append-nil bs))
put_text-sent (c ∷ s) bs e = elim (Bool-cases (c == 0)) [
  | inl ends ↦ absurd (grind (arith, rw ends at e))
  | inr goes ↦
      rw (goes, put-sent c bs)
        (put_text-sent s (bs ++ c ∷ []) (rw goes at e)
          ∙ ap (λ l. ok (sent l)) (append_assoc bs (c ∷ []) s))
]

fill_decimal-fill_buf : (room u : ℕ) (acc : List ℕ) → fill_decimal room u acc ≡ fill_buf room u acc
unfolding fill_decimal fill_buf
fill_decimal-fill_buf zero u acc = refl
fill_decimal-fill_buf (suc room) u acc =
    rw (fill_decimal-fill_buf room (u / 10) ((0x30 + u % 10) ∷ acc)) refl

put_unsigned-sent :
    (pad w u : ℕ) (bs : List ℕ)
    → w ≤ 9
    → u < 2 ^ 32
    → (digits : List ℕ) × (put_unsigned pad w u (sent bs)
        ≡ ok (sent (bs ++ (replicate (w - length digits) pad ++ digits))))
      × IsDecimal u digits
unfolding put_unsigned put_padded send_unsigned
put_unsigned-sent pad w u bs hw hu =
    let (digits, e, is) = send_unsigned-IsDecimal u hu in
    let e' = rw (sym (fill_decimal-fill_buf 12 u [])) at e in
    let pos : neg32 w ≡ false = ground arith in
    let fill = replicate (w - length digits) pad in
    (
      digits,
      rw
          (
            e',
            pos,
            put_all-sent fill bs,
            put_all-sent digits (bs ++ fill),
            append_assoc bs fill digits,
          )
          refl,
      is,
    )

same_fill : (pad w n : ℕ) → (w ≡ 0) ⊎ (pad ≡ 0x30) → replicate (w - n) pad ≡ replicate (w - n) 0x30
same_fill pad w n (inl none) = let e : w - n ≡ 0 = omega arith in rw e refl
same_fill pad w n (inr zeros) = rw zeros refl

-- What %d prints with the padding `pad`, behind the sign.
abbrev ShowsSigned : ℕ → ℕ → ℕ → List ℕ → Type 0
ShowsSigned pad w v bytes =
    (digits : List ℕ) × (((v < 2 ^ 31)
        × (bytes ≡ replicate (w - length digits) pad ++ digits)
        × IsDecimal v digits)
      ⊎ ((2 ^ 31 ≤ v)
          × (bytes ≡ 0x2d ∷ (replicate (w - length digits) pad ++ digits))
          × IsDecimal (2 ^ 32 - v) digits))

put_negative :
    (pad w v : ℕ) (bs tail : List ℕ)
    → neg32 v ≡ true
    → put_unsigned pad w (2 ^ 32 - v) (sent (bs ++ 0x2d ∷ []))
      ≡ ok (sent ((bs ++ 0x2d ∷ []) ++ tail))
    → put_signed pad w v (sent bs) ≡ ok (sent (bs ++ 0x2d ∷ tail))
unfolding put_signed
put_negative pad w v bs tail negative e =
    let size : neg_u32 v ≡ 2 ^ 32 - v = ground arith in
    rw (negative, put-sent 0x2d bs, size)
      (e ∙ ap (λ l. ok (sent l)) (append_assoc bs (0x2d ∷ []) tail))

put_positive :
    (pad w v : ℕ) (o : Sent) → neg32 v ≡ false → put_signed pad w v o ≡ put_unsigned pad w v o
unfolding put_signed
put_positive pad w v o positive = rw positive refl

put_signed-sent :
    (pad w v : ℕ) (bs : List ℕ)
    → w ≤ 9
    → v < 2 ^ 32
    → (bytes : List ℕ) × (put_signed pad w v (sent bs) ≡ ok (sent (bs ++ bytes)))
      × ShowsSigned pad w v bytes
put_signed-sent pad w v bs hw hv = elim (Bool-cases (neg32 v)) [
  | inl negative ↦
      let large : 2 ^ 31 ≤ v = ground arith in
      let (digits, e, is) =
        put_unsigned-sent pad w (2 ^ 32 - v) (bs ++ 0x2d ∷ []) hw (omega arith) in
      let tail = replicate (w - length digits) pad ++ digits in
      (0x2d ∷ tail, put_negative pad w v bs tail negative e, (digits, inr (large, refl, is)))
  | inr positive ↦
      let small : v < 2 ^ 31 = ground arith in
      let (digits, e, is) = put_unsigned-sent pad w v bs hw hv in
      (
        replicate (w - length digits) pad ++ digits,
        put_positive pad w v (sent bs) positive ∙ e,
        (digits, inl (small, refl, is)),
      )
]

ShowsSigned-Shows :
    (pad w v : ℕ) (bytes : List ℕ)
    → (w ≡ 0) ⊎ (pad ≡ 0x30)
    → ShowsSigned pad w v bytes
    → Shows (dec w v) bytes
ShowsSigned-Shows pad w v bytes how (digits, inl (small, e, is)) =
    inl (small, (digits, e ∙ ap (λ f. f ++ digits) (same_fill pad w (length digits) how), is))
ShowsSigned-Shows pad w v bytes how (digits, inr (large, e, is)) = inr (
  large,
  replicate (w - length digits) pad ++ digits,
  e,
  (digits, ap (λ f. f ++ digits) (same_fill pad w (length digits) how), is),
)

-- Whatever stands before it, a piece is printed in one round of the loop.
abbrev PrintsAs : Piece → List ℕ → List ℕ → Type 0
PrintsAs p bs bytes =
    (fuel : ℕ) (fmt : List ℕ) (args : List Arg)
    → printf_loop (suc fuel) (piece_text p ++ fmt) (piece_args p ++ args) (sent bs)
      ≡ printf_loop fuel fmt args (sent (bs ++ bytes))

piece-PrintsAs :
    (p : Piece) (bs : List ℕ) → IsPiece p → (bytes : List ℕ) × Shows p bytes × PrintsAs p bs bytes
unfolding printf_loop directive width_loop convert
piece-PrintsAs (lit c) bs (some, plain) =
    (c ∷ [], refl, λ fuel fmt args. rw (ne→== c 0 some, ne→== c 0x25 plain, put-sent c bs) refl)
piece-PrintsAs (dec zero v) bs (hw, hv) =
    let (bytes, e, shown) = put_signed-sent 0x20 0 v bs hw hv in
    (bytes, ShowsSigned-Shows 0x20 0 v bytes (inl refl) shown, λ fuel fmt args. rw e refl)
piece-PrintsAs (dec (suc w) v) bs (hw, hv) =
    let (bytes, e, shown) = put_signed-sent 0x30 (suc w) v bs hw hv in
    let low : leb 0x30 (0x31 + w) ≡ true = ground arith in
    let high : leb (0x31 + w) 0x39 ≡ true = ground arith in
    let width : u32 (u32 0 + (0x31 + w - 0x30)) ≡ suc w = omega arith in
    (
      bytes,
      ShowsSigned-Shows 0x30 (suc w) v bytes (inr refl) shown,
      λ fuel fmt args. rw (low, high, width, e) refl,
    )
piece-PrintsAs (chr v) bs p = (u8 v ∷ [], refl, λ fuel fmt args. rw (put-sent (u8 v) bs) refl)
piece-PrintsAs (str s) bs all = (s, refl, λ fuel fmt args. rw (put_text-sent s bs all) refl)
piece-PrintsAs percent bs p = (0x25 ∷ [], refl, λ fuel fmt args. rw (put-sent 0x25 bs) refl)

printf_loop-AllShow :
    (fuel : ℕ) (ps : List Piece) (bs : List ℕ)
    → ArePieces ps
    → length ps < fuel
    → (bytes : List ℕ) × (printf_loop fuel (format ps) (arguments ps) (sent bs)
        ≡ ok (sent (bs ++ bytes)))
      × AllShow ps bytes
unfolding printf_loop
printf_loop-AllShow zero ps bs good enough = absurd (omega arith)
printf_loop-AllShow (suc fuel) [] bs good enough =
    ([], ap (λ l. ok (sent l)) (sym (append-nil bs)), refl)
printf_loop-AllShow (suc fuel) (p ∷ ps) bs (good, more) enough =
    let (first, shows, prints) = piece-PrintsAs p bs good in
    let (rest, e, all) = printf_loop-AllShow fuel ps (bs ++ first) more (omega arith) in
    (
      first ++ rest,
      prints fuel (format ps) (arguments ps)
          ∙ e
          ∙ ap (λ l. ok (sent l)) (append_assoc bs first rest),
      (first, rest, refl, shows, all),
    )

-- For a format of characters other than NUL and %, of %d with a zero-padded width of up to 9 or
-- with none, %c, %s and %%, with 32-bit numbers and texts without a NUL as its arguments, and with
-- more rounds than pieces: dhr_printf stays within its buffers, sends what the pieces print as one
-- after the other, a number with at least one digit and no zeros in front but those of its width,
-- and returns the number of bytes sent, modulo 2^32.
pub dhr_printf_lem :
    (fuel : ℕ) (ps : List Piece)
    → ArePieces ps
    → length ps < fuel
    → (out : Sent) × (dhr_printf fuel (format ps) (arguments ps) ≡ ok out)
      × (out.count ≡ u32 (length out.bytes))
      × AllShow ps out.bytes
unfolding dhr_printf
dhr_printf_lem fuel ps good enough =
    let (bytes, e, all) = printf_loop-AllShow fuel ps [] good enough in (sent bytes, e, refl, all)
