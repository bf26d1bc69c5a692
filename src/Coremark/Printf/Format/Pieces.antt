-- ===== src/Coremark/Printf/Format/Pieces.antt =====
-- ee_vsprintf on formats that are written piece by piece.
use gandiva.Base.{
  ℕ, zero, suc, ◌^◌, ◌≤◌, ◌<◌, ◌≡◌, ◌≢◌, refl, sym, ap, ◌∙◌, arith, ne→==, Bool, Option, none, some,
  List, [], ◌∷◌, ◌++◌, append_assoc, append-nil, length, ok,
}
use gandiva.Coremark.Printf.{number}
use gandiva.Coremark.Printf.Format.{
  Arg, word, clip, flags_loop, read_width, read_precision, read_qualifier, read_directive,
  convert_number, convert, convert_other, vsprintf_loop, ee_vsprintf,
}
use gandiva.Coremark.Printf.Format.Reading.{
  Conversion, signed, unsigned, hex, upper_hex, octal, letter, base_of, flags_for, width_value,
  precision_value, long_text, bits, Flag, directive, directive_text, read_directive-long,
}
use gandiva.Coremark.Printf.Format.Numbers.{number-ok}

-- A piece of a format: a character, `%%`, or a number with its flags, width (0 for none), precision,
-- long qualifier and conversion.
pub data Piece : Type 0 where
  lit : ℕ → Piece
  percent : Piece
  num : List Flag → ℕ → Option ℕ → Bool → Conversion → ℕ → Piece

abbrev pub piece_text : Piece → List ℕ → List ℕ
piece_text (lit c) tail = c ∷ tail
piece_text percent tail = 0x25 ∷ 0x25 ∷ tail
piece_text (num fs w p long c v) tail =
    0x25 ∷ directive_text fs w p (long_text long ++ letter c ∷ tail)

abbrev pub format : List Piece → List ℕ
format [] = 0 ∷ []
format (q ∷ qs) = piece_text q (format qs)

abbrev pub piece_args : Piece → List Arg → List Arg
piece_args (lit c) args = args
piece_args percent args = args
piece_args (num fs w p long c v) args = word v ∷ args

abbrev pub arguments : List Piece → List Arg
arguments [] = []
arguments (q ∷ qs) = piece_args q (arguments qs)

abbrev pub IsPiece : Piece → Type 0
IsPiece (lit c) = (c ≢ 0) × (c ≢ 0x25)
IsPiece percent = Unit {0}
IsPiece (num fs w p long c v) = (w ≤ 9) × ((n : ℕ) → p ≡ some n → n ≤ 9) × (v < 2 ^ 32)

abbrev pub ArePieces : List Piece → Type 0
ArePieces [] = Unit {0}
ArePieces (q ∷ qs) = IsPiece q × ArePieces qs

abbrev pub or_zero : Option ℕ → ℕ
or_zero none = 0
or_zero (some p) = p

-- What a piece prints as: a number what `number` makes of it.
abbrev pub Shows : Piece → List ℕ → Type 0
Shows (lit c) text = text ≡ c ∷ []
Shows percent text = text ≡ 0x25 ∷ []
Shows (num fs w p long c v) text =
    number v (base_of c) w (or_zero p) (flags_for c (bits 0 fs)) ≡ ok (some text)

abbrev pub AllShow : List Piece → List ℕ → Type 0
AllShow [] text = text ≡ []
AllShow (q ∷ qs) text =
    (first : List ℕ) × (rest : List ℕ) × (text ≡ first ++ rest) × Shows q first × AllShow qs rest

base_small : (c : Conversion) → (2 ≤ base_of c) × (base_of c ≤ 36)
base_small signed = (omega arith, omega arith)
base_small unsigned = (omega arith, omega arith)
base_small hex = (omega arith, omega arith)
base_small upper_hex = (omega arith, omega arith)
base_small octal = (omega arith, omega arith)

clip_width : (w : ℕ) → w ≤ 9 → clip (width_value w) ≡ w
clip_width zero small = refl
clip_width (suc w) small = ground arith

clip_precision :
    (p : Option ℕ) → ((n : ℕ) → p ≡ some n → n ≤ 9) → clip (precision_value p) ≡ or_zero p
clip_precision none little = refl
clip_precision (some n) little = let le = little n refl in ground arith

-- The switch on a conversion of a number.
convert-number :
    (fs : List Flag) (w : ℕ) (p : Option ℕ) (long : Bool) (c : Conversion) (v : ℕ) (tail : List ℕ)
    (args : List Arg) (text : List ℕ)
    → w ≤ 9
    → ((n : ℕ) → p ≡ some n → n ≤ 9)
    → number v (base_of c) w (or_zero p) (flags_for c (bits 0 fs)) ≡ ok (some text)
    → convert (directive (letter c ∷ tail) (word v ∷ args) (bits 0 fs) w p long) (letter c ∷ tail)
      ≡ ok (record { text = text; fmt = tail; args = args })
unfolding convert convert_number
convert-number fs w p long signed v tail args text small little e =
    rw (clip_width w small, clip_precision p little, e) refl
convert-number fs w p long unsigned v tail args text small little e =
    rw (clip_width w small, clip_precision p little, e) refl
convert-number fs w p long hex v tail args text small little e =
    rw (clip_width w small, clip_precision p little, e) refl
convert-number fs w p long upper_hex v tail args text small little e =
    rw (clip_width w small, clip_precision p little, e) refl
convert-number fs w p long octal v tail args text small little e =
    rw (clip_width w small, clip_precision p little, e) refl

percent_round :
    (fuel : ℕ) (tail : List ℕ) (args : List Arg) (out : List ℕ)
    → vsprintf_loop (suc fuel) (0x25 ∷ 0x25 ∷ tail) args out
      ≡ vsprintf_loop fuel tail args (out ++ 0x25 ∷ [])
unfolding vsprintf_loop read_directive flags_loop read_width read_precision read_qualifier convert
    convert_other
percent_round fuel tail args out = refl

-- A piece is printed in one round of the loop.
piece-Shows :
    (q : Piece)
    → IsPiece q
    → (text : List ℕ) × Shows q text
      × ((fuel : ℕ) (tail : List ℕ) (args : List Arg) (out : List ℕ)
          → vsprintf_loop (suc fuel) (piece_text q tail) (piece_args q args) out
            ≡ vsprintf_loop fuel tail args (out ++ text))
unfolding vsprintf_loop
piece-Shows (lit c) (is, plain) =
    (c ∷ [], refl, λ fuel tail args out. rw (ne→== c 0 is, ne→== c 0x25 plain) refl)
piece-Shows percent good = (0x25 ∷ [], refl, λ fuel tail args out. percent_round fuel tail args out)
piece-Shows (num fs w p long c v) (small, little, fits) =
    let (two, most) = base_small c in
    let (text, e) = number-ok v (base_of c) w (or_zero p) (flags_for c (bits 0 fs)) two most fits in
    (
      text,
      e,
      λ fuel tail args out.
          rw
            (
              read_directive-long fs w (word v ∷ args) p long c tail small little,
              convert-number fs w p long c v tail args text small little e,
            )
            refl,
    )

vsprintf_loop-AllShow :
    (fuel : ℕ) (qs : List Piece) (out : List ℕ)
    → ArePieces qs
    → length qs < fuel
    → (text : List ℕ) × (vsprintf_loop fuel (format qs) (arguments qs) out ≡ ok (out ++ text))
      × AllShow qs text
unfolding vsprintf_loop
vsprintf_loop-AllShow zero qs out good enough = absurd (omega arith)
vsprintf_loop-AllShow (suc fuel) [] out good enough = ([], ap ok (sym (append-nil out)), refl)
vsprintf_loop-AllShow (suc fuel) (q ∷ qs) out (good, more) enough =
    let (first, shows, round) = piece-Shows q good in
    let (rest, e, all) = vsprintf_loop-AllShow fuel qs (out ++ first) more (omega arith) in
    (
      first ++ rest,
      round fuel (format qs) (arguments qs) out ∙ e ∙ ap ok (append_assoc out first rest),
      (first, rest, refl, shows, all),
    )

-- For a format of characters other than NUL and %, of %%, and of 32-bit numbers with any of the
-- flags 0, +, space, - and #, a width and a precision of one digit or none, with or without the
-- qualifier l, and a conversion d, u, x, X or o; and with more rounds than pieces: ee_vsprintf
-- returns, and what it writes is the characters and, for each number, what `number` returns for the
-- conversion's base, the width, the precision, and a type that has the bit of each flag: bit 0 for
-- 0, 2 for +, 3 for space, 4 for - and 5 for #, with bit 1 for d and bit 6 for X.
pub ee_vsprintf_lem :
    (fuel : ℕ) (qs : List Piece)
    → ArePieces qs
    → length qs < fuel
    → (text : List ℕ) × (ee_vsprintf fuel (format qs) (arguments qs) ≡ ok text) × AllShow qs text
unfolding ee_vsprintf
ee_vsprintf_lem fuel qs good enough = vsprintf_loop-AllShow fuel qs [] good enough
