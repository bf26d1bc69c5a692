-- ===== src/Dhrystone/Format.antt =====
-- dhr_printf of dhrystone/src/dhry_port.c on the formats that the benchmark prints with.
pub mod Rounds
use gandiva.Base.{
  ℕ, zero, suc, ◌+◌, ◌-◌, ◌/◌, ◌%◌, ◌^◌, ◌≤◌, ◌<◌, ◌≡◌, ◌≢◌, refl, sym, ap, ◌∙◌, arith, ◌⊎◌, inl,
  inr, Bool-cases, ◌==◌, ne→==, leb, true, false, neg32, neg_u32, u8, u32, List, [], ◌∷◌, ◌++◌,
  append_assoc, append-nil, codes, length, length-append, replicate, ok,
}
use gandiva.Rtos.Console.{fill_buf, send_unsigned}
use gandiva.Rtos.Console.Decimal.{IsDecimal, send_unsigned-IsDecimal}
use gandiva.Dhrystone.Final.{all_nonzero}
use gandiva.Dhrystone.Port.{
  Arg, word, text, Sent, put, put_all, put_text, fill_decimal, put_padded, put_unsigned, put_signed,
  convert, width_loop, directive, printf_loop, dhr_printf,
}

-- A piece of a format with its argument: a character, %d with a zero-padded width or with none
-- (0), %c, %s and %%.
pub data Piece : Type 0 where
  lit : ℕ → Piece
  dec : ℕ → ℕ → Piece
  chr : ℕ → Piece
  str : List ℕ → Piece
  percent : Piece

abbrev pub piece_text : Piece → List ℕ
piece_text (lit c) = c ∷ []
piece_text (dec zero v) = codes "%d"
piece_text (dec (suc w) v) = 0x25 ∷ 0x30 ∷ (0x31 + w) ∷ 0x64 ∷ []
piece_text (chr v) = codes "%c"
piece_text (str s) = codes "%s"
piece_text percent = codes "%%"

abbrev pub piece_args : Piece → List Arg
piece_args (lit c) = []
piece_args (dec w v) = word v ∷ []
piece_args (chr v) = word v ∷ []
piece_args (str s) = text (s ++ 0 ∷ []) ∷ []
piece_args percent = []

abbrev pub IsPiece : Piece → Type 0
IsPiece (lit c) = (c ≢ 0) × (c ≢ 0x25)
IsPiece (dec w v) = (w ≤ 9) × (v < 2 ^ 32)
IsPiece (chr v) = Unit {0}
IsPiece (str s) = all_nonzero s ≡ true
IsPiece percent = Unit {0}

-- Decimal digits of `u` with zeros before them up to `w` characters.
abbrev pub ZeroPadded : ℕ → ℕ → List ℕ → Type 0
ZeroPadded w u bytes =
    (digits : List ℕ) × (bytes ≡ replicate (w - length digits) 0x30 ++ digits) × IsDecimal u digits

-- What a piece prints as.
abbrev pub Shows : Piece → List ℕ → Type 0
Shows (lit c) bytes = bytes ≡ c ∷ []
Shows (dec w v) bytes =
    ((v < 2 ^ 31) × ZeroPadded w v bytes)
    ⊎ ((2 ^ 31 ≤ v) × (tail : List ℕ) × (bytes ≡ 0x2d ∷ tail) × ZeroPadded w (2 ^ 32 - v) tail)
Shows (chr v) bytes = bytes ≡ u8 v ∷ []
Shows (str s) bytes = bytes ≡ s
Shows percent bytes = bytes ≡ 0x25 ∷ []

abbrev pub format : List Piece → List ℕ
format [] = 0 ∷ []
format (p ∷ ps) = piece_text p ++ format ps

abbrev pub arguments : List Piece → List Arg
arguments [] = []
arguments (p ∷ ps) = piece_args p ++ arguments ps

abbrev pub ArePieces : List Piece → Type 0
ArePieces [] = Unit {0}
ArePieces (p ∷ ps) = IsPiece p × ArePieces ps

abbrev pub AllShow : List Piece → List ℕ → Type 0
AllShow [] bytes = bytes ≡ []
AllShow (p ∷ ps) bytes =
    (first : List ℕ) × (rest : List ℕ) × (bytes ≡ first ++ rest) × Shows p first × AllShow ps rest

-- The bytes sent, with their number as the count.
abbrev pub sent : List ℕ → Sent
sent bs = record { bytes = bs; count = u32 (length bs) }
