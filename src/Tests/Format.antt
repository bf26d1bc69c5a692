-- ===== src/Tests/Format.antt =====
-- ee_vsprintf on "=%04x%%%lu%-5.3d", with 0x1fd7, 12 and -7.
use gandiva.Base.{ℕ, ◌≤◌, ◌≡◌, refl, arith, true, false, none, some, List, [], ◌∷◌, ◌++◌, codes, ok}
use gandiva.Coremark.Printf.Format.{ee_vsprintf}
use gandiva.Coremark.Printf.Format.Reading.{signed, unsigned, hex, pad_zero, align_left}
use gandiva.Coremark.Printf.Format.Pieces.{
  Piece, lit, percent, num, format, arguments, AllShow, ee_vsprintf_lem,
}

abbrev crc : Piece
crc = num (pad_zero ∷ []) 4 none false hex 0x1fd7

abbrev ticks : Piece
ticks = num [] 0 none true unsigned 12

abbrev minus : Piece
minus = num (align_left ∷ []) 5 (some 3) false signed 0xffff_fff9

abbrev pieces : List Piece
pieces = lit 61 ∷ crc ∷ percent ∷ ticks ∷ minus ∷ []

pieces_text : format pieces ≡ codes "=%04x%%%lu%-5.3d" ++ 0 ∷ []
pieces_text = refl

small_precision : (n : ℕ) → some 3 ≡ some n → n ≤ 9
small_precision n e = grind arith

no_precision : (n : ℕ) → none ≡ some n → n ≤ 9
no_precision n e = absurd (grind arith)

ee_vsprintf_lem_example :
    (text : List ℕ) × (ee_vsprintf 6 (format pieces) (arguments pieces) ≡ ok text)
    × AllShow pieces text
ee_vsprintf_lem_example =
    ee_vsprintf_lem 6 pieces
      (
        (λ e. omega arith, λ e. omega arith),
        (
          (omega arith, no_precision, omega arith),
          (
            tt,
            (
              (omega arith, no_precision, omega arith),
              ((omega arith, small_precision, omega arith), tt),
            ),
          ),
        ),
      )
      (omega arith)
