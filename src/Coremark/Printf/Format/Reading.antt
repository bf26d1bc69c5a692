-- ===== src/Coremark/Printf/Format/Reading.antt =====
-- How ee_vsprintf reads a directive: flags, a width and a precision of one digit, and the qualifier.
use gandiva.Base.{
  ℕ, zero, suc, ◌+◌, ◌-◌, ◌*◌, ◌^◌, ◌≤◌, ◌≡◌, refl, sym, arith, ◌==◌, if◌then◌else◌, Bool, true,
  false, ◌||◌, bit_or, u32, Option, none, some, List, [], ◌∷◌, ◌++◌, ok, ◌>>=◌,
}
use gandiva.Coremark.Printf.{is_digit, skip_atoi}
use gandiva.Coremark.Printf.Format.{
  Arg, minus_one, clip, Directive, flag_of, flags_loop, read_width, precision_at, read_precision,
  read_qualifier, read_directive,
}

-- The conversions of numbers.
pub data Conversion : Type 0 where
  signed unsigned hex upper_hex octal : Conversion

abbrev pub letter : Conversion → ℕ
letter signed = 0x64
letter unsigned = 0x75
letter hex = 0x78
letter upper_hex = 0x58
letter octal = 0x6f

abbrev pub base_of : Conversion → ℕ
base_of signed = 10
base_of unsigned = 10
base_of hex = 16
base_of upper_hex = 16
base_of octal = 8

-- The flags of `number` that a conversion sets.
abbrev pub flags_for : Conversion → ℕ → ℕ
flags_for signed flags = bit_or flags (2 ^ 1)
flags_for upper_hex flags = bit_or flags (2 ^ 6)
flags_for _ flags = flags

-- The text of a width or a precision of one digit.
abbrev pub width_text : ℕ → List ℕ
width_text zero = []
width_text (suc w) = (0x31 + w) ∷ []

abbrev pub width_value : ℕ → ℕ
width_value zero = minus_one
width_value (suc w) = suc w

abbrev pub precision_text : Option ℕ → List ℕ
precision_text none = []
precision_text (some p) = 0x2e ∷ (0x30 + p) ∷ []

abbrev pub precision_value : Option ℕ → ℕ
precision_value none = minus_one
precision_value (some p) = p

abbrev pub long_text : Bool → List ℕ
long_text true = 0x6c ∷ []
long_text false = []

-- The flags of a directive.
pub data Flag : Type 0 where
  pad_zero show_plus show_space align_left alternate : Flag

abbrev pub flag_char : Flag → ℕ
flag_char pad_zero = 0x30
flag_char show_plus = 0x2b
flag_char show_space = 0x20
flag_char align_left = 0x2d
flag_char alternate = 0x23

-- The bit of a flag in the type that `number` takes.
abbrev pub flag_bit : Flag → ℕ
flag_bit pad_zero = 2 ^ 0
flag_bit show_plus = 2 ^ 2
flag_bit show_space = 2 ^ 3
flag_bit align_left = 2 ^ 4
flag_bit alternate = 2 ^ 5

abbrev pub bits : ℕ → List Flag → ℕ
bits b [] = b
bits b (f ∷ fs) = bits (bit_or b (flag_bit f)) fs

abbrev pub flag_chars : List Flag → List ℕ
flag_chars [] = []
flag_chars (f ∷ fs) = flag_char f ∷ flag_chars fs

flag_of-char : (f : Flag) → flag_of (flag_char f) ≡ flag_bit f
flag_of-char pad_zero = refl
flag_of-char show_plus = refl
flag_of-char show_space = refl
flag_of-char align_left = refl
flag_of-char alternate = refl

some_bit : (f : Flag) → (flag_bit f == 0) ≡ false
some_bit pad_zero = refl
some_bit show_plus = refl
some_bit show_space = refl
some_bit align_left = refl
some_bit alternate = refl

flags_loop-bits :
    (b : ℕ) (fs : List Flag) (x : ℕ) (rest : List ℕ)
    → flag_of x ≡ 0
    → flags_loop b (flag_chars fs ++ x ∷ rest) ≡ ok (bits b fs, x ∷ rest)
unfolding flags_loop
flags_loop-bits b [] x rest stop = rw stop refl
flags_loop-bits b (f ∷ fs) x rest stop =
    rw (flag_of-char f, some_bit f) (flags_loop-bits (bit_or b (flag_bit f)) fs x rest stop)

-- A digit before something else.
skip_atoi-digit :
    (w x : ℕ) (rest : List ℕ)
    → w ≤ 9
    → is_digit x ≡ false
    → skip_atoi 0 ((0x30 + w) ∷ x ∷ rest) ≡ ok (w, x ∷ rest)
unfolding skip_atoi
skip_atoi-digit w x rest small stop =
    let is : is_digit (0x30 + w) ≡ true = ground arith in
    let value : u32 (0 * 10 + (0x30 + w) + (2 ^ 32 - 0x30)) ≡ w = omega arith in
    rw (is, stop, value) refl

module _ (d : Directive) (rest : List ℕ) where
  read_width-text :
      (w x : ℕ)
      → w ≤ 9
      → is_digit x ≡ false
      → (x == 0x2a) ≡ false
      → d.fmt ≡ width_text w ++ x ∷ rest
      → d.field_width ≡ minus_one
      → read_width d (width_text w ++ x ∷ rest)
        ≡ ok (record d { fmt = x ∷ rest; field_width = width_value w })
  unfolding read_width
  read_width-text zero x small stop star at unset = rw (stop, star, sym at, sym unset) refl
  read_width-text (suc w) x small stop star at unset =
      let is : is_digit (0x31 + w) ≡ true = ground arith in
      let up : 0x30 + suc w ≡ 0x31 + w = omega arith in
      rw (is, rw up at (skip_atoi-digit (suc w) x rest small stop)) refl

  read_precision-text :
      (p : Option ℕ) (x : ℕ)
      → ((n : ℕ) → p ≡ some n → n ≤ 9)
      → is_digit x ≡ false
      → (x == 0x2e) ≡ false
      → d.fmt ≡ precision_text p ++ x ∷ rest
      → d.precision ≡ minus_one
      → read_precision d (precision_text p ++ x ∷ rest)
        ≡ ok (record d { fmt = x ∷ rest; precision = precision_value p })
  unfolding read_precision precision_at
  read_precision-text none x small stop point at unset = rw (point, sym at, sym unset) refl
  read_precision-text (some p) x small stop point at unset =
      let le = small p refl in
      let is : is_digit (0x30 + p) ≡ true = ground arith in
      let pos : clip p ≡ p = ground arith in rw (is, skip_atoi-digit p x rest le stop, pos) refl

-- What a letter is not.
record IsLetter (x : ℕ) : Type 0 where
  no_flag : flag_of x ≡ 0
  no_digit : is_digit x ≡ false
  no_star : (x == 0x2a) ≡ false
  no_point : (x == 0x2e) ≡ false

letter-IsLetter : (c : Conversion) → IsLetter (letter c)
letter-IsLetter signed = record { no_flag = refl; no_digit = refl; no_star = refl; no_point = refl }
letter-IsLetter unsigned = record {
  no_flag = refl;
  no_digit = refl;
  no_star = refl;
  no_point = refl;
}
letter-IsLetter hex = record { no_flag = refl; no_digit = refl; no_star = refl; no_point = refl }
letter-IsLetter upper_hex = record {
  no_flag = refl;
  no_digit = refl;
  no_star = refl;
  no_point = refl;
}
letter-IsLetter octal = record { no_flag = refl; no_digit = refl; no_star = refl; no_point = refl }

l-IsLetter : IsLetter 0x6c
l-IsLetter = record { no_flag = refl; no_digit = refl; no_star = refl; no_point = refl }

letter_unqualified : (c : Conversion) → ((letter c == 0x6c) || (letter c == 0x4c)) ≡ false
letter_unqualified signed = refl
letter_unqualified unsigned = refl
letter_unqualified hex = refl
letter_unqualified upper_hex = refl
letter_unqualified octal = refl

-- The directive that a text is read as, before its conversion.
abbrev pub directive : List ℕ → List Arg → ℕ → ℕ → Option ℕ → Bool → Directive
directive fmt args flags w p long = record {
  fmt = fmt;
  args = args;
  flags = flags;
  field_width = width_value w;
  precision = precision_value p;
  qualifier = if long then 0x6c else minus_one;
}

abbrev pub directive_text : List Flag → ℕ → Option ℕ → List ℕ → List ℕ
directive_text fs w p tail = flag_chars fs ++ (width_text w ++ (precision_text p ++ tail))

-- The parts behind the flags, before a letter.
module _ (w : ℕ) (args : List Arg) (flags : ℕ) (p : Option ℕ) (x : ℕ) (rest : List ℕ)
    (out : Directive) (small : w ≤ 9) (little : (n : ℕ) → p ≡ some n → n ≤ 9) (is : IsLetter x)
    (run : read_qualifier (directive (x ∷ rest) args flags w p false) (x ∷ rest) ≡ ok out) where
  abbrev start : Directive
  start = directive (width_text w ++ (precision_text p ++ x ∷ rest)) args flags 0 none false

  precise :
      read_precision
        (directive (precision_text p ++ x ∷ rest) args flags w none false)
        (precision_text p ++ x ∷ rest)
      ≡ ok (directive (x ∷ rest) args flags w p false)
  precise =
      read_precision-text (directive (precision_text p ++ x ∷ rest) args flags w none false) rest p
        x little is.no_digit is.no_point refl refl

  wide :
      read_width start start.fmt
      ≡ ok (directive (precision_text p ++ x ∷ rest) args flags w none false)
  wide = go p refl
    where
      go :
          (p' : Option ℕ)
          → p' ≡ p
          → read_width start start.fmt
            ≡ ok (directive (precision_text p ++ x ∷ rest) args flags w none false)
      go none e = rw (sym e) (
          read_width-text (directive (width_text w ++ x ∷ rest) args flags 0 none false) rest w x
            small is.no_digit is.no_star refl refl)
      go (some n) e = rw (sym e) (
          read_width-text
            (directive (width_text w ++ (0x2e ∷ (0x30 + n) ∷ x ∷ rest)) args flags 0 none false)
            ((0x30 + n) ∷ x ∷ rest) w 0x2e small refl refl refl refl)

  fields :
      (read_width start start.fmt >>= λ d₁.
      read_precision d₁ d₁.fmt >>= λ d₂. read_qualifier d₂ d₂.fmt)
      ≡ ok out
  fields = rw (wide, precise) run

-- What stands behind the flags is no flag.
behind_flags :
    (fs : List Flag) (w : ℕ) (p : Option ℕ) (x : ℕ) (rest : List ℕ)
    → w ≤ 9
    → IsLetter x
    → flags_loop 0 (directive_text fs w p (x ∷ rest))
      ≡ ok (bits 0 fs, width_text w ++ (precision_text p ++ x ∷ rest))
behind_flags fs zero none x rest small is = flags_loop-bits 0 fs x rest is.no_flag
behind_flags fs zero (some n) x rest small is =
    flags_loop-bits 0 fs 0x2e ((0x30 + n) ∷ x ∷ rest) refl
behind_flags fs (suc w) p x rest small is =
    flags_loop-bits 0 fs (0x31 + w) (precision_text p ++ x ∷ rest) (ground arith)

read_directive-text :
    (fs : List Flag) (w : ℕ) (args : List Arg) (p : Option ℕ) (x : ℕ) (rest : List ℕ)
    (out : Directive)
    → w ≤ 9
    → ((n : ℕ) → p ≡ some n → n ≤ 9)
    → IsLetter x
    → read_qualifier (directive (x ∷ rest) args (bits 0 fs) w p false) (x ∷ rest) ≡ ok out
    → read_directive (directive_text fs w p (x ∷ rest)) args ≡ ok out
unfolding read_directive
read_directive-text fs w args p x rest out small little is run =
    rw (behind_flags fs w p x rest small is)
      (fields w args (bits 0 fs) p x rest out small little is run)

-- With the qualifier.
pub read_directive-long :
    (fs : List Flag) (w : ℕ) (args : List Arg) (p : Option ℕ) (long : Bool) (c : Conversion)
    (rest : List ℕ)
    → w ≤ 9
    → ((n : ℕ) → p ≡ some n → n ≤ 9)
    → read_directive (directive_text fs w p (long_text long ++ letter c ∷ rest)) args
      ≡ ok (directive (letter c ∷ rest) args (bits 0 fs) w p long)
unfolding read_qualifier
read_directive-long fs w args p false c rest small little =
    read_directive-text fs w args p (letter c) rest _ small little (letter-IsLetter c)
      (rw (letter_unqualified c) refl)
read_directive-long fs w args p true c rest small little =
    read_directive-text fs w args p 0x6c (letter c ∷ rest) _ small little l-IsLetter refl
