-- ===== src/Coremark/Printf/Format.antt =====
-- ee_vsprintf and ee_printf of coremark/src/barebones/ee_printf.c, without HAS_FLOAT. An int is its
-- 32-bit pattern, and what is written through `str` the list of its bytes.
pub mod Reading
pub mod Numbers
pub mod Pieces
use gandiva.Base.{
  ℕ, zero, suc, ◌+◌, ◌-◌, ◌^◌, ◌==◌, ltb, if◌then◌else◌, Bool, not, ◌&&◌, ◌||◌, bit_or, Option,
  none, some, List, [], ◌∷◌, ◌++◌, take, length, replicate, neg32, neg_u32, u8, u32, codes, Run, ok,
  fault, out_of_fuel, ◌>>=◌,
}
use gandiva.Coremark.Printf.{left, is_digit, strnlen, skip_atoi, number, eaddr, iaddr}

-- The arguments: a number of 32 bits, or a pointer to bytes, where `none` is NULL.
pub data Arg : Type 0 where
  word : ℕ → Arg
  bytes : Option (List ℕ) → Arg

abbrev pub minus_one : ℕ
minus_one = 0xffff_ffff

-- A negative size acts as 0 in number, eaddr, iaddr and in the loops below.
abbrev pub clip : ℕ → ℕ
clip x = if neg32 x then 0 else x

-- The directive as far as it is read, with `fmt` the text from `*fmt` on.
pub record Directive : Type 0 where
  pub fmt : List ℕ
  pub args : List Arg
  pub flags : ℕ
  pub field_width : ℕ
  pub precision : ℕ
  pub qualifier : ℕ

-- The bit of a flag character, or 0.
abbrev pub flag_of : ℕ → ℕ
flag_of c =
    if c == 0x2d
    then 2 ^ 4
    else (if c == 0x2b
        then 2 ^ 2
        else (if c == 0x20
            then 2 ^ 3
            else (if c == 0x23 then 2 ^ 5 else (if c == 0x30 then 2 ^ 0 else 0))))

-- repeat: fmt++; switch (*fmt)
unfoldable pub flags_loop : ℕ → List ℕ → Run (ℕ × List ℕ)
flags_loop flags [] = fault
flags_loop flags (c ∷ fmt) =
    let rest = flags_loop (bit_or flags (flag_of c)) fmt in
    if flag_of c == 0 then ok (flags, c ∷ fmt) else rest

-- va_arg(args, int): what is read, and the arguments behind it.
abbrev pub next_word : List Arg → Run (ℕ × List Arg)
next_word [] = fault
next_word (bytes b ∷ args) = fault
next_word (word v ∷ args) = ok (v, args)

abbrev pub next_bytes : List Arg → Run (Option (List ℕ) × List Arg)
next_bytes [] = fault
next_bytes (word v ∷ args) = fault
next_bytes (bytes b ∷ args) = ok (b, args)

-- Get field width
unfoldable pub read_width : Directive → List ℕ → Run Directive
read_width d [] = fault
read_width d (c ∷ fmt) =
    let star = next_word d.args >>= λ r. ok (
      if neg32 r.0
      then record d {
        fmt = fmt;
        args = r.1;
        field_width = neg_u32 r.0;
        flags = bit_or d.flags (2 ^ 4);
      }
      else record d { fmt = fmt; args = r.1; field_width = r.0 }) in
    let number = skip_atoi 0 (c ∷ fmt) >>= λ r. ok (record d { fmt = r.1; field_width = r.0 }) in
    if is_digit c then number else (if c == 0x2a then star else ok d)

-- What follows the point.
unfoldable pub precision_at : Directive → List ℕ → Run Directive
precision_at d [] = fault
precision_at d (c ∷ fmt) =
    let number = skip_atoi 0 (c ∷ fmt) >>= λ r. ok (record d { fmt = r.1; precision = clip r.0 }) in
    let star =
      next_word d.args >>= λ r. ok (record d { fmt = fmt; args = r.1; precision = clip r.0 }) in
    if is_digit c
    then number
    else (if c == 0x2a then star else ok (record d { fmt = c ∷ fmt; precision = 0 }))

-- Get the precision
unfoldable pub read_precision : Directive → List ℕ → Run Directive
read_precision d [] = fault
read_precision d (c ∷ fmt) = let point = precision_at d fmt in if c == 0x2e then point else ok d

-- Get the conversion qualifier
unfoldable pub read_qualifier : Directive → List ℕ → Run Directive
read_qualifier d [] = fault
read_qualifier d (c ∷ fmt) =
    ok (if (c == 0x6c) || (c == 0x4c) then record d { fmt = fmt; qualifier = c } else d)

-- The directive from behind its `%`, up to the conversion.
unfoldable pub read_directive : List ℕ → List Arg → Run Directive
read_directive fmt args = flags_loop 0 fmt >>= λ r.
    let d : Directive = record {
      fmt = r.1;
      args = args;
      flags = r.0;
      field_width = minus_one;
      precision = minus_one;
      qualifier = minus_one;
    } in
    read_width d r.1 >>= λ d₁. read_precision d₁ d₁.fmt >>= λ d₂. read_qualifier d₂ d₂.fmt

-- What a conversion writes, the format behind it and the arguments left.
pub record Converted : Type 0 where
  pub text : List ℕ
  pub fmt : List ℕ
  pub args : List Arg

-- str = number(...), whose NULL ends in an access through it.
abbrev pub written : Option (List ℕ) → Run (List ℕ)
written none = fault
written (some text) = ok text

unfoldable pub convert_number : ℕ → ℕ → Directive → List ℕ → Run Converted
convert_number base flags d rest = next_word d.args >>= λ r.
    number r.0 base (clip d.field_width) (clip d.precision) flags >>= λ o.
    written o >>= λ text. ok (record { text = text; fmt = rest; args = r.1 })

-- case 'c'
unfoldable pub convert_char : Directive → List ℕ → Run Converted
convert_char d rest = next_word d.args >>= λ r.
    let pad = replicate (clip d.field_width - 1) 0x20 in
    ok (record {
      text = if left d.flags then u8 r.0 ∷ pad else pad ++ u8 r.0 ∷ [];
      fmt = rest;
      args = r.1;
    })

abbrev pub or_null : Option (List ℕ) → List ℕ
or_null none = codes "<NULL>" ++ 0 ∷ []
or_null (some s) = s

-- case 's'
unfoldable pub convert_text : Directive → List ℕ → Run Converted
convert_text d rest = next_bytes d.args >>= λ r.
    let s = or_null r.0 in
    strnlen s d.precision >>= λ len.
    let pad = replicate (clip d.field_width - len) 0x20 in
    ok (record {
      text = if left d.flags then take len s ++ pad else pad ++ take len s;
      fmt = rest;
      args = r.1;
    })

-- case 'p'
unfoldable pub convert_pointer : Directive → List ℕ → Run Converted
convert_pointer d rest =
    if d.field_width == minus_one
    then convert_number 16 (bit_or d.flags (2 ^ 0)) (record d { field_width = 8 }) rest
    else convert_number 16 d.flags d rest

abbrev pub address_of : Option (List ℕ) → Run (List ℕ)
address_of none = fault
address_of (some s) = ok s

-- case 'a'
unfoldable pub convert_address : ℕ → Directive → List ℕ → Run Converted
convert_address flags d rest = next_bytes d.args >>= λ r. address_of r.0 >>= λ addr.
    (if d.qualifier == 0x6c
      then eaddr addr (clip d.field_width) flags
      else iaddr addr (clip d.field_width) flags)
    >>= λ text. ok (record { text = text; fmt = rest; args = r.1 })

-- The default case. A format that ends here is read again, and ends the loop.
unfoldable pub convert_other : ℕ → Directive → List ℕ → Run Converted
convert_other c d rest = ok (record {
  text = (if c == 0x25 then [] else 0x25 ∷ []) ++ (if c == 0 then [] else c ∷ []);
  fmt = if c == 0 then c ∷ rest else rest;
  args = d.args;
})

-- switch (*fmt)
unfoldable pub convert : Directive → List ℕ → Run Converted
convert d [] = fault
convert d (c ∷ rest) =
    if c == 0x63
    then convert_char d rest
    else (if c == 0x73
        then convert_text d rest
        else (if c == 0x70
            then convert_pointer d rest
            else (if c == 0x41
                then convert_address (bit_or d.flags (2 ^ 6)) d rest
                else (if c == 0x61
                    then convert_address d.flags d rest
                    else (if c == 0x6f
                        then convert_number 8 d.flags d rest
                        else (if c == 0x58
                            then convert_number 16 (bit_or d.flags (2 ^ 6)) d rest
                            else (if c == 0x78
                                then convert_number 16 d.flags d rest
                                else (if (c == 0x64) || (c == 0x69)
                                    then convert_number 10 (bit_or d.flags (2 ^ 1)) d rest
                                    else (if c == 0x75
                                        then convert_number 10 d.flags d rest
                                        else convert_other c d rest)))))))))

-- for (str = buf; *fmt; fmt++), with `out` what is in buf.
unfoldable pub vsprintf_loop : ℕ → List ℕ → List Arg → List ℕ → Run (List ℕ)
vsprintf_loop zero fmt args out = out_of_fuel
vsprintf_loop (suc fuel) [] args out = fault
vsprintf_loop (suc fuel) (c ∷ fmt) args out =
    let plain = vsprintf_loop fuel fmt args (out ++ c ∷ []) in
    let special = read_directive fmt args >>= λ d.
    convert d d.fmt >>= λ r. vsprintf_loop fuel r.fmt r.args (out ++ r.text) in
    if c == 0 then ok out else (if c == 0x25 then special else plain)

unfoldable pub ee_vsprintf : ℕ → List ℕ → List Arg → Run (List ℕ)
ee_vsprintf fuel fmt args = vsprintf_loop fuel fmt args []

-- while (*p), on buf: what is sent.
unfoldable pub send_until_nul : List ℕ → Run (List ℕ)
send_until_nul [] = fault
send_until_nul (c ∷ buf) =
    let rest = send_until_nul buf >>= λ sent. ok (c ∷ sent) in if c == 0 then ok [] else rest

-- ee_printf: what is sent and the number that it returns. buf has 1024 bytes, the last text byte
-- is followed by a zero byte, and ee_vsprintf does not know the size.
unfoldable pub ee_printf : ℕ → List ℕ → List Arg → Run (List ℕ × ℕ)
ee_printf fuel fmt args = ee_vsprintf fuel fmt args >>= λ text.
    let sending = send_until_nul (text ++ 0 ∷ []) >>= λ sent. ok (sent, u32 (length sent)) in
    if ltb (length text) 1024 then sending else fault
