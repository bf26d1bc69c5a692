-- ===== src/Dhrystone/Port.antt =====
-- dhrystone/src/dhry_port.c: the formatter. The bytes that uart_putc sends are a list, in order.
use gandiva.Base.{
  ℕ, zero, suc, ◌+◌, ◌-◌, ◌*◌, ◌/◌, ◌%◌, ◌==◌, leb, if◌then◌else◌, ◌&&◌, neg32, neg_u32, u8, u32,
  List, [], ◌∷◌, ◌++◌, codes, length, replicate, drop, load, Run, ok, fault, out_of_fuel, ◌>>=◌,
}

abbrev pub hex_digits : List ℕ
hex_digits = codes "0123456789abcdef"

-- while (v) { buf[n++] = ...[v % base]; v /= base; } with `room` bytes left in buf. What is in buf
-- is `acc`, the last byte first.
unfoldable pub fill_digits : ℕ → ℕ → ℕ → List ℕ → Run (List ℕ)
fill_digits zero base v acc = if v == 0 then ok acc else fault
fill_digits (suc room) base v acc =
    let rest = load hex_digits (v % base) >>= λ c. fill_digits room base (v / base) (c ∷ acc) in
    if v == 0 then ok acc else rest

unfoldable pub print_uint_rev : ℕ → ℕ → Run (List ℕ)
print_uint_rev v base = if v == 0 then ok (0x30 ∷ []) else fill_digits 12 base v []

-- while (n--) uart_putc(buf[n + 1]), on the bytes of buf from its start on.
unfoldable pub send_back : ℕ → List ℕ → Run (List ℕ)
send_back zero buf = ok []
send_back (suc n) buf = load buf (n + 1) >>= λ c. send_back n buf >>= λ sent. ok (c ∷ sent)

abbrev pub reverse_onto : List ℕ → List ℕ → List ℕ
reverse_onto [] acc = acc
reverse_onto (x ∷ xs) acc = reverse_onto xs (x ∷ acc)

-- print_uint, where `buf` has the bytes that stand in the buffer at first.
unfoldable pub print_uint : List ℕ → ℕ → ℕ → Run (List ℕ)
print_uint buf v base =
    let digits = fill_digits (length buf) base v [] >>= λ acc.
    send_back (length acc) (reverse_onto acc (drop (length acc) buf)) in
    if v == 0 then ok (0x30 ∷ []) else digits

-- The arguments behind the format.
pub data Arg : Type 0 where
  word : ℕ → Arg
  text : List ℕ → Arg

-- What has been sent, and `count`.
pub record Sent : Type 0 where
  pub bytes : List ℕ
  pub count : ℕ

abbrev pub uart_putc : ℕ → Sent → Sent
uart_putc c o = record o { bytes = o.bytes ++ c ∷ [] }

-- uart_putc(c); count++;
unfoldable pub put : ℕ → Sent → Sent
put c o = let o' = uart_putc c o in record o' { count = u32 (o'.count + 1) }

unfoldable pub put_all : List ℕ → Sent → Sent
put_all [] o = o
put_all (c ∷ cs) o = put_all cs (put c o)

-- %s: up to the zero byte.
unfoldable pub put_text : List ℕ → Sent → Run Sent
put_text [] o = fault
put_text (c ∷ s) o = let rest = put_text s (put c o) in if c == 0 then ok o else rest

-- while (uv) { tmp[n++] = '0' + uv % 10; uv /= 10; }
unfoldable pub fill_decimal : ℕ → ℕ → List ℕ → Run (List ℕ)
fill_decimal zero u acc = if u == 0 then ok acc else fault
fill_decimal (suc room) u acc =
    let rest = fill_decimal room (u / 10) ((0x30 + u % 10) ∷ acc) in if u == 0 then ok acc else rest

-- The padding to the width, which is an int, and then tmp.
unfoldable pub put_padded : ℕ → ℕ → List ℕ → Sent → Sent
put_padded pad width tmp o =
    let missing = if neg32 width then 0 else width - length tmp in
    put_all tmp (put_all (replicate missing pad) o)

unfoldable pub put_unsigned : ℕ → ℕ → ℕ → Sent → Run Sent
put_unsigned pad width u o = (if u == 0 then ok (0x30 ∷ []) else fill_decimal 12 u []) >>= λ tmp.
    ok (put_padded pad width tmp o)

unfoldable pub put_signed : ℕ → ℕ → ℕ → Sent → Run Sent
put_signed pad width v o =
    if neg32 v then put_unsigned pad width (neg_u32 v) (put 0x2d o) else put_unsigned pad width v o

unfoldable pub put_hex : ℕ → ℕ → ℕ → Sent → Run Sent
put_hex pad width v o = (if v == 0 then ok (0x30 ∷ []) else fill_digits 9 16 v []) >>= λ tmp.
    ok (put_padded pad width tmp o)

-- Where the formatter stands: the format from `*fmt` on, the arguments left, and what was sent.
pub record Printing : Type 0 where
  pub fmt : List ℕ
  pub args : List Arg
  pub out : Sent

abbrev pub with_word : List Arg → (ℕ → Run Sent) → List ℕ → Run Printing
with_word [] f rest = fault
with_word (text s ∷ args) f rest = fault
with_word (word v ∷ args) f rest = f v >>= λ o. ok (record { fmt = rest; args = args; out = o })

abbrev pub with_text : List Arg → (List ℕ → Run Sent) → List ℕ → Run Printing
with_text [] f rest = fault
with_text (word v ∷ args) f rest = fault
with_text (text s ∷ args) f rest = f s >>= λ o. ok (record { fmt = rest; args = args; out = o })

-- switch (*fmt), and fmt++ behind it.
unfoldable pub convert : ℕ → ℕ → ℕ → List ℕ → List Arg → Sent → Run Printing
convert pad width c rest args o =
    if c == 0x64
    then with_word args (λ v. put_signed pad width v o) rest
    else (if c == 0x75
        then with_word args (λ v. put_unsigned pad width v o) rest
        else (if c == 0x78
            then with_word args (λ v. put_hex pad width v o) rest
            else (if c == 0x63
                then with_word args (λ v. ok (put (u8 v) o)) rest
                else (if c == 0x73
                    then with_text args (λ s. put_text s o) rest
                    else (if c == 0x25
                        then ok (record { fmt = rest; args = args; out = put 0x25 o })
                        else (let o' = uart_putc c (uart_putc 0x25 o) in
                            ok (record {
                              fmt = rest;
                              args = args;
                              out = record o' { count = u32 (o'.count + 2) };
                            })))))))

-- while (*fmt >= '0' && *fmt <= '9'), and what follows it.
unfoldable pub width_loop : ℕ → ℕ → List ℕ → List Arg → Sent → Run Printing
width_loop pad width [] args o = fault
width_loop pad width (c ∷ fmt) args o =
    let rest = width_loop pad (u32 (u32 (width * 10) + (c - 0x30))) fmt args o in
    if leb 0x30 c && leb c 0x39 then rest else convert pad width c fmt args o

-- The zero flag.
unfoldable pub directive : List ℕ → List Arg → Sent → Run Printing
directive [] args o = fault
directive (c ∷ fmt) args o =
    if c == 0x30 then width_loop 0x30 0 fmt args o else width_loop 0x20 0 (c ∷ fmt) args o

-- while (*fmt)
unfoldable pub printf_loop : ℕ → List ℕ → List Arg → Sent → Run Sent
printf_loop zero fmt args o = out_of_fuel
printf_loop (suc fuel) [] args o = fault
printf_loop (suc fuel) (c ∷ fmt) args o =
    let plain = printf_loop fuel fmt args (put c o) in
    let special = directive fmt args o >>= λ s. printf_loop fuel s.fmt s.args s.out in
    if c == 0 then ok o else (if c == 0x25 then special else plain)

unfoldable pub dhr_printf : ℕ → List ℕ → List Arg → Run Sent
dhr_printf fuel fmt args = printf_loop fuel fmt args (record { bytes = []; count = 0 })
