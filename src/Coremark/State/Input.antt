-- ===== src/Coremark/State/Input.antt =====
-- core_init_state of coremark/src/core_state.c: the text that the state machine scans.
pub mod Tokens
pub mod Filling
pub mod Kinds
use gandiva.Base.{
  ℕ, zero, suc, ◌+◌, ◌-◌, ◌*◌, ◌/◌, ◌%◌, ◌^◌, Bool, true, false, List, [], ◌∷◌, ltb, leb, ◌==◌,
  if◌then◌else◌, u16, u32, shr, low_bits, length, get_or, Run, ok, out_of_fuel, ◌>>=◌, load, store,
  codes,
}

-- Default initialization patterns
abbrev pub intpat : List (List ℕ)
intpat = codes "5012" ∷ codes "1234" ∷ codes "-874" ∷ codes "+122" ∷ []

abbrev pub floatpat : List (List ℕ)
floatpat = codes "35.54400" ∷ codes ".1234500" ∷ codes "-110.700" ∷ codes "+0.64400" ∷ []

abbrev pub scipat : List (List ℕ)
scipat = codes "5.500e+3" ∷ codes "-.123e-2" ∷ codes "-87e+832" ∷ codes "+0.6e-12" ∷ []

abbrev pub errpat : List (List ℕ)
errpat = codes "T0.3e-1F" ∷ codes "-T.T++Tq" ∷ codes "1T3.4e4z" ∷ codes "34.0e-T^" ∷ []

-- The `switch (seed & 0x7)`: the string that `buf` is set to, and `next`.
unfoldable pub buf_of : ℕ → List ℕ
buf_of seed =
    let flag = low_bits seed 3 in
    let at = low_bits (shr seed 3) 2 in
    if leb flag 2
    then get_or intpat at []
    else if leb flag 4
    then get_or floatpat at []
    else if leb flag 6
    then get_or scipat at []
    else get_or errpat at []

unfoldable pub next_of : ℕ → ℕ
next_of seed = if leb (low_bits seed 3) 2 then 4 else 8

-- for (i = 0; i < next; i++) *(p + total + i) = buf[i]; with `n` rounds left.
unfoldable pub copy : ℕ → ℕ → List ℕ → ℕ → List ℕ → Run (List ℕ)
copy zero i buf total p = ok p
copy (suc n) i buf total p =
    load buf i >>= λ v. store p (total + i) v >>= λ p'. copy n (i + 1) buf total p'

pub record Filled : Type 0 where
  pub total : ℕ
  pub block : List ℕ

abbrev pub filled : ℕ → List ℕ → Filled
filled t b = record { total = t; block = b }

-- The body of `if (next > 0)`.
unfoldable pub place : ℕ → List ℕ → ℕ → List ℕ → Run Filled
place next buf total p =
    if ltb 0 next
    then (copy next 0 buf total p >>= λ p'.
        store p' (total + next) b',' >>= λ p''. ok (filled (u32 (total + (next + 1))) p''))
    else ok (filled total p)

-- while ((total + next + 1) < size)
unfoldable pub fill_loop : ℕ → ℕ → ℕ → ℕ → ℕ → List ℕ → List ℕ → Run Filled
fill_loop zero size seed total next buf p = out_of_fuel
fill_loop (suc fuel) size seed total next buf p =
    let seed' = u16 (seed + 1) in
    let body = place next buf total p >>= λ f.
    fill_loop fuel size seed' f.total (next_of seed') (buf_of seed') f.block in
    if ltb (u32 (total + next + 1)) size then body else ok (filled total p)

-- while (total < size) { *(p + total) = 0; total++; }
unfoldable pub zero_loop : ℕ → ℕ → ℕ → List ℕ → Run (List ℕ)
zero_loop zero size total p = out_of_fuel
zero_loop (suc fuel) size total p =
    let body = store p total 0 >>= λ p'. zero_loop fuel size (total + 1) p' in
    if ltb total size then body else ok p

-- `size--` and `size++` around the loop wrap; a round of the loop adds a byte or more to `total`,
-- but for the first.
unfoldable pub core_init_state : ℕ → ℕ → List ℕ → Run (List ℕ)
core_init_state size seed p = fill_loop (size + 2) (u32 (size + 2 ^ 32 - 1)) seed 0 0 [] p >>= λ f.
    zero_loop (size + 1) size f.total f.block
