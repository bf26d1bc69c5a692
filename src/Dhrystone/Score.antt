-- ===== src/Dhrystone/Score.antt =====
-- The score that main of dhrystone/src/dhry_1.c prints.
use gandiva.Base.{
  ℕ, ◌+◌, ◌*◌, ◌/◌, ◌%◌, ◌^◌, ◌≤◌, ◌<◌, ◌≡◌, refl, arith, ◌==◌, ne→==, ltb, lt→ltb, if◌then◌else◌,
  u32, Run, ok, fault, ◌>>=◌,
}

abbrev pub clk_freq_hz : ℕ
clk_freq_hz = 50000000

-- The times Number_Of_Runs, which is a positive int, and Elapsed on 64 bits.
abbrev pub u64 : ℕ → ℕ
u64 x = x % 2 ^ 64

pub record Score : Type 0 where
  pub us_per_run : ℕ
  pub dhrystones_per_sec : ℕ
  pub dmips : ℕ
  pub dmips_frac : ℕ
  pub dmips_mhz : ℕ
  pub dmips_mhz_frac : ℕ

abbrev pub per_sec : ℕ → ℕ → ℕ
per_sec elapsed runs = if ltb 0 elapsed then u32 (u64 (runs * clk_freq_hz) / elapsed) else 0

-- The division is by zero without runs.
unfoldable pub micros : ℕ → ℕ → Run ℕ
micros elapsed runs =
    let cycles = u64 (runs * clk_freq_hz) in
    let quotient = if cycles == 0 then fault else ok (u32 (u64 (elapsed * 1000000) / cycles)) in
    if ltb 0 elapsed then quotient else ok 0

unfoldable pub score : ℕ → ℕ → Run Score
score elapsed runs =
    let dps = per_sec elapsed runs in
    let mhz = clk_freq_hz / 1000000 in
    let per_mhz = if ltb 0 mhz then dps / mhz else 0 in
    micros elapsed runs >>= λ us. ok (record {
      us_per_run = us;
      dhrystones_per_sec = dps;
      dmips = dps / 1757;
      dmips_frac = u32 (dps % 1757 * 1000) / 1757;
      dmips_mhz = per_mhz / 1757;
      dmips_mhz_frac = u32 (per_mhz % 1757 * 1000) / 1757;
    })

-- Thousandths: the quotient and the rest, each scaled.
thousandths : (x : ℕ) → x / 1757 * 1000 + u32 (x % 1757 * 1000) / 1757 ≡ x * 1000 / 1757
thousandths x = omega arith

thousandths_lt : (x : ℕ) → u32 (x % 1757 * 1000) / 1757 < 1000
thousandths_lt x = omega arith

small_quotient : (n c : ℕ) → n < 2 ^ 32 * 1000000 → 50000000 ≤ c → n / c < 2 ^ 32
small_quotient n c hn hc = grind arith

micros-ok :
    (elapsed runs : ℕ)
    → 0 < elapsed
    → elapsed < 2 ^ 32
    → 0 < runs
    → runs < 2 ^ 31
    → micros elapsed runs ≡ ok (elapsed * 1000000 / (runs * clk_freq_hz))
unfolding micros
micros-ok elapsed runs some fits any few =
    let e₁ : u64 (runs * clk_freq_hz) ≡ runs * clk_freq_hz = omega arith in
    let e₂ : u64 (elapsed * 1000000) ≡ elapsed * 1000000 = omega arith in
    let lt = small_quotient (elapsed * 1000000) (runs * clk_freq_hz) (omega arith) (omega arith) in
    let e₃ : u32 (elapsed * 1000000 / (runs * clk_freq_hz))
        ≡ elapsed * 1000000 / (runs * clk_freq_hz) =
      omega arith in
    rw (lt→ltb 0 elapsed some, e₁, e₂, ne→== (runs * clk_freq_hz) 0 (λ e. omega arith), e₃) refl

-- For 1 to 2^31 - 1 runs in 1 to 2^32 - 1 ticks, with a rate that fits 32 bits: the rate is the
-- number of runs times the clock's rate over the ticks, and the microseconds of a run are the ticks
-- times 10^6 over the cycles; DMIPS and DMIPS/MHz are the rate, and a fiftieth of it, over 1757, with
-- three digits behind the point, rounded down.
pub score_lem :
    (elapsed runs : ℕ)
    → 0 < elapsed
    → elapsed < 2 ^ 32
    → 0 < runs
    → runs < 2 ^ 31
    → runs * clk_freq_hz / elapsed < 2 ^ 32
    → (s : Score) × (score elapsed runs ≡ ok s)
      × (s.dhrystones_per_sec ≡ runs * clk_freq_hz / elapsed)
      × (s.us_per_run ≡ elapsed * 1000000 / (runs * clk_freq_hz))
      × (s.dmips * 1000 + s.dmips_frac ≡ s.dhrystones_per_sec * 1000 / 1757)
      × (s.dmips_frac < 1000)
      × (s.dmips_mhz * 1000 + s.dmips_mhz_frac ≡ s.dhrystones_per_sec / 50 * 1000 / 1757)
      × (s.dmips_mhz_frac < 1000)
unfolding score
score_lem elapsed runs some fits any few rate =
    let e : u64 (runs * clk_freq_hz) ≡ runs * clk_freq_hz = omega arith in
    let whole : per_sec elapsed runs ≡ runs * clk_freq_hz / elapsed =
      rw (lt→ltb 0 elapsed some, e) (omega arith) in
    (
      _,
      rw (micros-ok elapsed runs some fits any few) refl,
      whole,
      refl,
      thousandths (per_sec elapsed runs),
      thousandths_lt (per_sec elapsed runs),
      thousandths (per_sec elapsed runs / 50),
      thousandths_lt (per_sec elapsed runs / 50),
    )
