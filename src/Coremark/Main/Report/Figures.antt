-- ===== src/Coremark/Main/Report/Figures.antt =====
-- The CoreMark/MHz that main prints.
use native.Mathlib.Nat.{div-div-eq-div-mul, mul-div-mul_right}
use gandiva.Base.{
  ℕ, ◌+◌, ◌*◌, ◌/◌, ◌%◌, ◌^◌, ◌<◌, ◌≡◌, ◌≢◌, refl, ap, ◌∙◌, arith, ne→==, [], ◌∷◌, codes, u32, ok,
}
use gandiva.Coremark.Printf.Format.{word}
use gandiva.Coremark.Main.Report.Print.{Reported, call, figures}

-- Cutting the last two digits off.
hundredths : (x t : ℕ) → x * 100000000 / t / 100 ≡ x * 1000000 / t
hundredths x t =
    let scaled : x * 100000000 ≡ x * 1000000 * 100 = omega arith in
    div-div-eq-div-mul (x * 100000000) t 100
    ∙ ap (λ n. n / (t * 100)) scaled
    ∙ mul-div-mul_right (x * 1000000) t (omega arith)

-- For a run of some iterations and some ticks, where the million iterations per tick fit a word: main
-- prints the two numbers `whole` and `part` as the CoreMark/MHz, with two digits for `part`, and they
-- are the hundredths of a million iterations per tick, rounded down.
pub figures_lem :
    (r : Reported)
    → r.iterations ≢ 0
    → r.total_time ≢ 0
    → r.iterations * 1000000 / r.total_time < 2 ^ 32
    → (whole : ℕ) × (part : ℕ) × (figures r
        ≡ ok (
            call (codes "CoreMark Size    : %lu\n") (word r.size ∷ [])
            ∷ call (codes "Total ticks      : %lu\n") (word r.total_time ∷ [])
            ∷ call (codes "Total cycles     : %lu\n") (word r.total_time ∷ [])
            ∷ call (codes "Cycles/Iteration : %lu\n") (word (r.total_time / r.iterations) ∷ [])
            ∷ call (codes "CoreMark/MHz     : %lu.%02lu\n") (word whole ∷ word part ∷ [])
            ∷ []))
      × (whole * 100 + part ≡ r.iterations * 100000000 / r.total_time)
      × (part < 100)
unfolding figures
figures_lem r some_iterations some_ticks fits =
    let whole = r.iterations * 1000000 / r.total_time in
    let part = r.iterations * 100000000 / r.total_time in
    let cut = hundredths r.iterations r.total_time in
    let same : u32 whole ≡ whole = omega (arith, fits) in
    (
      u32 whole,
      u32 (part % 100),
      rw (ne→== r.iterations 0 some_iterations, ne→== r.total_time 0 some_ticks) refl,
      omega (arith, fits, cut),
      omega arith,
    )
