-- ===== src/Coremark/Main/Report/Verdict.antt =====
-- Which verdict main prints at the end of its report.
use mathlib.Core.Path.{subst}
use gandiva.Base.{ℕ, ◌^◌, ◌<◌, ◌≡◌, ◌≢◌, refl, arith, ne→==, neg16, false, none, some, [], ◌∷◌, ok}
use gandiva.Coremark.Main.Setup.{Seeds}
use gandiva.Coremark.Main.Report.{seedcrc, known_id, Crcs, Sizes, total_errors}
use gandiva.Coremark.Main.Report.Valid.{
  AllAgree, Fitting, errors_of_lem, known_id_lt, check_data_types_iff,
}
use gandiva.Coremark.Main.Report.Print.{verdict, validated, detected, cannot_validate}

verdict_none : verdict 0 ≡ validated ∷ []
unfolding verdict
verdict_none = refl

verdict_some : (n : ℕ) → n ≢ 0 → n < 2 ^ 15 → verdict n ≡ detected ∷ []
unfolding verdict
verdict_some n some_errors small =
    let positive : neg16 n ≡ false = ground arith in rw (ne→== n 0 some_errors, positive) refl

verdict_unknown : verdict 0xffff ≡ cannot_validate ∷ []
unfolding verdict
verdict_unknown = refl

-- For data types of the right sizes, main prints exactly one verdict. For the seeds and the size of a
-- known run it is that the operation is validated if every algorithm that is executed has the CRC
-- known for that run, and else that errors are detected; for other seeds it is that the operation
-- cannot be validated.
pub total_errors-verdict :
    (s : Seeds) (size : ℕ) (c : Crcs) (sizes : Sizes)
    → Fitting sizes
    → (n : ℕ) × (total_errors s size c sizes ≡ ok n)
      × ((id : ℕ)
          → known_id (seedcrc s size) ≡ some id
          → AllAgree s.execs c id
          → verdict n ≡ validated ∷ [])
      × ((id : ℕ)
          → known_id (seedcrc s size) ≡ some id
          → ¬ AllAgree s.execs c id
          → verdict n ≡ detected ∷ [])
      × (known_id (seedcrc s size) ≡ none → verdict n ≡ cannot_validate ∷ [])
unfolding total_errors
total_errors-verdict s size c sizes fit =
    let o = known_id (seedcrc s size) in
    let (n, e, iff, unknown, few) =
      errors_of_lem o s.execs c sizes (known_id_lt (seedcrc s size))
        ((check_data_types_iff sizes).1 fit) in
    (
      n,
      e,
      λ id known agree. let zero : n ≡ 0 = iff.1 (id, known, agree) in rw zero verdict_none,
      λ id known differ.
          let small = few id known in
          verdict_some n
            (λ z.
              let found = iff.0 z in
              let same : found.0 ≡ id = cc in
              differ (subst (λ k. AllAgree s.execs c k) same found.2))
            (omega arith),
      λ absent. let all : n ≡ 0xffff = unknown absent in rw all verdict_unknown,
    )
