-- ===== src/Tests/State.antt =====
-- The state machine, its text and the passes over it, at concrete texts.
use gandiva.Base.{
  ℕ, zero, suc, ◌+◌, ◌≤◌, ◌<◌, ◌≡◌, ◌↔◌, refl, arith, List, [], ◌∷◌, ◌++◌, length, drop, replicate,
  codes, u16, ok, false,
}
use gandiva.Coremark.State.{
  int, Scanned, core_state_transition, corrupt, Benched, core_bench_state, no_counts, is_invalid,
}
use gandiva.Coremark.State.Grammar.{Format}
use gandiva.Coremark.State.Grammar.Classify.{comma, sep_byte, behind, transition_classifies}
use gandiva.Coremark.State.Corrupt.{NoCommaMade, corrupt_twice}
use gandiva.Coremark.State.Bench.{core_bench_state_restores}
use gandiva.Coremark.State.Input.{core_init_state}
use gandiva.Coremark.State.Input.Tokens.{token, tokens}
use gandiva.Coremark.State.Input.Filling.{core_init_state_lem}
use gandiva.Coremark.State.Input.Kinds.{kind_of, init_token_scans}

abbrev text : List ℕ
text = codes "12," ++ 0 ∷ []

transition_classifies_example :
    (out : Scanned) × (core_state_transition (codes "12" ++ sep_byte comma ∷ 0 ∷ []) no_counts
      ≡ ok out)
    × ((out.state ≡ int) ↔ Format int (codes "12"))
    × (Format int (codes "12") → out.rest ≡ behind comma (0 ∷ []))
transition_classifies_example =
    transition_classifies int (codes "12") comma (0 ∷ []) no_counts refl
      (refl, refl, (refl, refl, tt))

no_comma : NoCommaMade 4 0x15 2 text
no_comma zero lt hit ne e = omega arith
no_comma (suc zero) lt hit ne e = omega arith
no_comma (suc (suc zero)) lt hit ne e = ne refl
no_comma (suc (suc (suc zero))) lt hit ne e = omega arith
no_comma (suc (suc (suc (suc j)))) lt hit ne e = omega arith

corrupt_twice_example :
    (mid : List ℕ) × (out : List ℕ) × (corrupt 5 4 0x15 2 0 text ≡ ok mid)
    × (corrupt 5 4 0x15 2 0 mid ≡ ok out)
    × ((out ≡ text) ↔ NoCommaMade 4 0x15 2 text)
corrupt_twice_example = corrupt_twice 4 0x15 2 text (omega arith) (omega arith) (omega arith)

core_bench_state_restores_example :
    (out : Benched) × (core_bench_state 4 text 0x15 0x15 2 0 ≡ ok out) × (out.memblock ≡ text)
core_bench_state_restores_example =
    core_bench_state_restores 4 text 0x15 2 0 (omega arith) (omega arith) (omega arith)
      (3, omega arith, refl, refl) no_comma

core_init_state_lem_example :
    (n : ℕ) × (zeros : ℕ) × (core_init_state 20 0 (replicate 24 7)
      ≡ ok (tokens n (u16 (0 + 1)) ++ (replicate zeros 0 ++ drop 20 (replicate 24 7))))
    × (length (tokens n (u16 (0 + 1))) + zeros ≡ 20)
    × (0 < zeros)
    × (zeros ≤ 10)
core_init_state_lem_example =
    core_init_state_lem 20 0 (replicate 24 7) (omega arith) (omega arith) (omega arith)

init_token_scans_example :
    (out : Scanned) × (core_state_transition (token 3 ++ 0 ∷ []) no_counts ≡ ok out)
    × (out.state ≡ kind_of 3)
    × (is_invalid (kind_of 3) ≡ false → out.rest ≡ 0 ∷ [])
init_token_scans_example = init_token_scans 3 (0 ∷ []) no_counts
