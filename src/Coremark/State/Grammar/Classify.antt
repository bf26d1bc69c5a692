-- ===== src/Coremark/State/Grammar/Classify.antt =====
-- core_state_transition against the formats: what it returns for a token that ends with a comma or
-- with the text.
use gandiva.Base.{
  ℕ, ◌≡◌, ◌↔◌, refl, ap, sym, ◌∙◌, inl, inr, true, false, List, [], ◌∷◌, ◌++◌, ◌==◌, Bool-cases,
  Run, ok,
}
use gandiva.Coremark.State.{
  CoreState, start, invalid, s1, s2, int, float, exponent, scientific, is_invalid, dispatch, count,
  Counts, Scanned, scanned, transition_loop, core_state_transition,
}
use gandiva.Coremark.State.Grammar.{Format, after, after-invalid, is_format}
use gandiva.Coremark.State.Grammar.Sound.{Format-of_after}
use gandiva.Coremark.State.Grammar.Complete.{after_of_Format}

-- No byte of a token is a comma or zero; one of these follows it.
abbrev pub Plain : List ℕ → Type 0
Plain [] = Unit
Plain (c ∷ t) = ((c == 0) ≡ false) × ((c == b',') ≡ false) × Plain t

pub data Separator : Type 0 where
  comma nul : Separator

abbrev pub sep_byte : Separator → ℕ
sep_byte comma = b','
sep_byte nul = 0

-- A comma is passed over, the zero byte is not.
abbrev pub behind : Separator → List ℕ → List ℕ
behind comma rest = rest
behind nul rest = 0 ∷ rest

invalid_of_test : (s : CoreState) → is_invalid s ≡ true → s ≡ invalid
invalid_of_test invalid h = refl
invalid_of_test start h = cc
invalid_of_test s1 h = cc
invalid_of_test s2 h = cc
invalid_of_test int h = cc
invalid_of_test float h = cc
invalid_of_test exponent h = cc
invalid_of_test scientific h = cc

-- The state that a run ends in, and what it leaves unless that is `invalid`.
abbrev pub EndsAt : CoreState → Separator → List ℕ → Run Scanned → Type 0
EndsAt s sep rest r =
    (out : Scanned) × (r ≡ ok out)
    × (out.state ≡ s)
    × (is_invalid s ≡ false → out.rest ≡ behind sep rest)

at_separator :
    (s : CoreState) (sep : Separator) (rest : List ℕ) (k : Counts)
    → EndsAt s sep rest (transition_loop s (sep_byte sep ∷ rest) k)
unfolding transition_loop
at_separator s nul rest k = (scanned s (0 ∷ rest) k, refl, refl, λ h. refl)
at_separator s comma rest k = elim (Bool-cases (is_invalid s)) [
  | inl i ↦ rw i (scanned s (b',' ∷ rest) k, refl, refl, λ h. cc)
  | inr v ↦ rw v (scanned s rest k, refl, refl, λ h. refl)
]

stops :
    (s : CoreState) (c : ℕ) (p : List ℕ) (sep : Separator) (rest : List ℕ) (k : Counts)
    → (c == 0) ≡ false
    → is_invalid s ≡ true
    → EndsAt s sep rest (transition_loop s (c ∷ p) k)
unfolding transition_loop
stops s c p sep rest k nz i = rw (nz, i) (scanned s (c ∷ p) k, refl, refl, λ h. cc)

goes_on :
    (s : CoreState) (c : ℕ) (p : List ℕ) (k : Counts)
    → (c == 0) ≡ false
    → (c == b',') ≡ false
    → is_invalid s ≡ false
    → transition_loop s (c ∷ p) k ≡ transition_loop (dispatch s c) p (count s c k)
unfolding transition_loop
goes_on s c p k nz nc v = rw (nz, v, nc)

format_valid : (f : CoreState) → is_format f ≡ true → is_invalid f ≡ false
format_valid start h = refl
format_valid invalid h = cc
format_valid _ h = refl

loop-EndsAt :
    (s : CoreState) (tok : List ℕ) (sep : Separator) (rest : List ℕ) (k : Counts)
    → Plain tok
    → EndsAt (after s tok) sep rest (transition_loop s (tok ++ sep_byte sep ∷ rest) k)
unfolding after
loop-EndsAt s [] sep rest k p = at_separator s sep rest k
loop-EndsAt s (c ∷ tok) sep rest k (nz, nc, p) =
    let next = loop-EndsAt (dispatch s c) tok sep rest (count s c k) p in
    elim (Bool-cases (is_invalid s)) [
      | inl i ↦
          let stuck = invalid_of_test s i in
          let e : after (dispatch s c) tok ≡ s =
            ap (λ q. after q (c ∷ tok)) stuck ∙ after-invalid (c ∷ tok) ∙ sym stuck in
          rw e (stops s c (tok ++ sep_byte sep ∷ rest) sep rest k nz i)
      | inr v ↦ rw (goes_on s c (tok ++ sep_byte sep ∷ rest) k nz nc v) next
    ]

pub transition-EndsAt :
    (tok : List ℕ) (sep : Separator) (rest : List ℕ) (k : Counts)
    → Plain tok
    → EndsAt (after start tok) sep rest (core_state_transition (tok ++ sep_byte sep ∷ rest) k)
unfolding core_state_transition
transition-EndsAt tok sep rest k p = loop-EndsAt start tok sep rest k p

-- For a token that a comma or the end of the text follows, the state machine returns the state
-- of a format exactly when the token has that format, and then leaves what follows the comma.
pub transition_classifies :
    (f : CoreState) (tok : List ℕ) (sep : Separator) (rest : List ℕ) (k : Counts)
    → is_format f ≡ true
    → Plain tok
    → (out : Scanned) × (core_state_transition (tok ++ sep_byte sep ∷ rest) k ≡ ok out)
      × ((out.state ≡ f) ↔ Format f tok)
      × (Format f tok → out.rest ≡ behind sep rest)
unfolding core_state_transition
transition_classifies f tok sep rest k h p =
    let (out, e, s, r) = loop-EndsAt start tok sep rest k p in
    let accepted = λ (q : Format f tok). s ∙ after_of_Format f tok h q in
    (
      out,
      e,
      (λ q. Format-of_after f tok h (sym s ∙ q), accepted),
      λ q. r (ap is_invalid (sym s ∙ accepted q) ∙ format_valid f h),
    )
