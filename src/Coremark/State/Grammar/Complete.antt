-- ===== src/Coremark/State/Grammar/Complete.antt =====
-- From the formats of tokens to the end states of core_state_transition.
use gandiva.Base.{
  ℕ, ◌≡◌, ◌≢◌, refl, ap, sym, ◌∙◌, arith, inl, inr, true, false, List, [], ◌∷◌, ◌++◌, ◌==◌,
  Bool-cases,
}
use gandiva.Coremark.State.{
  CoreState, start, invalid, s1, s2, int, float, exponent, scientific, ee_isdigit, is_sign,
  dispatch,
}
use gandiva.Coremark.State.Grammar.{
  Digits, Digits₁, IsExponent, IsScaled, Pointed, Signed, Format, after, after-invalid, is_format,
}

-- The states that a digit leaves as they are.
abbrev Stays : CoreState → Type 0
Stays s = (c : ℕ) → ee_isdigit c ≡ true → dispatch s c ≡ s

after-Digits : (s : CoreState) (ds t : List ℕ) → Stays s → Digits ds → after s (ds ++ t) ≡ after s t
unfolding after
after-Digits s [] t stay d = refl
after-Digits s (c ∷ ds) t stay d =
    ap (λ q. after q (ds ++ t)) (stay c d.0) ∙ after-Digits s ds t stay d.1

int-Stays : Stays int
unfolding dispatch
int-Stays c h = ground arith

float-Stays : Stays float
unfolding dispatch
float-Stays c h = ground arith

scientific-Stays : Stays scientific
unfolding dispatch
scientific-Stays c h = ground arith

after_all_Digits : (s : CoreState) (ds : List ℕ) → Stays s → Digits ds → after s ds ≡ s
unfolding after
after_all_Digits s [] stay d = refl
after_all_Digits s (c ∷ ds) stay d =
    ap (λ q. after q ds) (stay c d.0) ∙ after_all_Digits s ds stay d.1

after-IsExponent : (t : List ℕ) → IsExponent t → after s2 t ≡ scientific
unfolding after dispatch
after-IsExponent t (g, [], e, sign, ds) = absurd ds
after-IsExponent t (g, c ∷ ds, e, sign, (d, rest)) =
    rw (e, sign, d) (after_all_Digits scientific ds scientific-Stays rest)

after-IsScaled : (t : List ℕ) → IsScaled t → after float t ≡ scientific
after-IsScaled t (ds, c, x, e, digits, is_e, ex) =
    ap (after float) e
    ∙ after-Digits float ds (c ∷ x) float-Stays digits
    ∙ (unfold after dispatch in rw is_e (after-IsExponent x ex))

after_digit : (c : ℕ) (t : List ℕ) → ee_isdigit c ≡ true → after s1 (c ∷ t) ≡ after int t
unfolding after dispatch
after_digit c t d = rw d

after-Digits₁ : (t : List ℕ) → Digits₁ t → after s1 t ≡ int
after-Digits₁ [] h = absurd h
after-Digits₁ (c ∷ t) (d, ds) = after_digit c t d ∙ after_all_Digits int t int-Stays ds

after-Pointed :
    (P : List ℕ → Type 0) (f : CoreState) (t : List ℕ)
    → ((u : List ℕ) → P u → after float u ≡ f)
    → Pointed P t
    → after s1 t ≡ f
after-Pointed P f t ends ([], u, e, d, p) = ap (after s1) e ∙ (unfold after dispatch in ends u p)
after-Pointed P f t ends (c ∷ ds, u, e, (d, digits), p) =
    ap (after s1) e
    ∙ after_digit c (ds ++ b'.' ∷ u) d
    ∙ after-Digits int ds (b'.' ∷ u) int-Stays digits
    ∙ (unfold after dispatch in ends u p)

-- With no sign the first symbol is a digit or the point, which `start` takes as `s1` does.
start-eq-s1 :
    (f : CoreState) (t : List ℕ) → f ≢ s1 → f ≢ invalid → after s1 t ≡ f → after start t ≡ f
unfolding after dispatch
start-eq-s1 f [] ns ni h = absurd (ns (sym h))
start-eq-s1 f (c ∷ t) ns ni h = elim (Bool-cases (ee_isdigit c)) [
  | inl d ↦ rw d (rw d at h)
  | inr n ↦ elim (Bool-cases (c == b'.')) [
    | inl e ↦
        let not_sign : is_sign c ≡ false = ground arith in rw (n, not_sign, e) (rw (n, e) at h)
    | inr m ↦ absurd (ni (sym (rw (n, m) at h) ∙ after-invalid t))
  ]
]

after_sign : (g : ℕ) (u : List ℕ) → is_sign g ≡ true → after start (g ∷ u) ≡ after s1 u
unfolding after dispatch
after_sign g u s = let not_digit : ee_isdigit g ≡ false = ground arith in rw (not_digit, s)

after-Signed :
    (P : List ℕ → Type 0) (f : CoreState) (t : List ℕ)
    → f ≢ s1
    → f ≢ invalid
    → ((u : List ℕ) → P u → after s1 u ≡ f)
    → Signed P t
    → after start t ≡ f
after-Signed P f t ns ni ends (inl p) = start-eq-s1 f t ns ni (ends t p)
after-Signed P f t ns ni ends (inr (g, u, e, s, p)) =
    ap (after start) e ∙ after_sign g u s ∙ ends u p

pub after_of_Format :
    (f : CoreState) (t : List ℕ) → is_format f ≡ true → Format f t → after start t ≡ f
after_of_Format int t h p = after-Signed _ int t (λ e. cc) (λ e. cc) after-Digits₁ p
after_of_Format float t h p =
    after-Signed _ float t (λ e. cc) (λ e. cc)
      (λ u q. after-Pointed Digits float u (λ v ds. after_all_Digits float v float-Stays ds) q) p
after_of_Format scientific t h p =
    after-Signed _ scientific t (λ e. cc) (λ e. cc)
      (λ u q. after-Pointed IsScaled scientific u after-IsScaled q) p
after_of_Format start t h p = absurd p
after_of_Format invalid t h p = absurd p
after_of_Format s1 t h p = absurd p
after_of_Format s2 t h p = absurd p
after_of_Format exponent t h p = absurd p
