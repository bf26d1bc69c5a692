-- ===== src/Coremark/State/Grammar/Sound.antt =====
-- From the end states of core_state_transition to the formats of tokens.
use gandiva.Base.{
  ℕ, ◌≤◌, ◌≡◌, ◌≢◌, refl, ap, sym, ◌∙◌, arith, inl, inr, true, ◌||◌, List, [], ◌∷◌, ◌==◌,
  Bool-cases,
}
use gandiva.Coremark.State.{
  CoreState, start, invalid, s1, s2, int, float, exponent, scientific, ee_isdigit, is_sign,
  dispatch,
}
use gandiva.Coremark.State.Grammar.{
  Digits, Digits₁, IsExponent, IsScaled, Pointed, Signed, Format, after, after-invalid, is_format,
}

-- Which texts lead from a state to an end.
scientific-Digits : (t : List ℕ) → after scientific t ≡ scientific → Digits t
unfolding after dispatch
scientific-Digits [] h = tt
scientific-Digits (c ∷ t) h = elim (Bool-cases (ee_isdigit c)) [
  | inl d ↦ (d, scientific-Digits t (rw d at h))
  | inr n ↦ cc (after-invalid t, rw n at h)
]

exponent-Digits : (t : List ℕ) → after exponent t ≡ scientific → Digits₁ t
unfolding after dispatch
exponent-Digits [] h = cc
exponent-Digits (c ∷ t) h = elim (Bool-cases (ee_isdigit c)) [
  | inl d ↦ (d, scientific-Digits t (rw d at h))
  | inr n ↦ cc (after-invalid t, rw n at h)
]

s2-IsExponent : (t : List ℕ) → after s2 t ≡ scientific → IsExponent t
unfolding after dispatch
s2-IsExponent [] h = cc
s2-IsExponent (c ∷ t) h = elim (Bool-cases (is_sign c)) [
  | inl g ↦ (c, t, refl, g, exponent-Digits t (rw g at h))
  | inr n ↦ cc (after-invalid t, rw n at h)
]

float-IsScaled : (t : List ℕ) → after float t ≡ scientific → IsScaled t
unfolding after dispatch
float-IsScaled [] h = cc
float-IsScaled (c ∷ t) h = elim (Bool-cases (c == b'E' || c == b'e')) [
  | inl e ↦ ([], c, t, refl, tt, e, s2-IsExponent t (rw e at h))
  | inr m ↦ elim (Bool-cases (ee_isdigit c)) [
    | inl d ↦
        let (ds, e, x, eq, digits, is_e, ex) = float-IsScaled t (rw (m, d) at h) in
        (c ∷ ds, e, x, ap (λ l. c ∷ l) eq, (d, digits), is_e, ex)
    | inr n ↦ cc (after-invalid t, rw (m, n) at h)
  ]
]

-- A scan goes on from the integer part to the fraction, and from there to the exponent.
abbrev part : CoreState → ℕ
part int = 0
part float = 1
part s2 = 2
part exponent = 2
part scientific = 2
part invalid = 2
part _ = 0

part-dispatch : (s : CoreState) (c : ℕ) → part s ≤ part (dispatch s c)
unfolding dispatch
part-dispatch start c = omega arith
part-dispatch _ c = ground arith

part-after : (s : CoreState) (t : List ℕ) → part s ≤ part (after s t)
unfolding after
part-after s [] = omega arith
part-after s (c ∷ t) = omega (arith, part-dispatch s c, part-after (dispatch s c) t)

float-Digits : (t : List ℕ) → after float t ≡ float → Digits t
unfolding after dispatch
float-Digits [] h = tt
float-Digits (c ∷ t) h = elim (Bool-cases (c == b'E' || c == b'e')) [
  | inl e ↦ absurd (omega (arith, part-after s2 t, ap part (rw e at h)))
  | inr m ↦ elim (Bool-cases (ee_isdigit c)) [
    | inl d ↦ (d, float-Digits t (rw (m, d) at h))
    | inr n ↦ cc (after-invalid t, rw (m, n) at h)
  ]
]

int-Digits : (t : List ℕ) → after int t ≡ int → Digits t
unfolding after dispatch
int-Digits [] h = tt
int-Digits (c ∷ t) h = elim (Bool-cases (c == b'.')) [
  | inl e ↦ absurd (omega (arith, part-after float t, ap part (rw e at h)))
  | inr m ↦ elim (Bool-cases (ee_isdigit c)) [
    | inl d ↦ (d, int-Digits t (rw (m, d) at h))
    | inr n ↦ cc (after-invalid t, rw (m, n) at h)
  ]
]

-- A format of a fraction, by the state where its scan ends.
abbrev Ends : CoreState → List ℕ → Type 0
Ends f t = after float t ≡ f

int-Pointed :
    (f : CoreState) (t : List ℕ) → f ≢ int → f ≢ invalid → after int t ≡ f → Pointed (Ends f) t
unfolding after dispatch
int-Pointed f [] ne ni h = absurd (ne (sym h))
int-Pointed f (c ∷ t) ne ni h = elim (Bool-cases (c == b'.')) [
  | inl e ↦ let e' : c ≡ b'.' = ground arith in ([], t, ap (λ x. x ∷ t) e', tt, rw e at h)
  | inr m ↦ elim (Bool-cases (ee_isdigit c)) [
    | inl d ↦
        let (ds, u, eq, digits, ends) = int-Pointed f t ne ni (rw (m, d) at h) in
        (c ∷ ds, u, ap (λ l. c ∷ l) eq, (d, digits), ends)
    | inr n ↦ absurd (ni (sym (rw (m, n) at h) ∙ after-invalid t))
  ]
]

s1-Digits₁ : (t : List ℕ) → after s1 t ≡ int → Digits₁ t
unfolding after dispatch
s1-Digits₁ [] h = cc
s1-Digits₁ (c ∷ t) h = elim (Bool-cases (ee_isdigit c)) [
  | inl d ↦ (d, int-Digits t (rw d at h))
  | inr n ↦ elim (Bool-cases (c == b'.')) [
    | inl e ↦ absurd (omega (arith, part-after float t, ap part (rw (n, e) at h)))
    | inr m ↦ cc (after-invalid t, rw (n, m) at h)
  ]
]

s1-Pointed :
    (f : CoreState) (t : List ℕ)
    → f ≢ s1
    → f ≢ int
    → f ≢ invalid
    → after s1 t ≡ f
    → Pointed (Ends f) t
unfolding after dispatch
s1-Pointed f [] ns ne ni h = absurd (ns (sym h))
s1-Pointed f (c ∷ t) ns ne ni h = elim (Bool-cases (ee_isdigit c)) [
  | inl d ↦
      let (ds, u, eq, digits, ends) = int-Pointed f t ne ni (rw d at h) in
      (c ∷ ds, u, ap (λ l. c ∷ l) eq, (d, digits), ends)
  | inr n ↦ elim (Bool-cases (c == b'.')) [
    | inl e ↦ let e' : c ≡ b'.' = ground arith in ([], t, ap (λ x. x ∷ t) e', tt, rw (n, e) at h)
    | inr m ↦ absurd (ni (sym (rw (n, m) at h) ∙ after-invalid t))
  ]
]

start-Signed :
    (f : CoreState) (t : List ℕ)
    → f ≢ start
    → f ≢ invalid
    → after start t ≡ f
    → Signed (λ u. after s1 u ≡ f) t
unfolding after dispatch
start-Signed f [] ns ni h = absurd (ns (sym h))
start-Signed f (c ∷ t) ns ni h = elim (Bool-cases (ee_isdigit c)) [
  | inl d ↦ inl (rw d (rw d at h))
  | inr n ↦ elim (Bool-cases (is_sign c)) [
    | inl g ↦ inr (c, t, refl, g, rw (n, g) at h)
    | inr m ↦ elim (Bool-cases (c == b'.')) [
      | inl e ↦ inl (rw (n, e) (rw (n, m, e) at h))
      | inr o ↦ absurd (ni (sym (rw (n, m, o) at h) ∙ after-invalid t))
    ]
  ]
]

Signed-map :
    (P Q : List ℕ → Type 0) (t : List ℕ) → ((u : List ℕ) → P u → Q u) → Signed P t → Signed Q t
Signed-map P Q t f (inl p) = inl (f t p)
Signed-map P Q t f (inr (g, u, e, s, p)) = inr (g, u, e, s, f u p)

Pointed-map :
    (P Q : List ℕ → Type 0) (t : List ℕ) → ((u : List ℕ) → P u → Q u) → Pointed P t → Pointed Q t
Pointed-map P Q t f (ds, u, e, d, p) = (ds, u, e, d, f u p)

pub Format-of_after :
    (f : CoreState) (t : List ℕ) → is_format f ≡ true → after start t ≡ f → Format f t
Format-of_after int t h e = Signed-map _ _ t s1-Digits₁ (start-Signed int t (λ e. cc) (λ e. cc) e)
Format-of_after float t h e =
    Signed-map _ _ t
      (λ u p. Pointed-map _ _ u float-Digits (s1-Pointed float u (λ e. cc) (λ e. cc) (λ e. cc) p))
      (start-Signed float t (λ e. cc) (λ e. cc) e)
Format-of_after scientific t h e =
    Signed-map _ _ t
      (λ u p.
        Pointed-map _ _ u float-IsScaled (s1-Pointed scientific u (λ e. cc) (λ e. cc) (λ e. cc) p))
      (start-Signed scientific t (λ e. cc) (λ e. cc) e)
Format-of_after start t h e = cc
Format-of_after invalid t h e = cc
Format-of_after s1 t h e = cc
Format-of_after s2 t h e = cc
Format-of_after exponent t h e = cc
