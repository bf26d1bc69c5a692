-- ===== src/Coremark/State/Grammar.antt =====
-- The token formats that core_state.c describes, independent of the state machine.
pub mod Sound
pub mod Complete
pub mod Classify
use gandiva.Base.{ℕ, ◌≡◌, refl, ◌⊎◌, Bool, true, false, ◌||◌, List, [], ◌∷◌, ◌++◌, ◌==◌}
use gandiva.Coremark.State.{
  CoreState, invalid, int, float, scientific, ee_isdigit, is_sign, dispatch,
}

abbrev pub Digits : List ℕ → Type 0
Digits [] = Unit
Digits (c ∷ t) = (ee_isdigit c ≡ true) × Digits t

abbrev pub Digits₁ : List ℕ → Type 0
Digits₁ [] = ⊥
Digits₁ (c ∷ t) = (ee_isdigit c ≡ true) × Digits t

-- An exponent: a sign, then one digit or more.
abbrev pub IsExponent : List ℕ → Type 0
IsExponent t = (g : ℕ) × (ds : List ℕ) × (t ≡ g ∷ ds) × (is_sign g ≡ true) × Digits₁ ds

-- What may follow the point of a number in scientific notation: digits, E or e, the exponent.
abbrev pub IsScaled : List ℕ → Type 0
IsScaled t =
    (ds : List ℕ) × (e : ℕ) × (x : List ℕ) × (t ≡ ds ++ e ∷ x)
    × Digits ds
    × ((e == b'E' || e == b'e') ≡ true)
    × IsExponent x

-- Digits, a point, and a text of the given kind.
abbrev pub Pointed : (List ℕ → Type 0) → List ℕ → Type 0
Pointed P t = (ds : List ℕ) × (f : List ℕ) × (t ≡ ds ++ b'.' ∷ f) × Digits ds × P f

abbrev pub Signed : (List ℕ → Type 0) → List ℕ → Type 0
Signed P t = P t ⊎ ((g : ℕ) × (u : List ℕ) × (t ≡ g ∷ u) × (is_sign g ≡ true) × P u)

-- The formats: [sign] digits; [sign] [digits] . [digits]; and the last with an exponent.
abbrev pub Format : CoreState → List ℕ → Type 0
Format int t = Signed Digits₁ t
Format float t = Signed (Pointed Digits) t
Format scientific t = Signed (Pointed IsScaled) t
Format _ t = ⊥

-- The state after a text, with no look at separators.
unfoldable pub after : CoreState → List ℕ → CoreState
after s [] = s
after s (c ∷ t) = after (dispatch s c) t

pub after-invalid : (t : List ℕ) → after invalid t ≡ invalid
unfolding after dispatch
after-invalid [] = refl
after-invalid (c ∷ t) = after-invalid t

-- The states that stand for a format.
abbrev pub is_format : CoreState → Bool
is_format int = true
is_format float = true
is_format scientific = true
is_format _ = false
