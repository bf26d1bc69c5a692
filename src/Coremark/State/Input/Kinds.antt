-- ===== src/Coremark/State/Input/Kinds.antt =====
-- The patterns of core_init_state under the state machine.
use gandiva.Base.{
  ℕ, ◌%◌, ◌<◌, ◌≡◌, refl, ap, sym, ◌∙◌, arith, Bool, true, false, not, ◌&&◌, List, [], ◌∷◌, ◌++◌,
  append_assoc, leb, ◌==◌, if◌then◌else◌, low_bits, shr, ◌/◌, ok,
}
use gandiva.Base.Bits.{all_below, all_below_sound}
use gandiva.Coremark.State.{
  CoreState, start, invalid, s1, s2, int, float, exponent, scientific, index, dispatch, is_invalid,
  Counts, Scanned, core_state_transition,
}
use gandiva.Coremark.State.Grammar.{after}
use gandiva.Coremark.State.Grammar.Classify.{Plain, comma, transition-EndsAt}
use gandiva.Coremark.State.Input.{buf_of}
use gandiva.Coremark.State.Input.Tokens.{buf_of-low, token}

-- The end state that the comments on the cases of `switch (seed & 0x7)` announce, but for one
-- string: `scipat[2]`, "-87e+832", has no point, and the state machine takes it for invalid.
abbrev pub kind_of : ℕ → CoreState
kind_of seed =
    if leb (low_bits seed 3) 2
    then int
    else if leb (low_bits seed 3) 4
    then float
    else if leb (low_bits seed 3) 6
    then (if low_bits (shr seed 3) 2 == 2 then invalid else scientific)
    else invalid

plain : List ℕ → Bool
plain [] = true
plain (c ∷ t) = not (c == 0) && (not (c == b',') && plain t)

Plain-of_plain : (t : List ℕ) → plain t ≡ true → Plain t
unfolding plain
Plain-of_plain [] h = tt
Plain-of_plain (c ∷ t) h = (ground arith, ground arith, Plain-of_plain t (ground arith))

decode : ℕ → CoreState
decode i =
    if i == 0
    then start
    else if i == 1
    then invalid
    else if i == 2
    then s1
    else if i == 3
    then s2
    else if i == 4
    then int
    else if i == 5
    then float
    else if i == 6
    then exponent
    else scientific

decode-index : (s : CoreState) → decode (index s) ≡ s
unfolding decode index
decode-index start = refl
decode-index _ = refl

kinds_ok :
    all_below 32 (λ s. plain (buf_of s) && (index (after start (buf_of s)) == index (kind_of s)))
    ≡ true
unfolding all_below plain buf_of index after dispatch
kinds_ok = refl

kind_table : (s : ℕ) → s < 32 → Plain (buf_of s) × (after start (buf_of s) ≡ kind_of s)
kind_table s h =
    let t = all_below_sound 32 _ s kinds_ok h in
    (
      Plain-of_plain (buf_of s) (ground arith),
      sym (decode-index (after start (buf_of s)))
          ∙ ap decode (ground arith)
          ∙ decode-index (kind_of s),
    )

kind-low : (seed : ℕ) → kind_of (seed % 32) ≡ kind_of seed
kind-low seed =
    let e : seed % 32 % 8 ≡ seed % 8 = omega arith in
    let f : seed % 32 / 8 % 4 ≡ seed / 8 % 4 = omega arith in rw (e, f)

-- A token that core_init_state writes is scanned to the end state of its table: an integer, a
-- float, a number in scientific notation or an invalid text; but of the four strings for scientific
-- notation the third is invalid. Unless it is invalid, the scan ends right behind its comma.
pub init_token_scans :
    (seed : ℕ) (rest : List ℕ) (k : Counts)
    → (out : Scanned) × (core_state_transition (token seed ++ rest) k ≡ ok out)
      × (out.state ≡ kind_of seed)
      × (is_invalid (kind_of seed) ≡ false → out.rest ≡ rest)
init_token_scans seed rest k =
    let (p, e) = kind_table (seed % 32) (omega arith) in
    let e' : after start (buf_of seed) ≡ kind_of seed =
      ap (after start) (buf_of-low seed) ∙ e ∙ kind-low seed in
    let p' : Plain (buf_of seed) = rw (buf_of-low seed) p in
    let (out, r, s, ends) = transition-EndsAt (buf_of seed) comma rest k p' in
    (
      out,
      rw (append_assoc (buf_of seed) (b',' ∷ []) rest) r,
      s ∙ e',
      λ v. ends (ap is_invalid e' ∙ v),
    )
