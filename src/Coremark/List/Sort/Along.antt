-- ===== src/Coremark/List/Sort/Along.antt =====
-- The runs of a pass of core_list_mergesort, and a round of its loop over pairs of runs.
use gandiva.Base.{
  ℕ, zero, suc, ◌+◌, ◌*◌, ◌≤◌, ◌<◌, ◌≡◌, ◌≢◌, refl, sym, ◌∙◌, arith, ◌⊎◌, inl, inr, ne→==, List, [],
  ◌∷◌, ◌++◌, length, ap, Run, ok,
}
use gandiva.Coremark.List.{Heap}
use gandiva.Coremark.List.Runs.{Sized, number_of}
use gandiva.Coremark.List.Walk.{Walk}
use gandiva.Coremark.List.Sort.{ListCmp, Merging, step_along, merge_loop, pass_loop}

-- The steps along a run end behind it.
pub step_along-Walk :
    (n : ℕ) (b rest : List ℕ) (h : Heap) (p c : ℕ)
    → Walk h.next p (b ++ rest) 0
    → length b ≤ n
    → (rest ≡ []) ⊎ (length b ≡ n)
    → (n ≡ 0) ⊎ (0 < length b)
    → (q : ℕ) × (step_along n h p c ≡ ok (q, c + length b))
      × Walk h.next p b q
      × Walk h.next q rest 0
unfolding step_along
step_along-Walk zero [] rest h p c w fits full some =
    let e : c + 0 ≡ c = omega arith in (p, rw e refl, refl, w)
step_along-Walk zero (x ∷ b) rest h p c w fits full some = absurd (omega arith)
step_along-Walk (suc n) [] rest h p c w fits full some = absurd (omega arith)
step_along-Walk (suc n) (x ∷ []) [] h p c (at, ne, w) fits full some =
    (0, rw (at, ne→== x 0 ne, w) refl, (at, ne, w), refl)
step_along-Walk (suc n) (x ∷ []) (z ∷ r) h p c (at, ne, w) fits full some =
    let more : h.next x ≢ 0 = λ e. w.1 (sym w.0 ∙ e) in
    let one : 1 ≡ suc n = ground (arith, full) in
    let (q, e, u, v) =
      step_along-Walk n [] (z ∷ r) h (h.next x) (c + 1) w (omega arith) (inr (omega arith))
        (inl (omega arith)) in
    let total : c + 1 + 0 ≡ c + 1 = omega arith in
    (q, rw (at, ne→== x 0 ne, ne→== (h.next x) 0 more) (rw total at e), (at, ne, u), v)
step_along-Walk (suc n) (x ∷ y ∷ b) rest h p c (at, ne, w) fits full some =
    let more : h.next x ≢ 0 = λ e. w.1 (sym w.0 ∙ e) in
    let (q, e, u, v) =
      step_along-Walk n (y ∷ b) rest h (h.next x) (c + 1) w (omega arith) (ground (arith, full))
        (inr (omega arith)) in
    let total : c + 1 + length (y ∷ b) ≡ c + length (x ∷ y ∷ b) = omega arith in
    (q, rw (at, ne→== x 0 ne, ne→== (h.next x) 0 more) (rw total at e), (at, ne, u), v)

pub Sized-head :
    (k : ℕ) (c : List ℕ) (bs : List (List ℕ))
    → Sized k (c ∷ bs)
    → (length c ≤ k) × ((bs ≡ []) ⊎ (k ≡ length c)) × Sized k bs
Sized-head k c [] (some, fits) = (fits, inl refl, tt)
Sized-head k c (d ∷ bs) (full, sized) = (omega arith, inr (sym full), sized)

pub none_left : (ds : List (List ℕ)) → number_of ds * 2 ≤ 1 → ds ≡ []
none_left [] few = refl
none_left (d ∷ ds) few = absurd (omega arith)

pub Sized-cons :
    (k : ℕ) (d : List ℕ) (ds : List (List ℕ))
    → Sized k ds
    → 0 < length d
    → length d ≤ k
    → (ds ≡ []) ⊎ (length d ≡ k)
    → Sized k (d ∷ ds)
Sized-cons k d [] sized some fits full = (some, fits)
Sized-cons k d (e ∷ ds) sized some fits (inl none) = absurd (omega (arith, ap number_of none))
Sized-cons k d (e ∷ ds) sized some fits (inr full) = (full, sized)

pub not_null :
    (f : ℕ → ℕ) (p : ℕ) (b rest : List ℕ) (q : ℕ) → Walk f p (b ++ rest) q → 0 < length b → p ≢ 0
not_null f p [] rest q w some e = absurd (omega arith)
not_null f p (x ∷ b) rest q (at, ne, w) some e = ne (sym at ∙ e)

pub pass_ends :
    (cmp : ListCmp) (fuel k n : ℕ) (m : Merging)
    → m.p ≡ 0
    → pass_loop (suc fuel) cmp k n m ≡ ok (n, m)
unfolding pass_loop
pass_ends cmp fuel k n m e = ground (arith, e)

-- A round of the loop over pairs of runs.
pub pass_round :
    (cmp : ListCmp) (fuel k n : ℕ) (m m' : Merging) (along : ℕ × ℕ) (r : Run (ℕ × Merging))
    → m.p ≢ 0
    → step_along k m.heap m.p 0 ≡ ok along
    → merge_loop (2 * k + 1) cmp (record m { q = along.0; psize = along.1; qsize = k }) ≡ ok m'
    → pass_loop fuel cmp k (n + 1) (record m' { p = m'.q }) ≡ r
    → pass_loop (suc fuel) cmp k n m ≡ r
unfolding pass_loop
pass_round cmp fuel k n m m' along r ne e f g = rw (ne→== m.p 0 ne, e, f) g
