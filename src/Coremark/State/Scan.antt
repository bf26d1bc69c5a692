-- ===== src/Coremark/State/Scan.antt =====
-- core_state_transition and the loops over it: where a scan ends.
use gandiva.Base.{
  ℕ, zero, suc, ◌+◌, ◌≤◌, ◌<◌, ◌≡◌, ◌≢◌, refl, arith, ◌⊎◌, inl, inr, false, ◌||◌, List, [], ◌∷◌,
  ◌==◌, Bool-cases, length, Run, ok, if◌then◌else◌, ne→==,
}
use gandiva.Coremark.State.{
  CoreState, start, is_invalid, dispatch, count, Counts, Scanned, scanned, transition_loop,
  core_state_transition, Tally, tally, bump, scan_all,
}

-- A zero byte stands in the text, which is what ends a C string.
abbrev pub Terminated : List ℕ → Type 0
Terminated [] = ⊥
Terminated (c ∷ p) = (c ≡ 0) ⊎ Terminated p

-- What a scan of `p` leaves: a terminated text that is no longer, and shorter after a step.
abbrev pub Leaves : List ℕ → ℕ → Run Scanned → Type 0
Leaves p less r =
    (out : Scanned) × (r ≡ ok out) × Terminated out.rest × (length out.rest + less ≤ length p)

Leaves-cons : (c : ℕ) (p : List ℕ) (r : Run Scanned) → Leaves p 0 r → Leaves (c ∷ p) 1 r
Leaves-cons c p r (out, e, t, h) = (out, e, t, omega arith)

Leaves-mono : (c : ℕ) (p : List ℕ) (r : Run Scanned) → Leaves (c ∷ p) 1 r → Leaves (c ∷ p) 0 r
Leaves-mono c p r (out, e, t, h) = (out, e, t, omega arith)

Terminated-tail : (c : ℕ) (p : List ℕ) → Terminated (c ∷ p) → (c == 0) ≡ false → Terminated p
Terminated-tail c p (inl z) h = absurd (ground arith)
Terminated-tail c p (inr t) h = t

-- The part of the loop behind its condition, from what the next round leaves.
step-Leaves :
    (s : CoreState) (c : ℕ) (p : List ℕ) (k : Counts) (next : Run Scanned)
    → Terminated p
    → Leaves p 0 next
    → Leaves (c ∷ p) 1 (if c == b',' then ok (scanned s p k) else next)
step-Leaves s c p k next t l = elim (Bool-cases (c == b',')) [
  | inl sep ↦ rw sep (scanned s p k, refl, t, omega arith)
  | inr sym ↦ rw sym (Leaves-cons c p next l)
]

loop-Leaves :
    (s : CoreState) (p : List ℕ) (k : Counts) → Terminated p → Leaves p 0 (transition_loop s p k)
unfolding transition_loop
loop-Leaves s [] k t = absurd t
loop-Leaves s (c ∷ p) k t =
    let next = λ (t' : Terminated p). loop-Leaves (dispatch s c) p (count s c k) t' in
    elim (Bool-cases (c == 0 || is_invalid s)) [
      | inl stop ↦ rw stop (scanned s (c ∷ p) k, refl, t, omega arith)
      | inr go ↦ rw go (
          let t' = Terminated-tail c p t (ground arith) in
          Leaves-mono c p _ (step-Leaves s c p k _ t' (next t')))
    ]

-- A scan of a terminated text at a byte other than zero returns, and leaves a terminated text
-- that is shorter: the `while (*p != 0)` loops make progress.
pub transition_progress :
    (c : ℕ) (p : List ℕ) (k : Counts)
    → c ≢ 0
    → Terminated p
    → Leaves (c ∷ p) 1 (core_state_transition (c ∷ p) k)
unfolding core_state_transition transition_loop
transition_progress c p k ne t =
    rw (ne→== c 0 ne)
      (step-Leaves start c p k _ t (loop-Leaves (dispatch start c) p (count start c k) t))

-- On a terminated text, with more rounds than bytes, the loop over all tokens returns.
pub scan_all_total :
    (fuel : ℕ) (p : List ℕ) (t : Tally)
    → Terminated p
    → length p < fuel
    → (out : Tally) × (scan_all fuel p t ≡ ok out)
unfolding scan_all
scan_all_total zero p t z h = absurd (omega arith)
scan_all_total (suc fuel) [] t z h = absurd z
scan_all_total (suc fuel) (c ∷ p) t z h =
    let more = λ (r : Scanned) (z' : Terminated r.rest) (l : length r.rest < fuel).
      scan_all_total fuel r.rest (tally (bump r.state t.final) r.counts) z' l in
    elim (Bool-cases (c == 0)) [
      | inl nul ↦ rw nul (t, refl)
      | inr ne ↦
          let (r, e, z', l) =
            transition_progress c p t.track (ground arith) (Terminated-tail c p z ne) in
          rw (ne, e) (more r z' (omega arith))
    ]
