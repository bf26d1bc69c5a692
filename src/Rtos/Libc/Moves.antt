-- ===== src/Rtos/Libc/Moves.antt =====
-- memcpy, memmove and memset: the bytes that they write.
use mathlib.Core.Path.{subst}
use gandiva.Base.{
  ℕ, zero, suc, ◌+◌, ◌≤◌, ◌<◌, ◌≡◌, refl, sym, ◌∙◌, arith, ◌⊎◌, inl, inr, Bool-cases, ltb, List,
  length, get_or, set, length-set, get_or-set_self, get_or-set_ne, u8, Run, ok, load-ok, store-ok,
}
use gandiva.Rtos.Libc.{copy_up, copy_down, memcpy, memset, memmove}

-- The run writes `f j` to the byte `d + j` for each `j` below `n`, and no other byte.
pub record Writes (d n : ℕ) (f : ℕ → ℕ) (m : List ℕ) (r : Run (List ℕ)) : Type 0 where
  pub out : List ℕ
  pub returns : r ≡ ok out
  pub same_length : length out ≡ length m
  pub inside : (j : ℕ) → j < n → get_or out (d + j) 0 ≡ f j
  pub outside : (k : ℕ) → (k < d) ⊎ (d + n ≤ k) → get_or out k 0 ≡ get_or m k 0

Writes-none : (d : ℕ) (f : ℕ → ℕ) (m : List ℕ) → Writes d 0 f m (ok m)
Writes-none d f m = record {
  out = m;
  returns = refl;
  same_length = refl;
  inside = λ j h. absurd (omega arith);
  outside = λ k h. refl;
}

-- A byte is written first, and the ones above it after that.
Writes-first :
    (d n : ℕ) (f : ℕ → ℕ) (m : List ℕ) (r : Run (List ℕ))
    → d < length m
    → Writes (d + 1) n (λ j. f (j + 1)) (set m d (f 0)) r
    → Writes d (suc n) f m r
Writes-first d n f m r fits w = record {
  out = w.out;
  returns = w.returns;
  same_length = w.same_length ∙ length-set m d (f 0);
  inside = λ j h. first j h;
  outside = λ k h. w.outside k (omega arith) ∙ get_or-set_ne m d k (f 0) 0 (λ e. omega arith);
}
  where
    first : (j : ℕ) → j < suc n → get_or w.out (d + j) 0 ≡ f j
    first zero h =
        let e : d + 0 ≡ d = omega arith in
        rw e (w.outside d (inl (omega arith)) ∙ get_or-set_self m d (f 0) 0 fits)
    first (suc j) h =
        let e : d + suc j ≡ d + 1 + j = omega arith in
        let e' : j + 1 ≡ suc j = omega arith in
        rw e (w.inside j (omega arith) ∙ subst (λ i. f (j + 1) ≡ f i) e' refl)

-- A byte is written first, and the ones below it after that.
Writes-last :
    (d n : ℕ) (f : ℕ → ℕ) (m : List ℕ) (r : Run (List ℕ))
    → d + n < length m
    → Writes d n f (set m (d + n) (f n)) r
    → Writes d (suc n) f m r
Writes-last d n f m r fits w = record {
  out = w.out;
  returns = w.returns;
  same_length = w.same_length ∙ length-set m (d + n) (f n);
  inside = λ j h. elim (last_or j h) [
    | inl below ↦ w.inside j below
    | inr top ↦
        rw top (w.outside (d + n) (inr (omega arith)) ∙ get_or-set_self m (d + n) (f n) 0 fits)
  ];
  outside = λ k h. w.outside k (omega arith) ∙ get_or-set_ne m (d + n) k (f n) 0 (λ e. omega arith);
}
  where
    last_or : (j : ℕ) → j < suc n → (j < n) ⊎ (j ≡ n)
    last_or j h = omega arith

Writes-run :
    {d n : ℕ} {f : ℕ → ℕ} {m : List ℕ} {r s : Run (List ℕ)}
    → s ≡ r
    → Writes d n f m r
    → Writes d n f m s
Writes-run {d} {n} {f} {m} e w = subst (λ t. Writes d n f m t) (sym e) w

-- The bytes to write are given by another formula.
Writes-as :
    {d n : ℕ} {f g : ℕ → ℕ} {m : List ℕ} {r : Run (List ℕ)}
    → ((j : ℕ) → j < n → f j ≡ g j)
    → Writes d n f m r
    → Writes d n g m r
Writes-as same w = record {
  out = w.out;
  returns = w.returns;
  same_length = w.same_length;
  inside = λ j h. w.inside j h ∙ same j h;
  outside = w.outside;
}

copy_up-Writes :
    (n d s : ℕ) (m : List ℕ)
    → (d ≤ s) ⊎ (s + n ≤ d)
    → d + n ≤ length m
    → s + n ≤ length m
    → Writes d n (λ j. get_or m (s + j) 0) m (copy_up n d s m)
unfolding copy_up
copy_up-Writes zero d s m apart fits_d fits_s = Writes-none d _ m
copy_up-Writes (suc n) d s m apart fits_d fits_s =
    let e : s + 0 ≡ s = omega arith in
    let m' = set m d (get_or m s 0) in
    let run = load-ok m s (omega arith) in
    let run' = store-ok m d (get_or m s 0) (omega arith) in
    Writes-run (rw (run, run') refl) (
      Writes-first d n (λ j. get_or m (s + j) 0) m (copy_up n (d + 1) (s + 1) m') (omega arith)
        (rw e (
          Writes-as
            (λ j h.
              let e' : s + 1 + j ≡ s + (j + 1) = omega arith in
              get_or-set_ne m d (s + 1 + j) (get_or m s 0) 0 (λ q. omega arith)
              ∙ subst (λ k. get_or m (s + 1 + j) 0 ≡ get_or m k 0) e' refl)
            (copy_up-Writes n (d + 1) (s + 1) m' (omega arith)
              (omega (arith, length-set m d (get_or m s 0)))
              (omega (arith, length-set m d (get_or m s 0)))))))

copy_down-Writes :
    (n d s : ℕ) (m : List ℕ)
    → s ≤ d
    → d + n ≤ length m
    → Writes d n (λ j. get_or m (s + j) 0) m (copy_down n d s m)
unfolding copy_down
copy_down-Writes zero d s m below fits = Writes-none d _ m
copy_down-Writes (suc n) d s m below fits =
    let m' = set m (d + n) (get_or m (s + n) 0) in
    let run = load-ok m (s + n) (omega arith) in
    let run' = store-ok m (d + n) (get_or m (s + n) 0) (omega arith) in
    Writes-run (rw (run, run') refl) (
      Writes-last d n (λ j. get_or m (s + j) 0) m (copy_down n d s m') (omega arith)
        (Writes-as
          (λ j h. get_or-set_ne m (d + n) (s + j) (get_or m (s + n) 0) 0 (λ q. omega arith))
          (copy_down-Writes n d s m' below
            (omega (arith, length-set m (d + n) (get_or m (s + n) 0))))))

-- memmove on source and destination within the block returns, and has copied the bytes of the
-- source as they were before the call, overlapping or not, and changed no byte outside the
-- destination.
pub memmove_lem :
    (n d s : ℕ) (m : List ℕ)
    → d + n ≤ length m
    → s + n ≤ length m
    → Writes d n (λ j. get_or m (s + j) 0) m (memmove d s n m)
unfolding memmove
memmove_lem n d s m fits_d fits_s = elim (Bool-cases (ltb d s)) [
  | inl up ↦ Writes-run (rw up refl) (copy_up-Writes n d s m (inl (ground arith)) fits_d fits_s)
  | inr down ↦ Writes-run (rw down refl) (copy_down-Writes n d s m (ground arith) fits_d)
]

-- memcpy between two parts of the block that do not overlap returns, and has copied the bytes of
-- the source, and changed no byte outside the destination.
pub memcpy_lem :
    (n d s : ℕ) (m : List ℕ)
    → (d + n ≤ s) ⊎ (s + n ≤ d)
    → d + n ≤ length m
    → s + n ≤ length m
    → Writes d n (λ j. get_or m (s + j) 0) m (memcpy d s n m)
unfolding memcpy
memcpy_lem n d s m apart fits_d fits_s = copy_up-Writes n d s m (omega arith) fits_d fits_s

-- memset on a part of the block returns, and has set its bytes, and no other, to the low byte of `c`.
pub memset_lem :
    (n d c : ℕ) (m : List ℕ) → d + n ≤ length m → Writes d n (λ j. u8 c) m (memset d c n m)
unfolding memset
memset_lem zero d c m fits = Writes-none d _ m
memset_lem (suc n) d c m fits =
    let run = store-ok m d (u8 c) (omega arith) in
    Writes-run (rw run refl) (
      Writes-first d n (λ j. u8 c) m _ (omega arith)
        (memset_lem n (d + 1) c (set m d (u8 c)) (omega (arith, length-set m d (u8 c)))))
