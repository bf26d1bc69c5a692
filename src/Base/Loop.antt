-- ===== src/Base/Loop.antt =====
-- Counted loops over a block, and loops that give each cell of a range a new value.
use gandiva.Base.Lists.{length, get_or, set, length-set, get_or-set_self, get_or-set_ne}
use gandiva.Base.Memory.{Run, ok, ◌>>=◌}
use Prim.Native.Nat.{ℕ, zero, suc, ◌+◌, ◌≤◌, ◌<◌}
use mathlib.Core.Path.{◌≡◌, refl, ◌∙◌, subst}
use mathlib.Core.Logic.{◌⊎◌}
use mathlib.Core.List.{List}
use native.Mathlib.Omega.{arith}

-- for (k = i; k < i + n; k++) s = body k s
unfoldable pub for_loop {ℓ} : {S : Type ℓ} → ℕ → ℕ → (ℕ → S → Run S) → S → Run S
for_loop zero i body s = ok s
for_loop (suc n) i body s = body i s >>= λ s'. for_loop n (i + 1) body s'

-- The result has the value `h m` of the old one in each cell `m` of `[lo, hi)`, and the old value
-- in every other.
pub record Updated (h : ℕ → ℕ → ℕ) (lo hi : ℕ) (c : List ℕ) (r : Run (List ℕ)) : Type 0 where
  pub out : List ℕ
  pub returns : r ≡ ok out
  pub same_length : length out ≡ length c
  pub inside : (m : ℕ) → lo ≤ m → m < hi → get_or out m 0 ≡ h m (get_or c m 0)
  pub outside : (m : ℕ) → (m < lo) ⊎ (hi ≤ m) → get_or out m 0 ≡ get_or c m 0

pub Updated-bounds :
    {h : ℕ → ℕ → ℕ} {lo lo' hi hi' : ℕ} {c : List ℕ} {r : Run (List ℕ)}
    → lo ≡ lo'
    → hi ≡ hi'
    → Updated h lo hi c r
    → Updated h lo' hi' c r
Updated-bounds p q u = record {
  out = u.out;
  returns = u.returns;
  same_length = u.same_length;
  inside = λ m a b. u.inside m (omega arith) (omega arith);
  outside = λ m a. u.outside m (omega arith);
}

-- The result, with a run that is known to be it.
pub Updated-run :
    {h : ℕ → ℕ → ℕ} {lo hi : ℕ} {c : List ℕ} {r s : Run (List ℕ)}
    → s ≡ r
    → Updated h lo hi c r
    → Updated h lo hi c s
Updated-run e u = record {
  out = u.out;
  returns = e ∙ u.returns;
  same_length = u.same_length;
  inside = u.inside;
  outside = u.outside;
}

pub Updated-none : (h : ℕ → ℕ → ℕ) (lo : ℕ) (c : List ℕ) → Updated h lo lo c (ok c)
Updated-none h lo c = record {
  out = c;
  returns = refl;
  same_length = refl;
  inside = λ m p q. absurd (omega arith);
  outside = λ m p. refl;
}

pub Updated-set :
    (h : ℕ → ℕ → ℕ) (m : ℕ) (c : List ℕ)
    → m < length c
    → Updated h m (m + 1) c (ok (set c m (h m (get_or c m 0))))
Updated-set h m c fits = record {
  out = set c m (h m (get_or c m 0));
  returns = refl;
  same_length = length-set c m (h m (get_or c m 0));
  inside = λ k p q.
      let e : k ≡ m = omega arith in rw e (get_or-set_self c m (h m (get_or c m 0)) 0 fits);
  outside = λ k p. get_or-set_ne c m k (h m (get_or c m 0)) 0 (λ e. omega arith);
}

-- A loop whose round `k` updates the cells from `at k` to `at (k + 1)`.
module _ (h : ℕ → ℕ → ℕ) (at : ℕ → ℕ) (len : ℕ) (body : ℕ → List ℕ → Run (List ℕ)) where
  pub for_loop-Updated :
      (n i j : ℕ) (c : List ℕ)
      → i + n ≡ j
      → ((k : ℕ) → at k ≤ at (k + 1))
      → ((k : ℕ) (d : List ℕ) → k < j → length d ≡ len → Updated h (at k) (at (k + 1)) d (body k d))
      → length c ≡ len
      → (at i ≤ at j) × Updated h (at i) (at j) c (for_loop n i body c)
  unfolding for_loop
  for_loop-Updated zero i j c e up each same =
      let e' : i ≡ j = omega arith in rw e' (omega arith, Updated-none h (at j) c)
  for_loop-Updated (suc n) i j c e up each same =
      let first = each i c (omega arith) same in
      let (below, rest) =
        for_loop-Updated n (i + 1) j first.out (omega arith) up each (first.same_length ∙ same) in
      (
        omega (arith, up i),
        rw first.returns (record {
          out = rest.out;
          returns = rest.returns;
          same_length = rest.same_length ∙ first.same_length;
          inside = λ m p q.
              ground (arith, first.inside m, first.outside m, rest.inside m, rest.outside m);
          outside = λ m p. ground (arith, up i, first.outside m, rest.outside m);
        }),
      )

-- An invariant of the rounds, with every round returning.
pub for_loop_inv {ℓ} :
    {S : Type ℓ} (P : ℕ → S → Type 0) (body : ℕ → S → Run S) (n i j : ℕ) (s : S)
    → i + n ≡ j
    → ((k : ℕ) (t : S) → k < j → P k t → (t' : S) × (body k t ≡ ok t') × P (k + 1) t')
    → P i s
    → (s' : S) × (for_loop n i body s ≡ ok s') × P j s'
unfolding for_loop
for_loop_inv P body zero i j s e keep h =
    let e' : i ≡ j = omega arith in (s, refl, subst (λ k. P k s) e' h)
for_loop_inv P body (suc n) i j s e keep h =
    let (s', r, h') = keep i s (omega arith) h in
    rw r (for_loop_inv P body n (i + 1) j s' (omega arith) keep h')
