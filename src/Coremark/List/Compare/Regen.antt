-- ===== src/Coremark/List/Compare/Regen.antt =====
-- cmp_idx with NULL gives the items their data back: both bytes of the data are the upper byte.
use gandiva.Base.{
  ℕ, ◌%◌, ◌^◌, ◌≤◌, ◌<◌, ◌≡◌, ◌≢◌, refl, ap, ◌∙◌, arith, inl, inr, Bool-cases, ◌==◌, leb, ◌||◌,
  neg32, shr, Option, none,
}
use gandiva.Coremark.Calc.{Results}
use gandiva.Coremark.List.{Heap, write}
use gandiva.Coremark.List.Chain.{write_self, write-ne}
use gandiva.Coremark.List.Sort.Output.{IsOrdering}
use gandiva.Coremark.List.Compare.{difference, regen, cmp_idx}
use gandiva.Coremark.List.Compare.Idx.{signed, difference_order, idx_of, regenerated, cmp_idx_null}

-- The lower byte is the upper one.
abbrev pub IsRegen : ℕ → Type 0
IsRegen x = x % 2 ^ 8 ≡ shr x 8 % 2 ^ 8

regen-IsRegen : (x : ℕ) → IsRegen (regen x)
regen-IsRegen x = omega arith

regen_same : (x : ℕ) → IsRegen x → regen x ≡ x
regen_same x is = omega arith

regen_upper : (x : ℕ) → shr (regen x) 8 ≡ shr x 8
regen_upper x = omega arith

-- Two data with the same upper byte are the same, when both have it as their lower byte.
pub IsRegen_unique : (x y : ℕ) → IsRegen x → IsRegen y → shr x 8 ≡ shr y 8 → x ≡ y
IsRegen_unique x y is is' e = omega arith

-- Both items have their data back, and the signed index of `u` is at most that of `v`.
pub record InIdxOrder (h : Heap) (res : Option Results) (u v : ℕ) : Type 0 where
  pub regen_u : IsRegen (h.data16 (h.info u))
  pub regen_v : IsRegen (h.data16 (h.info v))
  pub below : idx_of h u ≤ idx_of h v

-- What the comparison keeps of the heap `h`.
pub record KeepsUpper (h : Heap) (g : Heap) (res : Option Results) : Type 0 where
  pub null : res ≡ none
  pub info : g.info ≡ h.info
  pub idx : g.idx ≡ h.idx
  pub upper : (d : ℕ) → shr (g.data16 d) 8 ≡ shr (h.data16 d) 8

module _ (f : ℕ → ℕ) (d : ℕ) where
  write_regen : (e : ℕ) → IsRegen (f e) → write f d (regen (f d)) e ≡ f e
  write_regen e is = elim (Bool-cases (e == d)) [
    | inl same ↦
        let at : e ≡ d = ground arith in
        rw at (write_self f d (regen (f d)) ∙ regen_same (f d) (rw at at is))
    | inr other ↦ write-ne f d (regen (f d)) e (λ at. ground arith)
  ]

  write_upper : (e : ℕ) → shr (write f d (regen (f d)) e) 8 ≡ shr (f e) 8
  write_upper e = elim (Bool-cases (e == d)) [
    | inl same ↦
        let at : e ≡ d = ground arith in
        rw at (ap (λ x. shr x 8) (write_self f d (regen (f d))) ∙ regen_upper (f d))
    | inr other ↦ ap (λ x. shr x 8) (write-ne f d (regen (f d)) e (λ at. ground arith))
  ]

  write_IsRegen : IsRegen (write f d (regen (f d)) d)
  write_IsRegen = rw (write_self f d (regen (f d))) (regen-IsRegen (f d))

module _ (a b : ℕ) (g : Heap) where
  regenerated_same : (e : ℕ) → IsRegen (g.data16 e) → (regenerated a b g).data16 e ≡ g.data16 e
  unfolding regenerated
  regenerated_same e is =
      let once = write_regen g.data16 a e is in
      write_regen (write g.data16 a (regen (g.data16 a))) b e (rw once is) ∙ once

  regenerated_upper : (e : ℕ) → shr ((regenerated a b g).data16 e) 8 ≡ shr (g.data16 e) 8
  unfolding regenerated
  regenerated_upper e =
      write_upper (write g.data16 a (regen (g.data16 a))) b e ∙ write_upper g.data16 a e

  regenerated_first : IsRegen ((regenerated a b g).data16 a)
  unfolding regenerated
  regenerated_first =
      let is = write_IsRegen g.data16 a in
      rw (write_regen (write g.data16 a (regen (g.data16 a))) b a is) is

  regenerated_second : IsRegen ((regenerated a b g).data16 b)
  unfolding regenerated
  regenerated_second = write_IsRegen (write g.data16 a (regen (g.data16 a))) b

  -- The comparison writes to the data only.
  regenerated_is : regenerated a b g ≡ record g { data16 = (regenerated a b g).data16 }
  unfolding regenerated
  regenerated_is = refl

pub cmp_idx-IsOrdering :
    (h : Heap)
    → ((d : ℕ) → h.idx d < 2 ^ 16)
    → IsOrdering cmp_idx InIdxOrder (λ x. h.info x ≢ 0) (KeepsUpper h)
unfolding regenerated
cmp_idx-IsOrdering h words = record {
  compares = λ x y g res inv gx gy.
      let a = g.info x in
      let b = g.info y in
      let order : ((difference (g.idx a) (g.idx b) == 0) || neg32 (difference (g.idx a) (g.idx b)))
          ≡ leb (signed (g.idx a)) (signed (g.idx b)) =
        difference_order (g.idx a) (g.idx b) (rw inv.idx (words a)) (rw inv.idx (words b)) in
      (
        record { value = difference (g.idx a) (g.idx b); heap = regenerated a b g; res = none },
        rw inv.null
            (cmp_idx_null a b g (rw (ap (λ f. f x) inv.info) gx) (rw (ap (λ f. f y) inv.info) gy)),
        refl,
        record {
          null = refl;
          info = inv.info;
          idx = inv.idx;
          upper = λ d. regenerated_upper a b g d ∙ inv.upper d;
        },
        λ u v o. record {
          regen_u = rw (regenerated_same a b g (g.info u) o.regen_u) o.regen_u;
          regen_v = rw (regenerated_same a b g (g.info v) o.regen_v) o.regen_v;
          below = o.below;
        },
        λ preferred. record {
          regen_u = regenerated_first a b g;
          regen_v = regenerated_second a b g;
          below = ground (arith, order);
        },
        λ preferred. record {
          regen_u = regenerated_second a b g;
          regen_v = regenerated_first a b g;
          below = ground (arith, order);
        },
      );
  relinks = λ g res next inv. record {
    null = inv.null;
    info = inv.info;
    idx = inv.idx;
    upper = inv.upper;
  };
  stays = λ g res next x y o. record { regen_u = o.regen_u; regen_v = o.regen_v; below = o.below };
}
