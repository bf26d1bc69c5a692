-- ===== src/Coremark/List/Compare/Idx.antt =====
-- cmp_idx with the pointer NULL, by which core_list_mergesort restores the order of the list.
use gandiva.Base.{
  ℕ, ◌+◌, ◌^◌, ◌≤◌, ◌<◌, ◌≡◌, ◌≢◌, refl, ap, arith, ◌==◌, leb, ne→==, ◌||◌, neg32, u16, Option,
  none, List, length, ok,
}
use gandiva.Coremark.Calc.{Results}
use gandiva.Coremark.List.{Heap, write}
use gandiva.Coremark.List.Chain.{Chain}
use gandiva.Coremark.List.Runs.{count, IsSorted}
use gandiva.Coremark.List.Walk.{Chain-count}
use gandiva.Coremark.List.Sort.{Sorted, core_list_mergesort}
use gandiva.Coremark.List.Sort.Output.{IsComparison}
use gandiva.Coremark.List.Sort.Sorts.{core_list_mergesort_lem}
use gandiva.Coremark.List.Compare.{difference, regen, regen_item, idx_difference, cmp_idx}

-- The value of a 16-bit pattern as a signed number, from 0 for the least one on.
abbrev pub signed : ℕ → ℕ
signed x = u16 (x + 2 ^ 15)

-- The test that the sort makes of a difference is the order of the signed values.
pub difference_order :
    (x y : ℕ)
    → x < 2 ^ 16
    → y < 2 ^ 16
    → ((difference x y == 0) || neg32 (difference x y)) ≡ leb (signed x) (signed y)
difference_order x y hx hy = ground arith

-- The signed index of an item of the list.
abbrev pub idx_of : Heap → ℕ → ℕ
idx_of h p = signed (h.idx (h.info p))

-- What a comparison by index keeps of the heap `h`.
pub record KeepsIdx (h : Heap) (g : Heap) (res : Option Results) : Type 0 where
  pub null : res ≡ none
  pub info : g.info ≡ h.info
  pub idx : g.idx ≡ h.idx

-- Both items get their data back from the upper bytes, and the result is the difference.
unfoldable pub regenerated : ℕ → ℕ → Heap → Heap
regenerated a b g =
    let once = write g.data16 a (regen (g.data16 a)) in
    record g { data16 = write once b (regen (once b)) }

pub cmp_idx_null :
    (a b : ℕ) (g : Heap)
    → a ≢ 0
    → b ≢ 0
    → cmp_idx a b g none
      ≡ ok (record { value = difference (g.idx a) (g.idx b); heap = regenerated a b g; res = none })
unfolding cmp_idx regen_item idx_difference regenerated
cmp_idx_null a b g ne_a ne_b = rw (ne→== a 0 ne_a, ne→== b 0 ne_b) refl

pub cmp_idx-IsComparison :
    (h : Heap)
    → ((d : ℕ) → h.idx d < 2 ^ 16)
    → IsComparison cmp_idx (idx_of h) (λ x. h.info x ≢ 0) (KeepsIdx h)
unfolding regenerated
cmp_idx-IsComparison h words = record {
  compares = λ x y g res inv gx gy. (
    record {
      value = difference (g.idx (h.info x)) (g.idx (h.info y));
      heap = regenerated (h.info x) (h.info y) g;
      res = none;
    },
    rw (inv.null, ap (λ f. f x) inv.info, ap (λ f. f y) inv.info)
        (cmp_idx_null (h.info x) (h.info y) g gx gy),
    refl,
    record { null = refl; info = inv.info; idx = inv.idx },
    rw inv.idx (
        difference_order (h.idx (h.info x)) (h.idx (h.info y)) (words (h.info x))
          (words (h.info y))),
  );
  relinks = λ g res next inv. record { null = inv.null; info = inv.info; idx = inv.idx };
}

-- core_list_mergesort by cmp_idx with NULL, on a chain of 1 to 2^31 - 1 distinct items that all have
-- data with 16-bit indices, with as much fuel as items at least, returns a chain of the same items
-- in the order of their signed indices, and every item keeps its data item and its index.
pub core_list_mergesort-cmp_idx :
    (fuel list : ℕ) (h : Heap) (xs : List ℕ)
    → Chain h.next list xs
    → ((a : ℕ) → 0 < count a xs → h.info a ≢ 0)
    → ((d : ℕ) → h.idx d < 2 ^ 16)
    → 0 < length xs
    → length xs < 2 ^ 31
    → length xs ≤ fuel
    → (out : Sorted) × (ys : List ℕ) × (core_list_mergesort fuel list cmp_idx h none ≡ ok out)
      × Chain out.heap.next out.list ys
      × IsSorted (idx_of h) ys
      × ((a : ℕ) → count a ys ≡ count a xs)
      × KeepsIdx h out.heap out.res
core_list_mergesort-cmp_idx fuel list h xs chain full words some small enough =
    core_list_mergesort_lem cmp_idx (idx_of h) (λ x. h.info x ≢ 0) (KeepsIdx h)
      (cmp_idx-IsComparison h words) xs (Chain-count h.next list xs chain) full fuel list h none
      chain (record { null = refl; info = refl; idx = refl }) some small enough
