-- ===== src/Coremark/List/Compare/Complex.antt =====
-- cmp_complex, by which core_list_mergesort orders the list by the values of calc_func.
use gandiva.Base.{
  ℕ, ◌^◌, ◌≤◌, ◌<◌, ◌≡◌, ◌≢◌, refl, ap, ◌∙◌, arith, inl, inr, Bool-cases, ◌==◌, leb, ne→==, ◌||◌,
  neg32, shr, low_bits, Option, some, List, length, ok,
}
use gandiva.Coremark.Calc.{Results, Calculated}
use gandiva.Coremark.Calc.Caches.{IsReady, IsCached, Caching, calc_func-Caching}
use gandiva.Coremark.List.{Heap, write}
use gandiva.Coremark.List.Chain.{Chain, write_self, write-ne}
use gandiva.Coremark.List.Runs.{count, InOrder}
use gandiva.Coremark.List.Walk.{Chain-count}
use gandiva.Coremark.List.Sort.{Sorted, core_list_mergesort}
use gandiva.Coremark.List.Sort.Output.{IsOrdering}
use gandiva.Coremark.List.Sort.Sorts.{core_list_mergesort-SortedBy}
use gandiva.Coremark.List.Compare.{difference, cmp_complex}

-- The value that the data of an item has cached.
abbrev pub value_of : Heap → ℕ → ℕ
value_of h p = low_bits (h.data16 (h.info p)) 7

-- Both items have their values cached, and that of `u` is at most that of `v`.
pub record InValueOrder (h : Heap) (res : Option Results) (u v : ℕ) : Type 0 where
  pub cached_u : IsCached (h.data16 (h.info u))
  pub cached_v : IsCached (h.data16 (h.info v))
  pub below : value_of h u ≤ value_of h v

-- What the comparison keeps of the heap `h`, and the results.
pub record KeepsItems (h : Heap) (g : Heap) (res : Option Results) : Type 0 where
  pub results : Results
  pub is : res ≡ some results
  pub ready : IsReady results
  pub info : g.info ≡ h.info
  pub idx : g.idx ≡ h.idx
  pub upper : (d : ℕ) → shr (g.data16 d) 8 ≡ shr (h.data16 d) 8

-- Caching a value in the data at `d` keeps what is cached, and the upper bytes.
module _ (f : ℕ → ℕ) (d : ℕ) (out : Calculated) (c : Caching (f d) out) where
  write_cached : (e : ℕ) → IsCached (f e) → write f d out.pdata e ≡ f e
  write_cached e cached = elim (Bool-cases (e == d)) [
    | inl same ↦
        let at : e ≡ d = ground arith in rw at (write_self f d out.pdata ∙ c.same (rw at at cached))
    | inr other ↦ write-ne f d out.pdata e (λ at. ground arith)
  ]

  write_upper : (e : ℕ) → shr (write f d out.pdata e) 8 ≡ shr (f e) 8
  write_upper e = elim (Bool-cases (e == d)) [
    | inl same ↦
        let at : e ≡ d = ground arith in
        rw at (ap (λ x. shr x 8) (write_self f d out.pdata) ∙ c.upper)
    | inr other ↦ ap (λ x. shr x 8) (write-ne f d out.pdata e (λ at. ground arith))
  ]

small_difference :
    (x y : ℕ) → x < 2 ^ 7 → y < 2 ^ 7 → ((difference x y == 0) || neg32 (difference x y)) ≡ leb x y
small_difference x y hx hy = ground arith

-- The data items after both values were cached.
abbrev twice : (ℕ → ℕ) → ℕ → ℕ → Calculated → Calculated → ℕ → ℕ
twice f a b u v = write (write f a u.pdata) b v.pdata

cmp_complex_calls :
    (a b : ℕ) (g : Heap) (r : Results)
    → a ≢ 0
    → b ≢ 0
    → IsReady r
    → (u : Calculated) × (v : Calculated) × (cmp_complex a b g (some r)
        ≡ ok (record {
          value = difference u.value v.value;
          heap = record g { data16 = twice g.data16 a b u v };
          res = some v.res;
        }))
      × Caching (g.data16 a) u
      × Caching (write g.data16 a u.pdata b) v
unfolding cmp_complex
cmp_complex_calls a b g r ne_a ne_b ready =
    let (u, e, c) = calc_func-Caching (g.data16 a) r ready in
    let (v, f, d) = calc_func-Caching (write g.data16 a u.pdata b) u.res c.ready in
    (u, v, rw (ne→== a 0 ne_a, ne→== b 0 ne_b, e, f) refl, c, d)

module _ (f : ℕ → ℕ) (a b : ℕ) (u v : Calculated) (c : Caching (f a) u)
    (d : Caching (write f a u.pdata b) v) where
  twice_cached : (e : ℕ) → IsCached (f e) → twice f a b u v e ≡ f e
  twice_cached e is =
      let once = write_cached f a u c e is in
      write_cached (write f a u.pdata) b v d e (rw once is) ∙ once

  twice_upper : (e : ℕ) → shr (twice f a b u v e) 8 ≡ shr (f e) 8
  twice_upper e = write_upper (write f a u.pdata) b v d e ∙ write_upper f a u c e

  twice_first : twice f a b u v a ≡ u.pdata
  twice_first =
      let self = write_self f a u.pdata in
      write_cached (write f a u.pdata) b v d a (rw self c.cached) ∙ self

  twice_second : twice f a b u v b ≡ v.pdata
  twice_second = write_self (write f a u.pdata) b v.pdata

pub cmp_complex-IsOrdering :
    (h : Heap) → IsOrdering cmp_complex InValueOrder (λ x. h.info x ≢ 0) (KeepsItems h)
cmp_complex-IsOrdering h = record {
  compares = λ x y g res inv gx gy.
      let r = inv.results in
      let a = g.info x in
      let b = g.info y in
      let (u, v, e, c, d) =
        cmp_complex_calls a b g r (rw (ap (λ f. f x) inv.info) gx) (rw (ap (λ f. f y) inv.info) gy)
          inv.ready in
      let first = twice_first g.data16 a b u v c d in
      let second = twice_second g.data16 a b u v c d in
      let order : ((difference u.value v.value == 0) || neg32 (difference u.value v.value))
          ≡ leb u.value v.value =
        small_difference u.value v.value (omega (arith, c.value)) (omega (arith, d.value)) in
      let again = twice_cached g.data16 a b u v c d in
      (
        record {
          value = difference u.value v.value;
          heap = record g { data16 = twice g.data16 a b u v };
          res = some v.res;
        },
        rw inv.is e,
        refl,
        record {
          results = v.res;
          is = refl;
          ready = d.ready;
          info = inv.info;
          idx = inv.idx;
          upper = λ t. twice_upper g.data16 a b u v c d t ∙ inv.upper t;
        },
        λ p q o.
            let at_p = again (g.info p) o.cached_u in
            let at_q = again (g.info q) o.cached_v in
            record {
              cached_u = rw at_p o.cached_u;
              cached_v = rw at_q o.cached_v;
              below = rw (at_p, at_q) o.below;
            },
        λ preferred. record {
          cached_u = rw first c.cached;
          cached_v = rw second d.cached;
          below = rw (first, second, c.value, d.value) (ground (arith, order));
        },
        λ preferred. record {
          cached_u = rw second d.cached;
          cached_v = rw first c.cached;
          below = rw (first, second, c.value, d.value) (ground (arith, order));
        },
      );
  relinks = λ g res next inv. record {
    results = inv.results;
    is = inv.is;
    ready = inv.ready;
    info = inv.info;
    idx = inv.idx;
    upper = inv.upper;
  };
  stays =
      λ g res next x y o. record { cached_u = o.cached_u; cached_v = o.cached_v; below = o.below };
}

-- core_list_mergesort by cmp_complex, with results that are ready for the other benchmarks, on a
-- chain of 1 to 2^31 - 1 distinct items that all have data, with as much fuel as items at least,
-- returns a chain of the same items. Each item and the next have their values cached, and stand in
-- the order of these values; every item keeps its data item, its index and the upper byte of its
-- data, and the results are still ready.
pub core_list_mergesort-cmp_complex :
    (fuel list : ℕ) (h : Heap) (res : Results) (xs : List ℕ)
    → Chain h.next list xs
    → ((a : ℕ) → 0 < count a xs → h.info a ≢ 0)
    → IsReady res
    → 0 < length xs
    → length xs < 2 ^ 31
    → length xs ≤ fuel
    → (out : Sorted) × (ys : List ℕ) × (core_list_mergesort fuel list cmp_complex h (some res)
        ≡ ok out)
      × Chain out.heap.next out.list ys
      × InOrder (InValueOrder out.heap out.res) ys
      × ((a : ℕ) → count a ys ≡ count a xs)
      × (length ys ≡ length xs)
      × KeepsItems h out.heap out.res
core_list_mergesort-cmp_complex fuel list h res xs chain full ready some_items small enough =
    let t =
      core_list_mergesort-SortedBy cmp_complex InValueOrder (λ x. h.info x ≢ 0) (KeepsItems h)
        (cmp_complex-IsOrdering h) xs (Chain-count h.next list xs chain) full fuel list h (some res)
        chain
        (record {
          results = res;
          is = refl;
          ready = ready;
          info = refl;
          idx = refl;
          upper = λ d. refl;
        })
        some_items small enough in
    (t.out, t.xs, t.returns, t.chain, t.order, t.items, t.whole, t.inv)
