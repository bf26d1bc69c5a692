-- ===== src/Coremark/List/Bench/Restores.antt =====
-- core_bench_list as a whole: the list is back to its original state.
use gandiva.Base.{
  ℕ, ◌+◌, ◌-◌, ◌*◌, ◌^◌, ◌≤◌, ◌<◌, ◌≡◌, ◌≢◌, refl, sym, ◌∙◌, arith, inl, inr, Bool-cases, ◌==◌,
  ne→==, ◌||◌, if◌then◌else◌, neg16, u16, none, some, List, [], ◌∷◌, length, Run, ok,
}
use gandiva.Coremark.Calc.{Results}
use gandiva.Coremark.Calc.Caches.{IsReady}
use gandiva.Coremark.List.{Heap}
use gandiva.Coremark.List.Runs.{
  count, count_self, InOrder, InOrder-mono, IsSorted, InOrder-IsSorted,
}
use gandiva.Coremark.List.Walk.{Walk, Chain-Walk, Walk-Chain}
use gandiva.Coremark.List.Sort.{Sorted, core_list_mergesort}
use gandiva.Coremark.List.Sort.Sorts.{core_list_mergesort-SortedBy}
use gandiva.Coremark.List.Compare.{cmp_idx}
use gandiva.Coremark.List.Compare.Idx.{idx_of}
use gandiva.Coremark.List.Compare.Complex.{core_list_mergesort-cmp_complex}
use gandiva.Coremark.List.Compare.Regen.{IsRegen, InIdxOrder, KeepsUpper, cmp_idx-IsOrdering}
use gandiva.Coremark.List.Bench.{Finding, sort_by_data, ListBenched, core_bench_list}
use gandiva.Coremark.List.Bench.Round.{
  Holds, Holds-once, Holds-full, first_two, data_at-ok, find_loop-Holds,
}
use gandiva.Coremark.List.Bench.Removal.{crc_loop-ok, Walk-from, remove_and_undo_lem}

-- A property of both sides of a relation holds of all items that stand in its order.
each_item :
    {S : ℕ → ℕ → Type 0} (P : ℕ → Type 0)
    → ((u v : ℕ) → S u v → P u × P v)
    → (xs : List ℕ) → 2 ≤ length xs
    → InOrder S xs
    → (a : ℕ) → 0 < count a xs
    → P a
each_item P both [] two o a there = absurd (omega arith)
each_item P both (x ∷ []) two o a there = absurd (omega arith)
each_item P both (x ∷ y ∷ []) two (le, o) a there = elim (Bool-cases (a == x)) [
  | inl same ↦ let at : a ≡ x = ground arith in rw at ((both x y le).0)
  | inr other ↦ let at : a ≡ y = ground arith in rw at ((both x y le).1)
]
each_item P both (x ∷ y ∷ z ∷ xs) two (le, o) a there = elim (Bool-cases (a == x)) [
  | inl same ↦ let at : a ≡ x = ground arith in rw at ((both x y le).0)
  | inr other ↦ each_item P both (y ∷ z ∷ xs) (omega arith) o a (ground arith)
]

-- From `list` on, the heap `h` has the items `all` in the order of their signed indices, and every
-- item has its data back.
pub record Restored (old : Heap) (all : List ℕ) (list : ℕ) (h : Heap) : Type 0 where
  pub holds : Holds old all list h
  pub sorted : IsSorted (idx_of old) holds.xs
  pub regen : (a : ℕ) → 0 < count a all → IsRegen (h.data16 (h.info a))

-- The head of a sorted list whose least key is that of `l` only.
pub least_first :
    (key : ℕ → ℕ) (l : ℕ) (f : ℕ → ℕ) (p : ℕ) (xs : List ℕ)
    → Walk f p xs 0
    → IsSorted key xs
    → 0 < count l xs
    → ((a : ℕ) → 0 < count a xs → a ≢ l → key l < key a)
    → p ≡ l
least_first key l f p [] walk sorted there least = absurd (omega arith)
least_first key l f p (x ∷ xs) (at, ne, w) (below, sorted) there least =
    elim (Bool-cases (l == x)) [
      | inl same ↦ let is : l ≡ x = ground arith in at ∙ sym is
      | inr other ↦
          let above = least x (omega (arith, count_self x xs)) (λ e. ground arith) in
          absurd (omega (arith, below l (ground arith)))
    ]

module _ (old : Heap) (all : List ℕ) (once : (a : ℕ) → count a all ≤ 1)
    (full : (a : ℕ) → 0 < count a all → old.info a ≢ 0) (words : (d : ℕ) → old.idx d < 2 ^ 16)
    (three : 3 ≤ length all) (small : length all < 2 ^ 31) (fuel : ℕ)
    (enough : length all < fuel) where
  sort_by_data-Holds :
      (finder_idx : ℕ) (s : Finding) (res : Results)
      → IsReady res
      → Holds old all s.list s.heap
      → (sorted : Sorted) × (r : Results) × (sort_by_data fuel finder_idx s res ≡ ok sorted)
        × (sorted.res ≡ some r)
        × IsReady r
        × Holds old all sorted.list sorted.heap
  unfolding sort_by_data
  sort_by_data-Holds finder_idx s res ready inv =
      elim (Bool-cases (neg16 finder_idx || (finder_idx == 0))) [
        | inl not_sorted ↦
            rw not_sorted
              (record { list = s.list; heap = s.heap; res = some res }, res, refl, refl, ready, inv)
        | inr sorts ↦
            let h = s.heap in
            let once' = Holds-once old all once full inv in
            let (out, ys, e, chain, order, items, whole, keeps) =
              core_list_mergesort-cmp_complex fuel s.list h res inv.xs
                (Walk-Chain h.next s.list inv.xs inv.walk once') (Holds-full old all once full inv)
                ready (omega (arith, inv.whole)) (omega (arith, inv.whole))
                (omega (arith, inv.whole)) in
            (
              out,
              keeps.results,
              rw sorts e,
              keeps.is,
              keeps.ready,
              record {
                xs = ys;
                walk = Chain-Walk out.heap.next out.list ys chain;
                items = λ a. items a ∙ inv.items a;
                whole = whole ∙ inv.whole;
                info = keeps.info ∙ inv.info;
                idx = keeps.idx ∙ inv.idx;
                upper = λ d. keeps.upper d ∙ inv.upper d;
              },
            )
      ]

  pub sort_by_idx-Restored :
      (list : ℕ) (h : Heap)
      → Holds old all list h
      → (sorted : Sorted) × (core_list_mergesort fuel list cmp_idx h none ≡ ok sorted)
        × Restored old all sorted.list sorted.heap
  sort_by_idx-Restored list h inv =
      let t =
        core_list_mergesort-SortedBy cmp_idx InIdxOrder (λ x. h.info x ≢ 0) (KeepsUpper h)
          (cmp_idx-IsOrdering h (λ d. rw inv.idx (words d))) inv.xs
          (Holds-once old all once full inv) (Holds-full old all once full inv) fuel list h none
          (Walk-Chain h.next list inv.xs inv.walk (Holds-once old all once full inv))
          (record { null = refl; info = refl; idx = refl; upper = λ d. refl })
          (omega (arith, inv.whole)) (omega (arith, inv.whole)) (omega (arith, inv.whole)) in
      let g = t.out.heap in
      let items : (a : ℕ) → count a t.xs ≡ count a all = λ a. t.items a ∙ inv.items a in
      let info = t.inv.info ∙ inv.info in
      let idx = t.inv.idx ∙ inv.idx in
      let whole = t.whole ∙ inv.whole in
      let same_key : (a : ℕ) → idx_of g a ≡ idx_of old a = λ a. rw (info, idx) refl in
      (
        t.out,
        t.returns,
        record {
          holds = record {
            xs = t.xs;
            walk = Chain-Walk g.next t.out.list t.xs t.chain;
            items = items;
            whole = whole;
            info = info;
            idx = idx;
            upper = λ d. t.inv.upper d ∙ inv.upper d;
          };
          sorted =
              InOrder-IsSorted (idx_of old) t.xs (
                InOrder-mono (λ u v o. omega (arith, o.below, same_key u, same_key v)) t.xs
                  t.order);
          regen = λ a there.
              each_item (λ z. IsRegen (g.data16 (g.info z))) (λ u v o. (o.regen_u, o.regen_v)) t.xs
                (omega (arith, whole)) t.order a (omega (arith, items a));
        },
      )

  -- What core_bench_list returns, where the list is, and the results.
  pub record Benched (list : ℕ) (r : Run ListBenched) : Type 0 where
    pub out : ListBenched
    pub results : Results
    pub last : ℕ
    pub returns : r ≡ ok out
    pub is : out.res ≡ some results
    pub ready : IsReady results
    pub restored : Restored old all last out.heap

  pub core_bench_list-Benched :
      (list finder_idx : ℕ) (res : Results) (h : Heap)
      → IsReady res
      → Holds old all list h
      → Benched list (core_bench_list fuel list res finder_idx h)
  unfolding core_bench_list
  core_bench_list-Benched list finder_idx res h ready inv =
      let (s, finds, held) =
        find_loop-Holds old all once full fuel (if neg16 res.seed3 then 0 else res.seed3)
          (record {
            retval = 0;
            found = 0;
            missed = 0;
            list = list;
            info = record { data16 = 0; idx = finder_idx };
            heap = h;
          })
          (omega arith) enough inv in
      let (sorted, r, sorts, is, ready', held') = sort_by_data-Holds finder_idx s res ready held in
      let retval = u16 (s.retval + s.found * 4 + (2 ^ 16 - s.missed)) in
      let (crc, undoes) =
        remove_and_undo_lem fuel sorted.list retval s.info sorted.heap held'.xs held'.walk
          (Holds-once old all once full held') (Holds-full old all once full held')
          (omega (arith, held'.whole)) (omega (arith, held'.whole)) in
      let (last, resorts, back) = sort_by_idx-Restored sorted.list sorted.heap held' in
      let g = last.heap in
      let xs = back.holds.xs in
      let (ne, ne', there, there') =
        first_two g.next last.list xs back.holds.walk (omega (arith, back.holds.whole)) in
      let reads =
        data_at-ok g last.list ne (Holds-full old all once full back.holds last.list there) in
      let (zs, walk, fits) =
        Walk-from g.next last.list (g.next last.list) xs back.holds.walk there' in
      let (crc', ends) =
        crc_loop-ok fuel last.list (g.next last.list) crc (g.data16 (g.info last.list)) g zs walk
          (omega (arith, back.holds.whole)) reads in
      record {
        out = record { retval = crc'; heap = g; res = sorted.res };
        results = r;
        last = last.list;
        returns = rw (finds, sorts, undoes, resorts, ne→== last.list 0 ne, ends) refl;
        is = is;
        ready = ready';
        restored = back;
      }
