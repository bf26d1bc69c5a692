-- ===== src/Coremark/List/Bench/Original.antt =====
-- The list after core_bench_list, for a list whose head comes first, and for one that is in the
-- order of its indices.
use gandiva.Base.{
  ℕ, ◌^◌, ◌≤◌, ◌<◌, ◌≡◌, ◌≢◌, refl, sym, ap, ◌∙◌, arith, inl, inr, Bool-cases, ◌==◌, some, List, [],
  ◌∷◌, length, ok,
}
use gandiva.Coremark.Calc.{Results}
use gandiva.Coremark.Calc.Caches.{IsReady}
use gandiva.Coremark.List.{Heap}
use gandiva.Coremark.List.Chain.{Chain}
use gandiva.Coremark.List.Runs.{count, count_self, InOrder, IsSorted}
use gandiva.Coremark.List.Walk.{Walk, Chain-Walk, Walk-Chain, Chain-count}
use gandiva.Coremark.List.Compare.Idx.{idx_of}
use gandiva.Coremark.List.Compare.Regen.{IsRegen, IsRegen_unique}
use gandiva.Coremark.List.Bench.{ListBenched, core_bench_list}
use gandiva.Coremark.List.Bench.Round.{Holds}
use gandiva.Coremark.List.Bench.Restores.{Restored, least_first, core_bench_list-Benched}

-- The chain `xs` holds its own items.
pub Chain-Holds : (h : Heap) (list : ℕ) (xs : List ℕ) → Chain h.next list xs → Holds h xs list h
Chain-Holds h list xs chain = record {
  xs = xs;
  walk = Chain-Walk h.next list xs chain;
  items = λ a. refl;
  whole = refl;
  info = refl;
  idx = refl;
  upper = λ d. refl;
}

-- Data with two equal bytes are what they were.
pub Restored-data16 :
    (old : Heap) (all : List ℕ) (list : ℕ) (h : Heap)
    → Restored old all list h
    → (a : ℕ) → 0 < count a all
    → IsRegen (old.data16 (old.info a))
    → h.data16 (old.info a) ≡ old.data16 (old.info a)
Restored-data16 old all list h s a there is =
    let regen : IsRegen (h.data16 (old.info a)) =
      rw (ap (λ f. f a) s.holds.info) at (s.regen a there) in
    IsRegen_unique (h.data16 (old.info a)) (old.data16 (old.info a)) regen is
      (s.holds.upper (old.info a))

module _ (key : ℕ → ℕ) where
  above_first :
      (x : ℕ) (xs : List ℕ)
      → InOrder (λ u v. key u < key v) (x ∷ xs)
      → (a : ℕ) → 0 < count a xs
      → key x < key a
  above_first x [] o a there = absurd (omega arith)
  above_first x (y ∷ xs) (lt, o) a there = elim (Bool-cases (a == y)) [
    | inl same ↦ let at : a ≡ y = ground arith in rw at lt
    | inr other ↦ omega (arith, above_first y xs o a (ground arith))
  ]

  rest_order :
      (x : ℕ) (xs : List ℕ)
      → InOrder (λ u v. key u < key v) (x ∷ xs)
      → InOrder (λ u v. key u < key v) xs
  rest_order x [] o = tt
  rest_order x (y ∷ xs) (lt, o) = o

  -- Sorting items whose keys ascend strictly changes nothing.
  ascending_unique :
      (xs ys : List ℕ)
      → InOrder (λ u v. key u < key v) xs
      → IsSorted key ys
      → ((a : ℕ) → count a ys ≡ count a xs)
      → ys ≡ xs
  ascending_unique [] [] o s same = refl
  ascending_unique [] (y ∷ ys) o s same = absurd (omega (arith, same y, count_self y ys))
  ascending_unique (x ∷ xs) [] o s same = absurd (omega (arith, same x, count_self x xs))
  ascending_unique (x ∷ xs) (y ∷ ys) o (below, s) same = elim (Bool-cases (x == y)) [
    | inl e ↦
        let at : y ≡ x = ground arith in
        let rest =
          ascending_unique xs ys (rest_order x xs o) s
            (λ a. omega (arith, same a, ap (λ z. count a (z ∷ ys)) at)) in
        rw (at, rest) refl
    | inr other ↦
        let above = above_first x xs o y (ground (arith, same y, count_self y ys)) in
        absurd (omega (arith, above, below x (ground (arith, same x, count_self x xs))))
  ]

same_head :
    (f g : ℕ → ℕ) (p q : ℕ) (xs : List ℕ) → Walk f p xs 0 → Walk g q xs 0 → 0 < length xs → p ≡ q
same_head f g p q [] w v some_items = absurd (omega arith)
same_head f g p q (x ∷ xs) w v some_items = w.0 ∙ sym v.0

-- core_bench_list on a chain of 3 to 2^31 - 1 distinct items that all have data with 16-bit indices,
-- whose signed indices ascend strictly and whose data have two equal bytes, with results that are
-- ready for the other benchmarks and with more fuel than items: whatever the index to find and the
-- number of searches, it returns, and the list is back to its original state. It leads from the
-- head that it was called with through the same items in the same order, with the data items, the
-- indices and the data that they had, and the results are ready again.
pub core_bench_list_restores :
    (fuel list finder_idx : ℕ) (res : Results) (h : Heap) (xs : List ℕ)
    → Chain h.next list xs
    → ((a : ℕ) → 0 < count a xs → h.info a ≢ 0)
    → ((d : ℕ) → h.idx d < 2 ^ 16)
    → InOrder (λ u v. idx_of h u < idx_of h v) xs
    → ((a : ℕ) → 0 < count a xs → IsRegen (h.data16 (h.info a)))
    → IsReady res
    → 3 ≤ length xs
    → length xs < 2 ^ 31
    → length xs < fuel
    → (out : ListBenched) × (results : Results) × (core_bench_list fuel list res finder_idx h
        ≡ ok out)
      × (out.res ≡ some results)
      × IsReady results
      × Chain out.heap.next list xs
      × (out.heap.info ≡ h.info)
      × (out.heap.idx ≡ h.idx)
      × ((a : ℕ) → 0 < count a xs → out.heap.data16 (h.info a) ≡ h.data16 (h.info a))
core_bench_list_restores fuel list finder_idx res h xs chain full words ascends regen ready three
      small enough =
    let once = Chain-count h.next list xs chain in
    let t =
      core_bench_list-Benched h xs once full words three small fuel enough list finder_idx res h
        ready (Chain-Holds h list xs chain) in
    let s = t.restored in
    let g = t.out.heap in
    let same = ascending_unique (idx_of h) xs s.holds.xs ascends s.sorted s.holds.items in
    let walk = rw same at s.holds.walk in
    let at : t.last ≡ list =
      same_head g.next h.next t.last list xs walk (Chain-Walk h.next list xs chain) (omega arith) in
    (
      t.out,
      t.results,
      t.returns,
      t.is,
      t.ready,
      Walk-Chain g.next list xs (rw at at walk) once,
      s.holds.info,
      s.holds.idx,
      λ a there. Restored-data16 h xs t.last g s a there (regen a there),
    )

-- The same for a list in any order whose head alone has the least signed index: it returns, and
-- from the head that it was called with the list leads through the same items in the order of
-- their signed indices, with two equal bytes in the data of every item.
pub core_bench_list-Restored :
    (fuel list finder_idx : ℕ) (res : Results) (old h : Heap) (all : List ℕ)
    → ((a : ℕ) → count a all ≤ 1)
    → ((a : ℕ) → 0 < count a all → old.info a ≢ 0)
    → ((d : ℕ) → old.idx d < 2 ^ 16)
    → 0 < count list all
    → ((a : ℕ) → 0 < count a all → a ≢ list → idx_of old list < idx_of old a)
    → IsReady res
    → 3 ≤ length all
    → length all < 2 ^ 31
    → length all < fuel
    → Holds old all list h
    → (out : ListBenched) × (results : Results) × (core_bench_list fuel list res finder_idx h
        ≡ ok out)
      × (out.res ≡ some results)
      × IsReady results
      × Restored old all list out.heap
core_bench_list-Restored fuel list finder_idx res old h all once full words there least ready three
      small enough inv =
    let t =
      core_bench_list-Benched old all once full words three small fuel enough list finder_idx res h
        ready inv in
    let s = t.restored in
    let at : t.last ≡ list =
      least_first (idx_of old) list t.out.heap.next t.last s.holds.xs s.holds.walk s.sorted
        (omega (arith, s.holds.items list)) (λ a i. least a (omega (arith, s.holds.items a))) in
    (t.out, t.results, t.returns, t.is, t.ready, rw at at s)
