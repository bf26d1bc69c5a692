-- ===== src/Tests/Sort.antt =====
-- core_list_mergesort on a heap of three items, at 8, 16 and 24, with the indices 2, 1 and 0.
use gandiva.Base.{
  ℕ, ◌+◌, ◌^◌, ◌<◌, ◌≡◌, ◌≢◌, refl, arith, ◌==◌, if◌then◌else◌, none, List, [], ◌∷◌, ok,
}
use gandiva.Coremark.List.{Heap}
use gandiva.Coremark.List.Chain.{Chain, nil, cons}
use gandiva.Coremark.List.Runs.{count, IsSorted}
use gandiva.Coremark.List.Walk.{Chain-count}
use gandiva.Coremark.List.Sort.{Sorted, core_list_mergesort}
use gandiva.Coremark.List.Sort.Sorts.{core_list_mergesort_lem}
use gandiva.Coremark.List.Compare.{cmp_idx}
use gandiva.Coremark.List.Compare.Idx.{
  idx_of, KeepsIdx, cmp_idx-IsComparison, core_list_mergesort-cmp_idx,
}

abbrev next_of : ℕ → ℕ
next_of p = if p == 8 then 16 else (if p == 16 then 24 else 0)

abbrev index_of : ℕ → ℕ
index_of d = if d == 108 then 2 else (if d == 116 then 1 else 0)

abbrev heap : Heap
heap = record { next = next_of; info = λ p. p + 100; data16 = λ d. 0x1234; idx = index_of }

abbrev items : List ℕ
items = 8 ∷ 16 ∷ 24 ∷ []

heap-Chain : Chain next_of 8 items
heap-Chain =
    cons (λ e. omega arith) refl refl
      (cons (λ e. omega arith) refl refl (cons (λ e. omega arith) refl refl nil))

has_data : (a : ℕ) → 0 < count a items → heap.info a ≢ 0
has_data a some e = omega arith

small_index : (d : ℕ) → heap.idx d < 2 ^ 16
small_index d = ground arith

core_list_mergesort-cmp_idx_example :
    (out : Sorted) × (ys : List ℕ) × (core_list_mergesort 3 8 cmp_idx heap none ≡ ok out)
    × Chain out.heap.next out.list ys
    × IsSorted (idx_of heap) ys
    × ((a : ℕ) → count a ys ≡ count a items)
    × KeepsIdx heap out.heap out.res
core_list_mergesort-cmp_idx_example =
    core_list_mergesort-cmp_idx 3 8 heap items heap-Chain has_data small_index (omega arith)
      (omega arith) (omega arith)

core_list_mergesort_lem_example :
    (out : Sorted) × (ys : List ℕ) × (core_list_mergesort 3 8 cmp_idx heap none ≡ ok out)
    × Chain out.heap.next out.list ys
    × IsSorted (idx_of heap) ys
    × ((a : ℕ) → count a ys ≡ count a items)
    × KeepsIdx heap out.heap out.res
core_list_mergesort_lem_example =
    core_list_mergesort_lem cmp_idx (idx_of heap) (λ x. heap.info x ≢ 0) (KeepsIdx heap)
      (cmp_idx-IsComparison heap small_index) items (Chain-count next_of 8 items heap-Chain)
      has_data 3 8 heap none heap-Chain (record { null = refl; info = refl; idx = refl })
      (omega arith) (omega arith) (omega arith)
