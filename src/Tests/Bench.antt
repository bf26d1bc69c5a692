-- ===== src/Tests/Bench.antt =====
-- The list benchmark on a list of three items, at 8, 16 and 24, with the indices 0, 1 and 2, and on
-- one that core_list_init makes.
use gandiva.Base.{
  ℕ, zero, suc, ◌+◌, ◌-◌, ◌^◌, ◌≤◌, ◌<◌, ◌≡◌, ◌≢◌, refl, arith, ◌==◌, if◌then◌else◌, some, List, [],
  ◌∷◌, length, ok, ◌>>=◌,
}
use gandiva.Coremark.Calc.{Results}
use gandiva.Coremark.Calc.Caches.{IsReady}
use gandiva.Coremark.List.{Heap}
use gandiva.Coremark.List.Chain.{Chain, nil, cons}
use gandiva.Coremark.List.Runs.{count, InOrder}
use gandiva.Coremark.List.Sort.{Sorted, core_list_mergesort}
use gandiva.Coremark.List.Compare.{cmp_complex}
use gandiva.Coremark.List.Compare.Idx.{idx_of}
use gandiva.Coremark.List.Compare.Complex.{
  InValueOrder, KeepsItems, core_list_mergesort-cmp_complex,
}
use gandiva.Coremark.List.Bench.{ListBenched, core_bench_list}
use gandiva.Coremark.List.Bench.Original.{core_bench_list_restores}
use gandiva.Coremark.List.Init.{list_size, fresh_idx, core_list_init}
use gandiva.Coremark.List.Init.Ready.{IsList, core_list_init_lem}
use gandiva.Coremark.Main.{Iterating, iterate}
use gandiva.Coremark.Main.Iterations.{core_list_init-iterate}
use gandiva.Tests.Calc.{results, results-IsReady}

abbrev next_of : ℕ → ℕ
next_of p = if p == 8 then 16 else (if p == 16 then 24 else 0)

abbrev index_of : ℕ → ℕ
index_of d = if d == 108 then 0 else (if d == 116 then 1 else 2)

abbrev heap : Heap
heap = record { next = next_of; info = λ p. p + 100; data16 = λ d. 0x1818; idx = index_of }

abbrev items : List ℕ
items = 8 ∷ 16 ∷ 24 ∷ []

heap-Chain : Chain next_of 8 items
heap-Chain =
    cons (λ e. omega arith) refl refl
      (cons (λ e. omega arith) refl refl (cons (λ e. omega arith) refl refl nil))

has_data : (a : ℕ) → 0 < count a items → heap.info a ≢ 0
has_data a there e = omega arith

small_index : (d : ℕ) → heap.idx d < 2 ^ 16
small_index d = ground arith

ascends : InOrder (λ u v. idx_of heap u < idx_of heap v) items
ascends = (omega arith, (omega arith, tt))

core_bench_list_restores_example :
    (out : ListBenched) × (res : Results) × (core_bench_list 4 8 results 1 heap ≡ ok out)
    × (out.res ≡ some res)
    × IsReady res
    × Chain out.heap.next 8 items
    × (out.heap.info ≡ heap.info)
    × (out.heap.idx ≡ heap.idx)
    × ((a : ℕ) → 0 < count a items → out.heap.data16 (heap.info a) ≡ heap.data16 (heap.info a))
core_bench_list_restores_example =
    core_bench_list_restores 4 8 1 results heap items heap-Chain has_data small_index ascends
      (λ a there. refl) results-IsReady (omega arith) (omega arith) (omega arith)

core_list_mergesort-cmp_complex_example :
    (out : Sorted) × (ys : List ℕ) × (core_list_mergesort 3 8 cmp_complex heap (some results)
      ≡ ok out)
    × Chain out.heap.next out.list ys
    × InOrder (InValueOrder out.heap out.res) ys
    × ((a : ℕ) → count a ys ≡ count a items)
    × (length ys ≡ length items)
    × KeepsItems heap out.heap out.res
core_list_mergesort-cmp_complex_example =
    core_list_mergesort-cmp_complex 3 8 heap results items heap-Chain has_data results-IsReady
      (omega arith) (omega arith) (omega arith)

abbrev blank : Heap
blank = record { next = λ p. 0; info = λ p. 0; data16 = λ d. 0; idx = λ d. 0 }

blank_index : (d : ℕ) → blank.idx d < 2 ^ 16
blank_index d = omega arith

index_given : (i : ℕ) → 1 ≤ i → i < list_size 120 → 0 < fresh_idx (list_size 120) 0 i
unfolding fresh_idx
index_given zero lo hi = absurd (omega arith)
index_given (suc zero) lo hi = omega arith
index_given (suc (suc zero)) lo hi = omega arith
index_given (suc (suc (suc zero))) lo hi = omega arith
index_given (suc (suc (suc (suc i)))) lo hi = absurd (omega arith)

core_list_init_lem_example :
    (out : Sorted) × (core_list_init 4 120 8 0 blank ≡ ok out)
    × (out.list ≡ 8)
    × IsList 8 (list_size 120 - 1) out.heap
core_list_init_lem_example =
    core_list_init_lem 4 120 8 0 blank (λ e. omega arith) (omega arith) (omega arith) (omega arith)
      (omega arith) blank_index index_given

core_list_init-iterate_example :
    (first : Iterating) × (last : Iterating) × ((core_list_init 4 120 8 0 blank >>= λ l.
    iterate 4 l.list 1 results l.heap)
      ≡ ok first)
    × ((core_list_init 4 120 8 0 blank >>= λ l. iterate 4 l.list (suc 2) results l.heap) ≡ ok last)
    × (last.crclist ≡ first.crclist)
    × IsList 8 (list_size 120 - 1) last.heap
    × IsReady last.res
core_list_init-iterate_example =
    core_list_init-iterate 4 120 8 0 2 results blank (λ e. omega arith) (omega arith) (omega arith)
      (omega arith) (omega arith) blank_index index_given results-IsReady
