-- ===== src/Tests/List.antt =====
-- The operations of the list on a heap of three items, at 8, 16 and 24.
use mathlib.Core.List
use gandiva.Base.{◌⊎◌}
use gandiva.Base.{ℕ, ◌+◌, ◌≡◌, ◌≢◌, refl, arith, true, ◌==◌, if◌then◌else◌, [], ◌∷◌, ok, ◌>>=◌}
use gandiva.Coremark.List.Insert.{HasRoom, IsInserted, IsRefused, core_list_insert_new_lem}
use gandiva.Coremark.List.{Blocks, Inserted, core_list_insert_new}
use gandiva.Coremark.List.{
  Heap, Linked, linked, ListData, core_list_remove, core_list_undo_remove, core_list_find,
  core_list_reverse,
}
use gandiva.Coremark.List.Chain.{has, Chain, nil, cons}
use gandiva.Coremark.List.Relink.{
  OnlyLinks, core_list_reverse_lem, core_list_undo_remove-core_list_remove,
}
use gandiva.Coremark.List.Find.{IsFirstFound, core_list_find_lem}

abbrev next_of : ℕ → ℕ
next_of p = if p == 8 then 16 else (if p == 16 then 24 else 0)

abbrev heap : Heap
heap = record { next = next_of; info = λ p. p + 100; data16 = λ d. d + 1; idx = λ d. d }

heap-Chain : Chain next_of 8 (8 ∷ 16 ∷ 24 ∷ [])
heap-Chain =
    cons (λ e. omega arith) refl refl
      (cons (λ e. omega arith) refl refl (cons (λ e. omega arith) refl refl nil))

core_list_reverse_lem_example :
    (out : Linked) × (core_list_reverse 4 8 heap ≡ ok out)
    × Chain out.heap.next out.item (List.reverse (8 ∷ 16 ∷ 24 ∷ []))
    × OnlyLinks (8 ∷ 16 ∷ 24 ∷ []) heap out.heap
core_list_reverse_lem_example =
    core_list_reverse_lem 4 heap 8 (8 ∷ 16 ∷ 24 ∷ []) heap-Chain (omega arith)

core_list_undo_remove-core_list_remove_example :
    (core_list_remove 8 heap >>= λ r. core_list_undo_remove r.item 8 r.heap) ≡ ok (linked 16 heap)
core_list_undo_remove-core_list_remove_example =
    core_list_undo_remove-core_list_remove heap 8 (λ e. omega arith) (λ e. omega arith)
      (λ e. omega arith)

abbrev sought : ListData
sought = record { data16 = 0; idx = 124 }

data_there : (a : ℕ) → has a (8 ∷ 16 ∷ 24 ∷ []) ≡ true → a + 100 ≢ 0
data_there a i e = omega arith

core_list_find_lem_example :
    (r : ℕ) × (core_list_find 4 8 sought heap ≡ ok r)
    × IsFirstFound sought heap (8 ∷ 16 ∷ 24 ∷ []) r
core_list_find_lem_example =
    core_list_find_lem 4 heap 8 sought (8 ∷ 16 ∷ 24 ∷ []) heap-Chain data_there (omega arith)

abbrev free : Blocks
free = record { memblock = 32; datablock = 200; memblock_end = 64; datablock_end = 300 }

core_list_insert_new_lem_example :
    (out : Inserted) × (core_list_insert_new 8 sought free heap ≡ ok out)
    × ((HasRoom free × IsInserted heap 8 (16 ∷ 24 ∷ []) sought free out)
        ⊎ ((¬ HasRoom free) × IsRefused heap free out))
core_list_insert_new_lem_example =
    core_list_insert_new_lem heap 8 (16 ∷ 24 ∷ []) sought free heap-Chain refl (λ e. omega arith)
      (λ e. omega arith)
