-- ===== src/Coremark/List/Sort/Output.antt =====
-- The interface to the comparison, and the list that a merge of core_list_mergesort appends to.
use gandiva.Base.{
  ℕ, suc, ◌≤◌, ◌≡◌, ◌≢◌, refl, sym, ap, arith, ◌⊎◌, inl, inr, ◌==◌, ltb, leb, ne→==, false, not,
  ◌&&◌, ◌||◌, neg32, Bool, true, Option, List, [], ◌∷◌, ◌++◌, ok,
}
use gandiva.Coremark.Calc.{Results}
use gandiva.Coremark.List.{Heap, write}
use gandiva.Coremark.List.Chain.{write-ne}
use gandiva.Coremark.List.Runs.{count, count-append, count_self}
use gandiva.Coremark.List.Walk.{Walk, Walk-extend}
use gandiva.Coremark.List.Sort.{Compared, ListCmp, Merging, add_element, merge_loop}

pub loop_ends :
    (cmp : ListCmp) (fuel : ℕ) (m : Merging)
    → (ltb 0 m.psize || (ltb 0 m.qsize && not (m.q == 0))) ≡ false
    → merge_loop (suc fuel) cmp m ≡ ok m
unfolding merge_loop
loop_ends cmp fuel m stop = rw stop refl

-- What the sort needs of a comparison: on items that are `Good`, in heaps that are `Inv`, it returns,
-- leaves the links alone, and orders by `key`. `Inv` says nothing of the links.
pub record IsComparison (cmp : ListCmp) (key : ℕ → ℕ) (Good : ℕ → Type 0)
    (Inv : Heap → Option Results → Type 0) : Type 0 where
  pub compares :
      (x y : ℕ) (h : Heap) (res : Option Results)
      → Inv h res
      → Good x
      → Good y
      → (r : Compared) × (cmp (h.info x) (h.info y) h res ≡ ok r)
        × (r.heap.next ≡ h.next)
        × Inv r.heap r.res
        × (((r.value == 0) || neg32 r.value) ≡ leb (key x) (key y))
  pub relinks :
      (h : Heap) (res : Option Results) (next : ℕ → ℕ)
      → Inv h res
      → Inv (record h { next = next }) res

abbrev pub prefers : Compared → Bool
prefers r = (r.value == 0) || neg32 r.value

-- The same of a comparison that changes the heap, where the order is a relation `R` on the items that
-- depends on the heap: a comparison relates its items, and takes no relation back.
pub record IsOrdering (cmp : ListCmp) (R : Heap → Option Results → ℕ → ℕ → Type 0)
    (Good : ℕ → Type 0) (Inv : Heap → Option Results → Type 0) : Type 0 where
  pub compares :
      (x y : ℕ) (h : Heap) (res : Option Results)
      → Inv h res
      → Good x
      → Good y
      → (r : Compared) × (cmp (h.info x) (h.info y) h res ≡ ok r)
        × (r.heap.next ≡ h.next)
        × Inv r.heap r.res
        × ((u v : ℕ) → R h res u v → R r.heap r.res u v)
        × (prefers r ≡ true → R r.heap r.res x y)
        × (prefers r ≡ false → R r.heap r.res y x)
  pub relinks :
      (h : Heap) (res : Option Results) (next : ℕ → ℕ)
      → Inv h res
      → Inv (record h { next = next }) res
  pub stays :
      (h : Heap) (res : Option Results) (next : ℕ → ℕ) (u v : ℕ)
      → R h res u v
      → R (record h { next = next }) res u v

pub IsComparison-IsOrdering :
    (cmp : ListCmp) (key : ℕ → ℕ) (Good : ℕ → Type 0) (Inv : Heap → Option Results → Type 0)
    → IsComparison cmp key Good Inv
    → IsOrdering cmp (λ h res u v. key u ≤ key v) Good Inv
IsComparison-IsOrdering cmp key Good Inv law = record {
  compares = λ x y h res inv gx gy.
      let (r, e, links, inv', order) = law.compares x y h res inv gx gy in
      (
        r,
        e,
        links,
        inv',
        λ u v le. le,
        λ first. ground (arith, order),
        λ second. ground (arith, order),
      );
  relinks = law.relinks;
  stays = λ h res next u v le. le;
}

-- The merged list: empty, or a walk from its head to its last item.
abbrev pub Output : (ℕ → ℕ) → ℕ → ℕ → List ℕ → Type 0
Output next list tail out =
    ((out ≡ []) × (list ≡ 0) × (tail ≡ 0))
    ⊎ ((init : List ℕ) × (end : ℕ) × (out ≡ init ++ tail ∷ [])
        × (tail ≢ 0)
        × Walk next list out end)

-- Adding an element to the output changes no link but that of the last item.
pub append-Output :
    (m : Merging) (e : ℕ) (out : List ℕ)
    → e ≢ 0
    → count e out ≡ 0
    → ((a : ℕ) → count a out ≤ 1)
    → Output m.heap.next m.list m.tail out
    → (list : ℕ) × (next : ℕ → ℕ) × (add_element e m
        ≡ ok (record m { list = list; tail = e; heap = record m.heap { next = next } }))
      × Output next list e (out ++ e ∷ [])
      × ((a : ℕ) → count a out ≡ 0 → next a ≡ m.heap.next a)
unfolding add_element
append-Output m e out ne new once (inl (none, at, no_tail)) = (
  e,
  m.heap.next,
  rw no_tail refl,
  inr ([], m.heap.next e, ap (λ l. l ++ e ∷ []) none, ne, rw none (refl, ne, refl)),
  λ a h. refl,
)
append-Output m e out ne new once (inr (init, end, is, some_tail, walk)) =
    let next = write m.heap.next m.tail e in
    let fresh : count m.tail init ≡ 0 = omega (
      arith,
      count-append m.tail init (m.tail ∷ []),
      once m.tail,
      ap (count m.tail) is,
      count_self m.tail [],
    ) in
    (
      m.list,
      next,
      rw (ne→== m.tail 0 some_tail) refl,
      inr (
        out,
        next e,
        refl,
        ne,
        rw is (Walk-extend m.heap.next m.list m.tail e init end (rw is at walk) fresh ne),
      ),
      λ a h. write-ne m.heap.next m.tail e a (λ s. omega (
        arith,
        ap (count a) is,
        count-append a init (m.tail ∷ []),
        s,
        ap (λ t. count a (t ∷ [])) (sym s),
        count_self a [],
      )),
    )
