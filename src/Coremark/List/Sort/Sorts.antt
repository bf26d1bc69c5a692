-- ===== src/Coremark/List/Sort/Sorts.antt =====
-- core_list_mergesort as a whole: what it makes of a chain of items.
use gandiva.Base.{
  ℕ, zero, suc, ◌+◌, ◌*◌, ◌^◌, ◌≤◌, ◌<◌, ◌≡◌, refl, arith, inl, inr, Bool-cases, leb, ◌∙◌, u32,
  Option, List, [], length, Run, ok,
}
use gandiva.Coremark.Calc.{Results}
use gandiva.Coremark.List.{Heap, write}
use gandiva.Coremark.List.Chain.{Chain}
use gandiva.Coremark.List.Runs.{
  count, concat, IsSorted, InOrder, AllInOrder, AllInOrder-mono, InOrder-IsSorted, Sized, number_of,
  singletons, number_of-singletons, concat-singletons, singletons-Sized, singletons-AllInOrder,
  Sized-lt,
}
use gandiva.Coremark.List.Walk.{Walk, Chain-Walk, Walk-Chain}
use gandiva.Coremark.List.Sort.{ListCmp, Merging, sort_loop, Sorted, core_list_mergesort}
use gandiva.Coremark.List.Sort.Output.{IsComparison, IsOrdering, IsComparison-IsOrdering}
use gandiva.Coremark.List.Sort.Rounds.{Sized-length, one_run, end_pass, start, last_pass, next_pass}
use gandiva.Coremark.List.Sort.Pass.{pass_loop-Passed}

module _ (cmp : ListCmp) (R : Heap → Option Results → ℕ → ℕ → Type 0) (Good : ℕ → Type 0)
    (Inv : Heap → Option Results → Type 0) (law : IsOrdering cmp R Good Inv) (all : List ℕ)
    (once : (a : ℕ) → count a all ≤ 1) (good : (a : ℕ) → 0 < count a all → Good a) where
  -- The items of `all`, from `m.list` on, in the order that the heap has at the end.
  record Ends (m : Merging) (xs : List ℕ) : Type 0 where
    walk : Walk m.heap.next m.list xs 0
    order : InOrder (R m.heap m.res) xs
    items : (a : ℕ) → count a xs ≡ count a all
    inv : Inv m.heap m.res
    whole : length xs ≡ length all

  sort_loop-Ends :
      (fuel merges k list : ℕ) (bs : List (List ℕ)) (h : Heap) (res : Option Results)
      → Walk h.next list (concat bs) 0
      → ((a : ℕ) → count a (concat bs) ≡ count a all)
      → Inv h res
      → 0 < k
      → length (concat bs) ≡ length all
      → length all < 2 ^ 31
      → Sized k bs
      → AllInOrder (R h res) bs
      → 0 < number_of bs
      → number_of bs ≤ fuel
      → number_of bs < merges
      → (m : Merging) × (xs : List ℕ) × (sort_loop fuel merges cmp k list h res ≡ ok m) × Ends m xs
  sort_loop-Ends zero merges k list bs h res walk items inv pos size small sized os some fuel more =
      absurd (omega arith)
  sort_loop-Ends (suc fuel) merges k list bs h res walk items inv pos size small sized os some
        enough more =
      let t =
        pass_loop-Passed cmp R Good Inv law all once good merges k 0 [] bs (start list h res)
          (record {
            walk = walk;
            output = inl (refl, refl, refl);
            items = λ a. omega (arith, items a);
            inv = inv;
          })
          os pos sized more in
      let m = t.result in
      let ds = t.ds in
      let few = t.fewer in
      let left = t.some in
      let items' : (a : ℕ) → count a (concat ds) ≡ count a all =
        λ a. omega (arith, t.state.items a) in
      let (f, walk') =
        end_pass m (concat ds) t.state.output
          (Sized-length (2 * k) ds (omega arith) t.sized (omega arith))
          (λ a. omega (arith, items' a, once a)) in
      let next = write m.heap.next m.tail 0 in
      let inv' = law.relinks m.heap m.res next t.state.inv in
      let h' : Heap = record m.heap { next = next } in
      let os' = AllInOrder-mono (law.stays m.heap m.res next) ds t.order in
      let total : 0 + number_of ds ≡ number_of ds = omega arith in
      let e = rw total at t.returns in
      let size' : length (concat ds) ≡ length all = t.whole ∙ size in
      elim (Bool-cases (leb (number_of ds) 1)) [
        | inl last ↦ (
          record m { heap = h' },
          concat ds,
          last_pass fuel merges k list (number_of ds) cmp h h' res m e f last,
          record {
            walk = walk';
            order = one_run (R h' m.res) ds os' (ground arith);
            items = items';
            inv = inv';
            whole = size';
          },
        )
        | inr again ↦
            let several : 2 ≤ number_of ds = ground arith in
            let shorter = Sized-lt (2 * k) ds t.sized several in
            let double : u32 (k * 2) ≡ 2 * k = omega arith in
            let (m', xs, run, ends) =
              sort_loop-Ends fuel merges (2 * k) m.list ds h' m.res walk' items' inv' (omega arith)
                size' small t.sized os' (omega arith) (omega arith) (omega arith) in
            (
              m',
              xs,
              next_pass fuel merges k list (number_of ds) cmp h h' res m e f (2 * k) (ok m') double
                  again run,
              ends,
            )
      ]

  -- What core_list_mergesort returns: a chain of the same items, in the order of the heap it leaves.
  pub record SortedBy (r : Run Sorted) : Type 0 where
    pub out : Sorted
    pub xs : List ℕ
    pub returns : r ≡ ok out
    pub chain : Chain out.heap.next out.list xs
    pub order : InOrder (R out.heap out.res) xs
    pub items : (a : ℕ) → count a xs ≡ count a all
    pub whole : length xs ≡ length all
    pub inv : Inv out.heap out.res

  pub core_list_mergesort-SortedBy :
      (fuel list : ℕ) (h : Heap) (res : Option Results)
      → Chain h.next list all
      → Inv h res
      → 0 < length all
      → length all < 2 ^ 31
      → length all ≤ fuel
      → SortedBy (core_list_mergesort fuel list cmp h res)
  unfolding core_list_mergesort
  core_list_mergesort-SortedBy fuel list h res chain inv some small enough =
      let same = concat-singletons all in
      let number = number_of-singletons all in
      let (m, xs, run, t) =
        sort_loop-Ends fuel (fuel + 1) 1 list (singletons all) h res
          (rw same (Chain-Walk h.next list all chain)) (λ a. rw same refl) inv (omega arith)
          (rw same refl) small (singletons-Sized all) (singletons-AllInOrder (R h res) all)
          (omega (arith, number)) (omega (arith, number)) (omega (arith, number)) in
      record {
        out = record { list = m.list; heap = m.heap; res = m.res };
        xs = xs;
        returns = rw run refl;
        chain = Walk-Chain m.heap.next m.list xs t.walk (λ a. omega (arith, t.items a, once a));
        order = t.order;
        items = t.items;
        whole = t.whole;
        inv = t.inv;
      }

-- For a comparison that orders by a key: core_list_mergesort on a chain of 1 to 2^31 - 1 distinct
-- items on which the comparison is defined, with as much fuel as items at least, returns a chain
-- of the same items in the order of their keys, in a heap that the comparison's invariant holds of.
pub core_list_mergesort_lem :
    (cmp : ListCmp) (key : ℕ → ℕ) (Good : ℕ → Type 0) (Inv : Heap → Option Results → Type 0)
    → IsComparison cmp key Good Inv
    → (all : List ℕ) → ((a : ℕ) → count a all ≤ 1)
    → ((a : ℕ) → 0 < count a all → Good a)
    → (fuel list : ℕ) (h : Heap) (res : Option Results) → Chain h.next list all
    → Inv h res
    → 0 < length all
    → length all < 2 ^ 31
    → length all ≤ fuel
    → (out : Sorted) × (xs : List ℕ) × (core_list_mergesort fuel list cmp h res ≡ ok out)
      × Chain out.heap.next out.list xs
      × IsSorted key xs
      × ((a : ℕ) → count a xs ≡ count a all)
      × Inv out.heap out.res
core_list_mergesort_lem cmp key Good Inv law all once good fuel list h res chain inv some small
      enough =
    let t =
      core_list_mergesort-SortedBy cmp (λ h' res' u v. key u ≤ key v) Good Inv
        (IsComparison-IsOrdering cmp key Good Inv law) all once good fuel list h res chain inv some
        small enough in
    (t.out, t.xs, t.returns, t.chain, InOrder-IsSorted key t.xs t.order, t.items, t.inv)
