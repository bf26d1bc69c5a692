-- ===== src/Coremark/List/Sort/Rounds.antt =====
-- A pass of core_list_mergesort and what follows it: the end of the list, and the next pass.
use gandiva.Base.{
  ℕ, suc, ◌*◌, ◌≤◌, ◌<◌, ◌≡◌, refl, ap, arith, inl, inr, leb, ne→==, true, false, u32, Option, List,
  [], ◌∷◌, ◌++◌, length, length-append, append-nil, Run, ok,
}
use gandiva.Coremark.Calc.{Results}
use gandiva.Coremark.List.{Heap, set_next, write}
use gandiva.Coremark.List.Runs.{
  count, count-append, count_self, concat, InOrder, AllInOrder, Sized, number_of,
}
use gandiva.Coremark.List.Walk.{Walk, Walk-end}
use gandiva.Coremark.List.Sort.{ListCmp, Merging, pass_loop, sort_loop}
use gandiva.Coremark.List.Sort.Output.{Output}

pub Sized-length :
    (k : ℕ) (bs : List (List ℕ)) → 0 < k → Sized k bs → 0 < number_of bs → 0 < length (concat bs)
Sized-length k [] pos s some = absurd (omega arith)
Sized-length k (b ∷ []) pos (fits, small) some = omega (arith, length-append {0} b [])
Sized-length k (b ∷ c ∷ bs) pos (full, s) some = omega (arith, length-append {0} b (c ++ concat bs))

pub one_run :
    (S : ℕ → ℕ → Type 0) (bs : List (List ℕ))
    → AllInOrder S bs
    → number_of bs ≤ 1
    → InOrder S (concat bs)
one_run S [] s few = tt
one_run S (b ∷ []) s few = rw (append-nil b) s.0
one_run S (b ∷ c ∷ bs) s few = absurd (omega arith)

-- The end of a pass: the last item's link is made NULL.
pub end_pass :
    (m : Merging) (out : List ℕ)
    → Output m.heap.next m.list m.tail out
    → 0 < length out
    → ((a : ℕ) → count a out ≤ 1)
    → (set_next m.tail 0 m.heap ≡ ok (record m.heap { next = write m.heap.next m.tail 0 }))
      × Walk (write m.heap.next m.tail 0) m.list out 0
end_pass m out (inl (none, at, no_tail)) some once = absurd (omega (arith, ap length none))
end_pass m out (inr (init, end, is, tail, walk)) some once =
    let fresh : count m.tail init ≡ 0 = omega (
      arith,
      count-append m.tail init (m.tail ∷ []),
      once m.tail,
      ap (count m.tail) is,
      count_self m.tail [],
    ) in
    (
      rw (ne→== m.tail 0 tail) refl,
      rw is (Walk-end m.heap.next m.list m.tail 0 init end (rw is at walk) fresh),
    )

abbrev pub start : ℕ → Heap → Option Results → Merging
start list h res = record {
  p = list;
  q = 0;
  psize = 0;
  qsize = 0;
  list = 0;
  tail = 0;
  heap = h;
  res = res;
}

-- A pass, and what follows it.
module _ (fuel merges k list n : ℕ) (cmp : ListCmp) (h h' : Heap) (res : Option Results)
    (m : Merging) (pass : pass_loop merges cmp k 0 (start list h res) ≡ ok (n, m))
    (ended : set_next m.tail 0 m.heap ≡ ok h') where
  pub last_pass :
      leb n 1 ≡ true → sort_loop (suc fuel) merges cmp k list h res ≡ ok (record m { heap = h' })
  unfolding sort_loop
  last_pass few = rw (pass, ended, few) refl

  pub next_pass :
      (k' : ℕ) (r : Run Merging)
      → u32 (k * 2) ≡ k'
      → leb n 1 ≡ false
      → sort_loop fuel merges cmp k' m.list h' m.res ≡ r
      → sort_loop (suc fuel) merges cmp k list h res ≡ r
  unfolding sort_loop
  next_pass k' r double several run = rw (pass, ended, several, double) run
