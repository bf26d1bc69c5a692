-- ===== src/Coremark/List/Sort.antt =====
-- core_list_mergesort of coremark/src/core_list_join.c, with the comparison as a parameter.
pub mod Along
pub mod Choose
pub mod Merge
pub mod Output
pub mod Pass
pub mod Rounds
pub mod Sorts
use gandiva.Base.{
  ℕ, zero, suc, ◌+◌, ◌-◌, ◌*◌, ◌==◌, ltb, leb, if◌then◌else◌, Bool, true, false, not, ◌&&◌, ◌||◌,
  neg32, u32, Option, Run, ok, out_of_fuel, ◌>>=◌,
}
use gandiva.Coremark.Calc.{Results}
use gandiva.Coremark.List.{Heap, field, set_next}

-- What a comparison returns, and the heap and `*res` that it leaves. `none` is the pointer NULL.
pub record Compared : Type 0 where
  pub value : ℕ
  pub heap : Heap
  pub res : Option Results

-- `list_cmp`, on the addresses of two data items.
abbrev pub ListCmp : Type 0
ListCmp = ℕ → ℕ → Heap → Option Results → Run Compared

pub record Merging : Type 0 where
  pub p : ℕ
  pub q : ℕ
  pub psize : ℕ
  pub qsize : ℕ
  pub list : ℕ
  pub tail : ℕ
  pub heap : Heap
  pub res : Option Results

-- for (i = 0; i < insize; i++) { psize++; q = q->next; if (!q) break; }
unfoldable pub step_along : ℕ → Heap → ℕ → ℕ → Run (ℕ × ℕ)
step_along zero h q psize = ok (q, psize)
step_along (suc n) h q psize = field h.next q >>= λ q'.
    let rest = step_along n h q' (psize + 1) in if q' == 0 then ok (0, psize + 1) else rest

-- Whether the next element comes from p.
pub record Choice : Type 0 where
  pub from_p : Bool
  pub heap : Heap
  pub res : Option Results

unfoldable pub compare_heads : ListCmp → Merging → Run Choice
compare_heads cmp m = field m.heap.info m.p >>= λ a. field m.heap.info m.q >>= λ b.
    cmp a b m.heap m.res >>= λ r.
    ok (record { from_p = (r.value == 0) || neg32 r.value; heap = r.heap; res = r.res })

unfoldable pub choose : ListCmp → Merging → Run Choice
choose cmp m =
    if m.psize == 0
    then ok (record { from_p = false; heap = m.heap; res = m.res })
    else (if (m.qsize == 0) || (m.q == 0)
        then ok (record { from_p = true; heap = m.heap; res = m.res })
        else compare_heads cmp m)

-- e = p; p = p->next; psize--; and the same for q.
unfoldable pub take_from : Bool → Merging → Run (ℕ × Merging)
take_from true m =
    field m.heap.next m.p >>= λ p'. ok (m.p, record m { p = p'; psize = m.psize - 1 })
take_from false m =
    field m.heap.next m.q >>= λ q'. ok (m.q, record m { q = q'; qsize = m.qsize - 1 })

-- Add the next element to the merged list.
unfoldable pub add_element : ℕ → Merging → Run Merging
add_element e m =
    if m.tail == 0
    then ok (record m { list = e; tail = e })
    else set_next m.tail e m.heap >>= λ h. ok (record m { tail = e; heap = h })

unfoldable pub merge_step : ListCmp → Merging → Run Merging
merge_step cmp m = choose cmp m >>= λ c.
    take_from c.from_p (record m { heap = c.heap; res = c.res }) >>= λ taken.
    add_element taken.0 taken.1

-- while (psize > 0 || (qsize > 0 && q))
unfoldable pub merge_loop : ℕ → ListCmp → Merging → Run Merging
merge_loop zero cmp m = out_of_fuel
merge_loop (suc fuel) cmp m =
    let rest = merge_step cmp m >>= λ m'. merge_loop fuel cmp m' in
    if ltb 0 m.psize || (ltb 0 m.qsize && not (m.q == 0)) then rest else ok m

-- while (p), with the number of merges.
unfoldable pub pass_loop : ℕ → ListCmp → ℕ → ℕ → Merging → Run (ℕ × Merging)
pass_loop zero cmp insize nmerges m = out_of_fuel
pass_loop (suc fuel) cmp insize nmerges m =
    let rest = step_along insize m.heap m.p 0 >>= λ along.
    merge_loop (2 * insize + 1) cmp (record m { q = along.0; psize = along.1; qsize = insize })
    >>= λ m'. pass_loop fuel cmp insize (nmerges + 1) (record m' { p = m'.q }) in
    if m.p == 0 then ok (nmerges, m) else rest

-- while (1), with `fuel` for the passes and for the merges of each pass.
unfoldable pub sort_loop : ℕ → ℕ → ListCmp → ℕ → ℕ → Heap → Option Results → Run Merging
sort_loop zero merges cmp insize list h res = out_of_fuel
sort_loop (suc fuel) merges cmp insize list h res =
    pass_loop merges cmp insize 0
      (record { p = list; q = 0; psize = 0; qsize = 0; list = 0; tail = 0; heap = h; res = res })
    >>= λ pass. set_next pass.1.tail 0 pass.1.heap >>= λ h'.
        let rest = sort_loop fuel merges cmp (u32 (insize * 2)) pass.1.list h' pass.1.res in
        if leb pass.0 1 then ok (record pass.1 { heap = h' }) else rest

pub record Sorted : Type 0 where
  pub list : ℕ
  pub heap : Heap
  pub res : Option Results

unfoldable pub core_list_mergesort : ℕ → ℕ → ListCmp → Heap → Option Results → Run Sorted
core_list_mergesort fuel list cmp h res = sort_loop fuel (fuel + 1) cmp 1 list h res >>= λ m.
    ok (record { list = m.list; heap = m.heap; res = m.res })
