-- ===== src/Coremark/List/Bench.antt =====
-- core_bench_list of coremark/src/core_list_join.c.
pub mod Cache
pub mod Round
pub mod Removal
pub mod Restores
pub mod Original
use gandiva.Base.{
  ℕ, zero, suc, ◌+◌, ◌-◌, ◌*◌, ◌%◌, ◌^◌, ◌==◌, if◌then◌else◌, ◌||◌, neg16, shr, u16, Option, none,
  some, Run, ok, out_of_fuel, ◌>>=◌,
}
use gandiva.Base.Loop.{for_loop}
use gandiva.Coremark.Crc.{crc16}
use gandiva.Coremark.Calc.{Results}
use gandiva.Coremark.List.{
  Heap, field, set_next, ListData, core_list_remove, core_list_undo_remove, core_list_find,
  core_list_reverse,
}
use gandiva.Coremark.List.Sort.{Sorted, core_list_mergesort}
use gandiva.Coremark.List.Compare.{cmp_complex, cmp_idx}

pub record Finding : Type 0 where
  pub retval : ℕ
  pub found : ℕ
  pub missed : ℕ
  pub list : ℕ
  pub info : ListData
  pub heap : Heap

-- `p->info->data16`
unfoldable pub data_at : Heap → ℕ → Run ℕ
data_at h p = field h.info p >>= λ d. field h.data16 d

unfoldable pub when_missed : Finding → Run Finding
when_missed s = field s.heap.next s.list >>= λ first. data_at s.heap first >>= λ x.
    ok (record s { missed = u16 (s.missed + 1); retval = u16 (s.retval + shr x 8 % 2) })

-- Cache the item next to the one found at the head of the list, if there is one.
unfoldable pub cache_next : ℕ → ℕ → Heap → Run Heap
cache_next this_find list h = field h.next this_find >>= λ finder.
    let moved = field h.next finder >>= λ after. set_next this_find after h >>= λ h₁.
    field h₁.next list >>= λ first. set_next finder first h₁ >>= λ h₂. set_next list finder h₂ in
    if finder == 0 then ok h else moved

unfoldable pub when_found : ℕ → Finding → Run Finding
when_found this_find s = data_at s.heap this_find >>= λ x.
    cache_next this_find s.list s.heap >>= λ h. ok (record s {
      found = u16 (s.found + 1);
      retval = if x % 2 == 1 then u16 (s.retval + shr x 9 % 2) else s.retval;
      heap = h;
    })

-- A round of the loop over the values to find.
unfoldable pub find_round : ℕ → ℕ → Finding → Run Finding
find_round fuel i s =
    let info : ListData = record { data16 = i % 2 ^ 8; idx = s.info.idx } in
    core_list_find fuel s.list info s.heap >>= λ this_find.
    core_list_reverse fuel s.list s.heap >>= λ reversed.
    let s' : Finding = record s { list = reversed.item; info = info; heap = reversed.heap } in
    (if this_find == 0 then when_missed s' else when_found this_find s') >>= λ t. ok (record t {
      info = record {
        data16 = info.data16;
        idx = if neg16 info.idx then info.idx else u16 (info.idx + 1);
      };
    })

-- while (finder) { retval = crc16(list->info->data16, retval); finder = finder->next; }
unfoldable pub crc_loop : ℕ → ℕ → ℕ → ℕ → Heap → Run ℕ
crc_loop zero list finder retval h = out_of_fuel
crc_loop (suc fuel) list finder retval h =
    let rest = data_at h list >>= λ x.
    field h.next finder >>= λ q. crc_loop fuel list q (crc16 x retval) h in
    if finder == 0 then ok retval else rest

unfoldable pub sort_by_data : ℕ → ℕ → Finding → Results → Run Sorted
sort_by_data fuel finder_idx s res =
    if neg16 finder_idx || (finder_idx == 0)
    then ok (record { list = s.list; heap = s.heap; res = some res })
    else core_list_mergesort fuel s.list cmp_complex s.heap (some res)

-- From the removal of an item to the end of its undoing, with the CRC of the list between them.
unfoldable pub remove_and_undo : ℕ → ℕ → ℕ → ListData → Heap → Run (ℕ × Heap)
remove_and_undo fuel list retval info h = field h.next list >>= λ first.
    core_list_remove first h >>= λ removed. core_list_find fuel list info removed.heap >>= λ sought.
    field removed.heap.next list >>= λ second.
    crc_loop fuel list (if sought == 0 then second else sought) retval removed.heap >>= λ crc.
    core_list_undo_remove removed.item second removed.heap >>= λ undone. ok (crc, undone.heap)

pub record ListBenched : Type 0 where
  pub retval : ℕ
  pub heap : Heap
  pub res : Option Results

unfoldable pub core_bench_list : ℕ → ℕ → Results → ℕ → Heap → Run ListBenched
core_bench_list fuel list res finder_idx h =
    for_loop (if neg16 res.seed3 then 0 else res.seed3) 0 (find_round fuel) (record {
      retval = 0;
      found = 0;
      missed = 0;
      list = list;
      info = record { data16 = 0; idx = finder_idx };
      heap = h;
    })
    >>= λ s.
        let retval = u16 (s.retval + s.found * 4 + (2 ^ 16 - s.missed)) in
        sort_by_data fuel finder_idx s res >>= λ sorted.
        remove_and_undo fuel sorted.list retval s.info sorted.heap >>= λ undone.
        core_list_mergesort fuel sorted.list cmp_idx undone.1 none >>= λ last.
        field last.heap.next last.list >>= λ finder.
        crc_loop fuel last.list finder undone.0 last.heap >>= λ crc.
        ok (record { retval = crc; heap = last.heap; res = sorted.res })
