-- ===== src/Coremark/List/Init.antt =====
-- core_list_init of coremark/src/core_list_join.c.
pub mod Fill
pub mod Index
pub mod Ready
use gandiva.Base.{
  ℕ, zero, suc, ◌+◌, ◌-◌, ◌*◌, ◌/◌, ◌%◌, ◌^◌, ◌==◌, ltb, if◌then◌else◌, bit_and, bit_or, bit_xor,
  u16, u32, none, Run, ok, out_of_fuel, ◌>>=◌,
}
use gandiva.Base.Loop.{for_loop}
use gandiva.Coremark.List.{
  Heap, field, set_next, set_info, set_idx, copy_info, Blocks, sizeof_head, sizeof_data, Inserted,
  core_list_insert_new,
}
use gandiva.Coremark.List.Sort.{Sorted, core_list_mergesort}
use gandiva.Coremark.List.Compare.{cmp_idx}

-- 16 + sizeof(struct list_data_s)
abbrev pub per_item : ℕ
per_item = 16 + sizeof_data

-- The number of items. A block of less than 40 bytes wraps around.
abbrev pub list_size : ℕ → ℕ
list_size blksize = u32 (blksize / per_item + (2 ^ 32 - 2))

-- The data of the item `i`.
unfoldable pub fresh_data : ℕ → ℕ → ℕ
fresh_data seed i =
    let datpat = u16 (bit_xor seed i) % 2 ^ 4 in
    let dat = datpat * 2 ^ 3 + i % 2 ^ 3 in u16 (dat * 2 ^ 8 + dat)

unfoldable pub insert_fresh : ℕ → ℕ → ℕ → Inserted → Run Inserted
insert_fresh list seed i s =
    core_list_insert_new list (record { data16 = fresh_data seed i; idx = 0x7fff }) s.blocks s.heap

-- The index of the item `i` from the head.
unfoldable pub fresh_idx : ℕ → ℕ → ℕ → ℕ
fresh_idx size seed i =
    if ltb i (size / 5)
    then u16 i
    else bit_and 0x3fff (bit_or ((i + 1) % 2 ^ 3 * 2 ^ 8) (u16 (bit_xor i seed)))

-- while (finder->next != NULL)
unfoldable pub index_loop : ℕ → ℕ → ℕ → ℕ → ℕ → Heap → Run Heap
index_loop zero size seed finder i h = out_of_fuel
index_loop (suc fuel) size seed finder i h = field h.next finder >>= λ next.
    let rest = field h.info finder >>= λ d.
    set_idx d (fresh_idx size seed i) h >>= λ h'. index_loop fuel size seed next (i + 1) h' in
    if next == 0 then ok h else rest

-- The fake items for the head and the tail of the list.
unfoldable pub fake_items : ℕ → Blocks → Heap → Run Inserted
fake_items list bl h = set_next list 0 h >>= λ h₁. set_info list bl.datablock h₁ >>= λ h₂.
    copy_info bl.datablock (record { data16 = 0x8080; idx = 0 }) h₂ >>= λ h₃.
    core_list_insert_new list (record { data16 = 0xffff; idx = 0x7fff })
      (record bl { memblock = bl.memblock + sizeof_head; datablock = bl.datablock + sizeof_data })
      h₃

unfoldable pub core_list_init : ℕ → ℕ → ℕ → ℕ → Heap → Run Sorted
core_list_init fuel blksize memblock seed h =
    let size = list_size blksize in
    let memblock_end = u32 (memblock + size * sizeof_head) in
    fake_items memblock
      (record {
        memblock = memblock;
        datablock = memblock_end;
        memblock_end = memblock_end;
        datablock_end = u32 (memblock_end + size * sizeof_data);
      })
      h
    >>= λ s. for_loop size 0 (insert_fresh memblock seed) s >>= λ s'.
        field s'.heap.next memblock >>= λ finder.
        index_loop fuel size seed finder 1 s'.heap >>= λ h'.
        core_list_mergesort fuel memblock cmp_idx h' none
