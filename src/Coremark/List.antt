-- ===== src/Coremark/List.antt =====
-- The linked list of coremark/src/core_list_join.c: the heap of list_head and list_data items, and
-- the operations that relink it.
pub mod Runs
pub mod Chain
pub mod Walk
pub mod Relink
pub mod Find
pub mod Insert
pub mod Sort
pub mod Compare
pub mod Init
pub mod Bench
use gandiva.Base.{
  ℕ, zero, suc, ◌+◌, ◌%◌, ◌^◌, ◌==◌, leb, if◌then◌else◌, neg16, sext16, Bool, not, Run, ok, fault,
  out_of_fuel, ◌>>=◌,
}

-- `next` and `info` by the address of a list_head, `data16` and `idx` by that of a list_data. The
-- address 0 is NULL.
pub record Heap : Type 0 where
  pub next : ℕ → ℕ
  pub info : ℕ → ℕ
  pub data16 : ℕ → ℕ
  pub idx : ℕ → ℕ

unfoldable pub write : (ℕ → ℕ) → ℕ → ℕ → ℕ → ℕ
write f p v q = if q == p then v else f q

-- `p->field` and `p->field = v`.
abbrev pub field : (ℕ → ℕ) → ℕ → Run ℕ
field f p = if p == 0 then fault else ok (f p)

abbrev pub set_next : ℕ → ℕ → Heap → Run Heap
set_next p v h = if p == 0 then fault else ok (record h { next = write h.next p v })

abbrev pub set_info : ℕ → ℕ → Heap → Run Heap
set_info p v h = if p == 0 then fault else ok (record h { info = write h.info p v })

abbrev pub set_data16 : ℕ → ℕ → Heap → Run Heap
set_data16 p v h = if p == 0 then fault else ok (record h { data16 = write h.data16 p v })

abbrev pub set_idx : ℕ → ℕ → Heap → Run Heap
set_idx p v h = if p == 0 then fault else ok (record h { idx = write h.idx p v })

-- An item and the heap.
pub record Linked : Type 0 where
  pub item : ℕ
  pub heap : Heap

abbrev pub linked : ℕ → Heap → Linked
linked p h = record { item = p; heap = h }

-- `list_data`
pub record ListData : Type 0 where
  pub data16 : ℕ
  pub idx : ℕ

unfoldable pub copy_info : ℕ → ListData → Heap → Run Heap
copy_info to from h = set_data16 to from.data16 h >>= λ h'. set_idx to from.idx h'

-- The free parts of the two regions, from the pointers that the caller holds.
pub record Blocks : Type 0 where
  pub memblock : ℕ
  pub datablock : ℕ
  pub memblock_end : ℕ
  pub datablock_end : ℕ

abbrev pub sizeof_head : ℕ
sizeof_head = 8

abbrev pub sizeof_data : ℕ
sizeof_data = 4

pub record Inserted : Type 0 where
  pub item : ℕ
  pub blocks : Blocks
  pub heap : Heap

unfoldable pub link_new : ℕ → ListData → Blocks → Heap → Run Inserted
link_new insert_point info bl h =
    let newitem = bl.memblock in
    field h.next insert_point >>= λ after. set_next newitem after h >>= λ h₁.
    set_next insert_point newitem h₁ >>= λ h₂. set_info newitem bl.datablock h₂ >>= λ h₃.
    copy_info bl.datablock info h₃ >>= λ h₄. ok (record {
      item = newitem;
      blocks = record bl {
        memblock = bl.memblock + sizeof_head;
        datablock = bl.datablock + sizeof_data;
      };
      heap = h₄;
    })

unfoldable pub core_list_insert_new : ℕ → ListData → Blocks → Heap → Run Inserted
core_list_insert_new insert_point info bl h =
    let full : Inserted = record { item = 0; blocks = bl; heap = h } in
    if leb bl.memblock_end (bl.memblock + sizeof_head)
    then ok full
    else (if leb bl.datablock_end (bl.datablock + sizeof_data)
        then ok full
        else link_new insert_point info bl h)

unfoldable pub core_list_remove : ℕ → Heap → Run Linked
core_list_remove item h = field h.next item >>= λ ret. field h.info item >>= λ tmp.
    field h.info ret >>= λ other. set_info item other h >>= λ h₁. set_info ret tmp h₁ >>= λ h₂.
    field h₂.next ret >>= λ after.
    set_next item after h₂ >>= λ h₃. set_next ret 0 h₃ >>= λ h₄. ok (linked ret h₄)

unfoldable pub core_list_undo_remove : ℕ → ℕ → Heap → Run Linked
core_list_undo_remove item_removed item_modified h = field h.info item_removed >>= λ tmp.
    field h.info item_modified >>= λ other. set_info item_removed other h >>= λ h₁.
    set_info item_modified tmp h₁ >>= λ h₂. field h₂.next item_modified >>= λ after.
    set_next item_removed after h₂ >>= λ h₃.
    set_next item_modified item_removed h₃ >>= λ h₄. ok (linked item_removed h₄)

-- The test that ends the search at an item with the data at `d`.
unfoldable pub is_found : ListData → Heap → ℕ → Bool
is_found info h d =
    if neg16 info.idx
    then h.data16 d % 2 ^ 8 == sext16 info.data16
    else sext16 (h.idx d) == sext16 info.idx

unfoldable pub find_loop : ℕ → ListData → Heap → ℕ → Run ℕ
find_loop zero info h list = out_of_fuel
find_loop (suc fuel) info h list =
    let rest = field h.next list >>= λ q. find_loop fuel info h q in
    if list == 0
    then ok 0
    else field h.info list >>= λ d.
        if d == 0 then fault else (if is_found info h d then ok list else rest)

unfoldable pub core_list_find : ℕ → ℕ → ListData → Heap → Run ℕ
core_list_find fuel list info h = find_loop fuel info h list

-- while (list), with `next` as the head of what is turned round.
unfoldable pub reverse_loop : ℕ → ℕ → ℕ → Heap → Run Linked
reverse_loop zero list next h = out_of_fuel
reverse_loop (suc fuel) list next h =
    let rest =
      field h.next list >>= λ tmp. set_next list next h >>= λ h'. reverse_loop fuel tmp list h' in
    if list == 0 then ok (linked next h) else rest

unfoldable pub core_list_reverse : ℕ → ℕ → Heap → Run Linked
core_list_reverse fuel list h = reverse_loop fuel list 0 h
