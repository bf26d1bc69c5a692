-- ===== src/Coremark/List/Insert.antt =====
-- core_list_insert_new: what it makes of the chain and of the free regions.
use gandiva.Base.{
  ℕ, ◌+◌, ◌<◌, ◌≡◌, ◌≢◌, refl, ◌∙◌, arith, ◌⊎◌, inl, inr, Bool-cases, leb, ne→==, false, List, ◌∷◌,
  ok,
}
use gandiva.Coremark.List.{
  Heap, write, ListData, Blocks, Inserted, sizeof_head, sizeof_data, copy_info, link_new,
  core_list_insert_new,
}
use gandiva.Coremark.List.Chain.{has, Chain, cons, Chain-uncons, Chain-write, write_self, write-ne}

-- Both regions have room for an item and one more byte.
abbrev pub HasRoom : Blocks → Type 0
HasRoom bl =
    (bl.memblock + sizeof_head < bl.memblock_end) × (bl.datablock + sizeof_data < bl.datablock_end)

-- The item at the start of the free region stands behind `p` in the chain, with the data, and all
-- other items have the data that they had in the heap `h`.
pub record IsInserted (h : Heap) (p : ℕ) (xs : List ℕ) (info : ListData) (bl : Blocks)
    (out : Inserted) : Type 0 where
  pub item : out.item ≡ bl.memblock
  pub chain : Chain out.heap.next p (p ∷ bl.memblock ∷ xs)
  pub datum : out.heap.info bl.memblock ≡ bl.datablock
  pub data16 : out.heap.data16 bl.datablock ≡ info.data16
  pub idx : out.heap.idx bl.datablock ≡ info.idx
  pub memblock : out.blocks.memblock ≡ bl.memblock + sizeof_head
  pub memblock_in : out.blocks.memblock < out.blocks.memblock_end
  pub datablock : out.blocks.datablock ≡ bl.datablock + sizeof_data
  pub datablock_in : out.blocks.datablock < out.blocks.datablock_end
  pub ends :
      (out.blocks.memblock_end ≡ bl.memblock_end) × (out.blocks.datablock_end ≡ bl.datablock_end)
  pub same_info : (a : ℕ) → a ≢ bl.memblock → out.heap.info a ≡ h.info a
  pub same_data16 : (d : ℕ) → d ≢ bl.datablock → out.heap.data16 d ≡ h.data16 d
  pub same_idx : (d : ℕ) → d ≢ bl.datablock → out.heap.idx d ≡ h.idx d

-- Nothing was done.
pub record IsRefused (h : Heap) (bl : Blocks) (out : Inserted) : Type 0 where
  pub item : out.item ≡ 0
  pub blocks : out.blocks ≡ bl
  pub heap : out.heap ≡ h

link_new-IsInserted :
    (h : Heap) (p : ℕ) (xs : List ℕ) (info : ListData) (bl : Blocks)
    → Chain h.next p (p ∷ xs)
    → has bl.memblock (p ∷ xs) ≡ false
    → bl.memblock ≢ 0
    → bl.datablock ≢ 0
    → HasRoom bl
    → (out : Inserted) × (link_new p info bl h ≡ ok out) × IsInserted h p xs info bl out
unfolding link_new copy_info
link_new-IsInserted h p xs info bl chain fresh ne ne_data (room, room_data) =
    let (refl_p, ne_p, out, rest) = Chain-uncons chain in
    let apart : bl.memblock ≢ p = λ e. ground arith in
    let fresh_xs : has bl.memblock xs ≡ false = ground arith in
    let new = bl.memblock in
    let linked = write h.next new (h.next p) in
    let out_new : has p (new ∷ xs) ≡ false = ground (arith, out, apart) in
    let after_p : write linked p new new ≡ h.next p =
      write-ne linked p new new apart ∙ write_self h.next new (h.next p) in
    (
      record {
        item = new;
        blocks = record bl { memblock = new + sizeof_head; datablock = bl.datablock + sizeof_data };
        heap = record {
          next = write linked p new;
          info = write h.info new bl.datablock;
          data16 = write h.data16 bl.datablock info.data16;
          idx = write h.idx bl.datablock info.idx;
        };
      },
      rw (ne→== p 0 ne_p, ne→== new 0 ne, ne→== bl.datablock 0 ne_data) refl,
      record {
        item = refl;
        chain = cons ne_p (write_self linked p new) out_new (
            cons ne after_p fresh_xs
              (Chain-write p new (Chain-write new (h.next p) rest fresh_xs) out));
        datum = write_self h.info new bl.datablock;
        data16 = write_self h.data16 bl.datablock info.data16;
        idx = write_self h.idx bl.datablock info.idx;
        memblock = refl;
        memblock_in = room;
        datablock = refl;
        datablock_in = room_data;
        ends = (refl, refl);
        same_info = λ a other. write-ne h.info new bl.datablock a other;
        same_data16 = λ d other. write-ne h.data16 bl.datablock info.data16 d other;
        same_idx = λ d other. write-ne h.idx bl.datablock info.idx d other;
      },
    )

-- core_list_insert_new at the head `p` of a chain, with free regions that start at addresses other
-- than 0 and with no item of the chain: it returns. With room for more than an item in both regions it
-- puts the first free item behind `p`, with a copy of the data in the first free data item, and
-- both regions start one item later and below their ends. Otherwise it returns NULL and changes
-- nothing.
pub core_list_insert_new_lem :
    (h : Heap) (p : ℕ) (xs : List ℕ) (info : ListData) (bl : Blocks)
    → Chain h.next p (p ∷ xs)
    → has bl.memblock (p ∷ xs) ≡ false
    → bl.memblock ≢ 0
    → bl.datablock ≢ 0
    → (out : Inserted) × (core_list_insert_new p info bl h ≡ ok out)
      × ((HasRoom bl × IsInserted h p xs info bl out) ⊎ ((¬ HasRoom bl) × IsRefused h bl out))
unfolding core_list_insert_new
core_list_insert_new_lem h p xs info bl chain fresh ne ne_data =
    elim (Bool-cases (leb bl.memblock_end (bl.memblock + sizeof_head))) [
      | inl full ↦ rw full (none_done, refl, inr (λ r. absurd (ground (arith, r.0)), refused))
      | inr head ↦ rw head (elim (Bool-cases (leb bl.datablock_end (bl.datablock + sizeof_data))) [
        | inl full ↦ rw full (none_done, refl, inr (λ r. absurd (ground (arith, r.1)), refused))
        | inr more ↦
            let room : HasRoom bl = (ground arith, ground arith) in
            let (out, e, is) = link_new-IsInserted h p xs info bl chain fresh ne ne_data room in
            rw more (out, e, inl (room, is))
      ])
    ]
  where
    none_done : Inserted
    none_done = record { item = 0; blocks = bl; heap = h }

    refused : IsRefused h bl none_done
    refused = record { item = refl; blocks = refl; heap = refl }
