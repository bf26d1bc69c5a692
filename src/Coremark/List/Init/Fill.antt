-- ===== src/Coremark/List/Init/Fill.antt =====
-- The items that core_list_init puts into its block.
use gandiva.Base.{
  ℕ, zero, suc, ◌+◌, ◌*◌, ◌^◌, ◌≤◌, ◌<◌, ◌≡◌, ◌≢◌, refl, ap, ◌∙◌, arith, ◌⊎◌, inl, inr, Bool-cases,
  ◌==◌, ltb, ne→==, false, List, [], ◌∷◌, length, ok,
}
use gandiva.Base.Loop.{for_loop}
use gandiva.Coremark.List.{
  Heap, ListData, Blocks, Inserted, core_list_insert_new, copy_info, write, sizeof_head,
  sizeof_data,
}
use gandiva.Coremark.List.Chain.{has, Chain, nil, cons, write_self, write-ne}
use gandiva.Coremark.List.Insert.{IsInserted, core_list_insert_new_lem}
use gandiva.Coremark.List.Runs.{count}
use gandiva.Coremark.List.Walk.{has_of_count}
use gandiva.Coremark.List.Compare.Regen.{IsRegen}
use gandiva.Coremark.List.Init.{fresh_data, insert_fresh, fake_items}

pub fresh_data-IsRegen : (seed i : ℕ) → IsRegen (fresh_data seed i)
unfolding fresh_data
fresh_data-IsRegen seed i = omega arith

-- The items from `m` on, with their data from `d` on: the head, and the items `xs`.
pub record Filled (m d size : ℕ) (xs : List ℕ) (bl : Blocks) (h : Heap) : Type 0 where
  pub chain : Chain h.next m (m ∷ xs)
  pub items :
      (a : ℕ)
      → 0 < count a (m ∷ xs)
      → (j : ℕ) × (j ≤ length xs) × (a ≡ m + 8 * j) × (h.info a ≡ d + 4 * j)
  pub memblock : bl.memblock ≡ m + 8 * (1 + length xs)
  pub datablock : bl.datablock ≡ d + 4 * (1 + length xs)
  pub memblock_end : bl.memblock_end ≡ m + 8 * size
  pub datablock_end : bl.datablock_end ≡ d + 4 * size
  pub regen : (j : ℕ) → j ≤ length xs → IsRegen (h.data16 (d + 4 * j))
  pub head : h.idx d ≡ 0
  pub idx : (j : ℕ) → 1 ≤ j → j ≤ length xs → h.idx (d + 4 * j) ≡ 0x7fff
  pub words : (e : ℕ) → h.idx e < 2 ^ 16
  pub fits : length xs + 2 ≤ size

module _ (m d size : ℕ) (ne_m : m ≢ 0) (ne_d : d ≢ 0) where
  fresh_item :
      {xs : List ℕ} {bl : Blocks} {h : Heap}
      → Filled m d size xs bl h
      → has bl.memblock (m ∷ xs) ≡ false
  fresh_item {xs} {bl} s =
      has_of_count bl.memblock (m ∷ xs) (elim (Bool-cases (count bl.memblock (m ∷ xs) == 0)) [
        | inl none ↦ ground arith
        | inr some ↦
            let (j, le, at, info) = s.items bl.memblock (ground arith) in
            absurd (omega (arith, s.memblock))
      ])

  grown-Filled :
      {xs : List ℕ} {bl : Blocks} {h : Heap} {info : ListData} {out : Inserted}
      → Filled m d size xs bl h
      → IsRegen info.data16
      → info.idx ≡ 0x7fff
      → length xs + 2 < size
      → IsInserted h m xs info bl out
      → Filled m d size (bl.memblock ∷ xs) out.blocks out.heap
  grown-Filled {xs} {bl} {h} {info} {out} s regen idx room is =
      let at_data : bl.datablock ≡ d + 4 * (1 + length xs) = s.datablock in
      record {
        chain = is.chain;
        items = λ a there. elim (Bool-cases (a == bl.memblock)) [
          | inl same ↦
              let at : a ≡ bl.memblock = ground arith in
              (
                1 + length xs,
                omega arith,
                at ∙ s.memblock,
                ap out.heap.info at ∙ is.datum ∙ at_data,
              )
          | inr other ↦
              let (j, le, at, e) = s.items a (ground arith) in
              (j, omega arith, at, is.same_info a (λ z. ground arith) ∙ e)
        ];
        memblock = omega (arith, is.memblock, s.memblock);
        datablock = omega (arith, is.datablock, s.datablock);
        memblock_end = is.ends.0 ∙ s.memblock_end;
        datablock_end = is.ends.1 ∙ s.datablock_end;
        regen = λ j le. elim (Bool-cases (j == 1 + length xs)) [
          | inl last ↦
              let at : d + 4 * j ≡ bl.datablock = ground (arith, at_data) in
              rw (at, is.data16) regen
          | inr other ↦
              rw (is.same_data16 (d + 4 * j) (λ z. ground (arith, at_data)))
                (s.regen j (ground arith))
        ];
        head = is.same_idx d (λ z. omega (arith, s.datablock)) ∙ s.head;
        idx = λ j pos le. elim (Bool-cases (j == 1 + length xs)) [
          | inl last ↦
              let at : d + 4 * j ≡ bl.datablock = ground (arith, at_data) in rw (at, is.idx) idx
          | inr other ↦
              is.same_idx (d + 4 * j) (λ z. ground (arith, at_data)) ∙ s.idx j pos (ground arith)
        ];
        words = λ e. elim (Bool-cases (e == bl.datablock)) [
          | inl same ↦
              let at : e ≡ bl.datablock = ground arith in
              let datum : out.heap.idx e ≡ 0x7fff = ap out.heap.idx at ∙ is.idx ∙ idx in omega arith
          | inr other ↦ omega (arith, is.same_idx e (λ z. ground arith), s.words e)
        ];
        fits = omega arith;
      }

  insert-Filled :
      {xs : List ℕ} {bl : Blocks} {h : Heap} (info : ListData)
      → Filled m d size xs bl h
      → IsRegen info.data16
      → info.idx ≡ 0x7fff
      → (out : Inserted) × (ys : List ℕ) × (core_list_insert_new m info bl h ≡ ok out)
        × Filled m d size ys out.blocks out.heap
        × ((length ys ≡ 1 + length xs) ⊎ ((length ys ≡ length xs) × (length xs + 2 ≡ size)))
  insert-Filled {xs} {bl} {h} info s regen idx =
      let (out, e, done) =
        core_list_insert_new_lem h m xs info bl s.chain (fresh_item s)
          (λ z. omega (arith, s.memblock)) (λ z. omega (arith, s.datablock)) in
      let fits = s.fits in
      elim done [
        | inl (room, is) ↦
            let more : length xs + 2 < size = omega (arith, room.0, s.memblock, s.memblock_end) in
            (out, bl.memblock ∷ xs, e, grown-Filled s regen idx more is, inl (omega arith))
        | inr (none, refused) ↦
            let full : length xs + 2 ≡ size = elim (Bool-cases (ltb (length xs + 2) size)) [
              | inl more ↦ absurd (
                  none (
                    ground (arith, s.memblock, s.memblock_end),
                    ground (arith, s.datablock, s.datablock_end),
                  ))
              | inr no_more ↦ ground arith
            ] in
            (out, xs, e, rw (refused.blocks, refused.heap) s, inr (refl, full))
      ]

  -- The rounds that insert the fresh items fill the block.
  pub fill_loop-Filled :
      (seed n i : ℕ) (xs : List ℕ) (s : Inserted)
      → Filled m d size xs s.blocks s.heap
      → size ≤ length xs + 2 + n
      → (t : Inserted) × (ys : List ℕ) × (for_loop n i (insert_fresh m seed) s ≡ ok t)
        × Filled m d size ys t.blocks t.heap
        × (length ys + 2 ≡ size)
  unfolding for_loop insert_fresh
  fill_loop-Filled seed zero i xs s inv enough = (s, xs, refl, inv, omega (arith, inv.fits))
  fill_loop-Filled seed (suc n) i xs s inv enough =
      let (t, ys, e, inv', grown) =
        insert-Filled (record { data16 = fresh_data seed i; idx = 0x7fff }) inv
          (fresh_data-IsRegen seed i) refl in
      rw e (fill_loop-Filled seed n (i + 1) ys t inv' (ground (arith, grown)))

  -- The fake items for the head and the tail.
  pub fake_items-Filled :
      (bl : Blocks) (h : Heap)
      → bl.datablock ≡ d
      → bl.memblock ≡ m
      → bl.memblock_end ≡ m + 8 * size
      → bl.datablock_end ≡ d + 4 * size
      → 3 ≤ size
      → ((e : ℕ) → h.idx e < 2 ^ 16)
      → (out : Inserted) × (ys : List ℕ) × (fake_items m bl h ≡ ok out)
        × Filled m d size ys out.blocks out.heap
        × (length ys ≡ 1)
  unfolding fake_items copy_info
  fake_items-Filled bl h at_d at_m end_m end_d three words =
      let bl' : Blocks = record bl {
        memblock = bl.memblock + sizeof_head;
        datablock = bl.datablock + sizeof_data;
      } in
      let h' : Heap = record {
        next = write h.next m 0;
        info = write h.info m d;
        data16 = write h.data16 d 0x8080;
        idx = write h.idx d 0;
      } in
      let start : Filled m d size [] bl' h' = record {
        chain = cons ne_m (write_self h.next m 0) refl nil;
        items = λ a there.
            let at : a ≡ m = ground (arith, there) in
            (0, omega arith, omega arith, ap h'.info at ∙ write_self h.info m d ∙ zero_on d);
        memblock = omega arith;
        datablock = omega arith;
        memblock_end = end_m;
        datablock_end = end_d;
        regen = λ j le.
            let at : d + 4 * j ≡ d = omega arith in rw (at, write_self h.data16 d 0x8080) refl;
        head = write_self h.idx d 0;
        idx = λ j pos le. absurd (omega arith);
        words = λ e. elim (Bool-cases (e == d)) [
          | inl same ↦
              let at : e ≡ d = ground arith in omega (arith, ap h'.idx at ∙ write_self h.idx d 0)
          | inr other ↦ omega (arith, write-ne h.idx d 0 e (λ z. ground arith), words e)
        ];
        fits = omega arith;
      } in
      let (out, ys, e, inv, grown) =
        insert-Filled (record { data16 = 0xffff; idx = 0x7fff }) start refl refl in
      (out, ys, rw (ne→== m 0 ne_m, at_d, ne→== d 0 ne_d) (rw at_d at e), inv, omega (arith, grown))
    where
      zero_on : (x : ℕ) → x ≡ x + 4 * 0
      zero_on x = omega arith
