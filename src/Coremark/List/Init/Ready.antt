-- ===== src/Coremark/List/Init/Ready.antt =====
-- The list that core_list_init makes: what the benchmark loop needs of it.
use gandiva.Base.{
  ℕ, ◌+◌, ◌-◌, ◌*◌, ◌^◌, ◌≤◌, ◌<◌, ◌≡◌, ◌≢◌, refl, ap, ◌∙◌, arith, ne→==, u32, none, List, ◌∷◌,
  length, ok, ◌>>=◌,
}
use gandiva.Coremark.List.{Heap, Blocks}
use gandiva.Coremark.List.Chain.{Chain}
use gandiva.Coremark.List.Runs.{count, count_self, IsSorted}
use gandiva.Coremark.List.Walk.{Chain-Walk, Walk-Chain, Chain-count}
use gandiva.Coremark.List.Sort.{Sorted, core_list_mergesort}
use gandiva.Coremark.List.Compare.{cmp_idx}
use gandiva.Coremark.List.Compare.Idx.{idx_of}
use gandiva.Coremark.List.Compare.Regen.{IsRegen}
use gandiva.Coremark.List.Bench.Restores.{Restored, least_first, sort_by_idx-Restored}
use gandiva.Coremark.List.Bench.Original.{Chain-Holds}
use gandiva.Coremark.List.Init.{list_size, fresh_idx, index_loop, core_list_init}
use gandiva.Coremark.List.Init.Fill.{Filled, fill_loop-Filled, fake_items-Filled}
use gandiva.Coremark.List.Init.Index.{IsPositive, Indexed, index_loop-Indexed}

-- From `list` on, `n` items in the order of their signed indices, with data whose bytes are equal;
-- the head alone has the least index.
pub record IsList (list n : ℕ) (h : Heap) : Type 0 where
  pub xs : List ℕ
  pub chain : Chain h.next list xs
  pub whole : length xs ≡ n
  pub full : (a : ℕ) → 0 < count a xs → h.info a ≢ 0
  pub words : (d : ℕ) → h.idx d < 2 ^ 16
  pub least : (a : ℕ) → 0 < count a xs → a ≢ list → idx_of h list < idx_of h a
  pub sorted : IsSorted (idx_of h) xs
  pub regen : (a : ℕ) → 0 < count a xs → IsRegen (h.data16 (h.info a))

Filled-full :
    (m d size : ℕ) {xs : List ℕ} {bl : Blocks} {h : Heap}
    → d ≢ 0
    → Filled m d size xs bl h
    → (a : ℕ) → 0 < count a (m ∷ xs)
    → h.info a ≢ 0
Filled-full m d size ne_d s a there z = let (j, le, at, e) = s.items a there in omega arith

module _ (m d size : ℕ) (ne_m : m ≢ 0) (ne_d : d ≢ 0) {xs : List ℕ} {bl : Blocks} {h : Heap}
    (s : Filled m d size xs bl h) (idx : ℕ → ℕ) (is : Indexed h xs idx) where
  head_info : h.info m ≡ d
  head_info = let (j, le, at, e) = s.items m (omega (arith, count_self m xs)) in omega arith

  head_idx : idx d ≡ 0
  head_idx =
      is.others d (λ a there z.
        let (j, le, at, e) = s.items a (omega arith) in
        let once = Chain-count h.next m (m ∷ xs) s.chain m in
        let here : a ≡ m = omega arith in
        omega (arith, once, count_self m xs, ap (λ c. count c xs) here))
      ∙ s.head

  idx_above : (a : ℕ) → 0 < count a (m ∷ xs) → a ≢ m → IsPositive (idx (h.info a))
  idx_above a there apart =
      let (j, le, at, e) = s.items a there in
      let pos : 1 ≤ j = omega arith in
      let old : h.idx (h.info a) ≡ 0x7fff = ap h.idx e ∙ s.idx j pos le in
      is.positive (h.info a) (omega arith)

  indexed_least :
      (a : ℕ)
      → 0 < count a (m ∷ xs)
      → a ≢ m
      → idx_of (record h { idx = idx }) m < idx_of (record h { idx = idx }) a
  indexed_least a there apart =
      let p = idx_above a there apart in
      let zero : idx (h.info m) ≡ 0 = ap idx head_info ∙ head_idx in omega arith

-- A heap with the data items and the indices of another one has its order.
pub IsList-Restored :
    (old h : Heap) (all : List ℕ) (list : ℕ)
    → ((a : ℕ) → count a all ≤ 1)
    → ((a : ℕ) → 0 < count a all → old.info a ≢ 0)
    → ((d : ℕ) → old.idx d < 2 ^ 16)
    → ((a : ℕ) → 0 < count a all → a ≢ list → idx_of old list < idx_of old a)
    → Restored old all list h
    → IsList list (length all) h
IsList-Restored old h all list once full words least s =
    let inv = s.holds in
    let in_all : (a : ℕ) → 0 < count a inv.xs → 0 < count a all =
      λ a there. omega (arith, inv.items a) in
    record {
      xs = inv.xs;
      chain = Walk-Chain h.next list inv.xs inv.walk (λ a. omega (arith, inv.items a, once a));
      whole = inv.whole;
      full = λ a there. rw (ap (λ f. f a) inv.info) (full a (in_all a there));
      words = λ d. rw inv.idx (words d);
      least = λ a there apart. rw (inv.info, inv.idx) (least a (in_all a there) apart);
      sorted = rw (inv.info, inv.idx) s.sorted;
      regen = λ a there. s.regen a (in_all a there);
    }

-- The rest of core_list_init, after the block is filled.
indexed-IsList :
    (fuel m d size seed : ℕ) (xs : List ℕ) (bl : Blocks) (h : Heap)
    → m ≢ 0
    → d ≢ 0
    → Filled m d size xs bl h
    → length xs + 2 ≡ size
    → 4 ≤ size
    → size < 2 ^ 15
    → size ≤ fuel
    → ((i : ℕ) → 1 ≤ i → i < size → 0 < fresh_idx size seed i)
    → (out : Sorted) × ((index_loop fuel size seed (h.next m) 1 h >>= λ h'.
          core_list_mergesort fuel m cmp_idx h' none)
        ≡ ok out)
      × (out.list ≡ m)
      × IsList m (size - 1) out.heap
indexed-IsList fuel m d size seed xs bl h ne_m ne_d s whole four small enough positive =
    let walk = Chain-Walk h.next m (m ∷ xs) s.chain in
    let full = Filled-full m d size ne_d s in
    let (idx, e, is) =
      index_loop-Indexed size seed small positive fuel (h.next m) 1 xs h walk.2
        (λ a there. full a (omega arith)) (omega arith) (omega arith) (omega arith) (omega arith) in
    let g : Heap = record h { idx = idx } in
    let all = m ∷ xs in
    let once = Chain-count h.next m all s.chain in
    let words : (d' : ℕ) → g.idx d' < 2 ^ 16 = λ d'. is.words d' (s.words d') in
    let least = indexed_least m d size ne_m ne_d s idx is in
    let (out, sorts, back) =
      sort_by_idx-Restored g all once full words (omega arith) (omega arith) fuel (omega arith) m g
        (Chain-Holds g m all s.chain) in
    let at : out.list ≡ m =
      least_first (idx_of g) m out.heap.next out.list back.holds.xs back.holds.walk back.sorted
        (omega (arith, back.holds.items m, count_self m xs))
        (λ a there. least a (omega (arith, back.holds.items a))) in
    let number : length all ≡ size - 1 = omega arith in
    (
      out,
      rw e sorts,
      at,
      rw number at (IsList-Restored g out.heap all m once full words least (rw at at back)),
    )

-- core_list_init on a block that has room for 4 to 2^15 - 1 items at an address other than NULL, in a
-- heap with 16-bit indices and with as much fuel as items, when no item is given the index 0: it returns a
-- list of one item less from the start of the block on, in the order of the signed indices, whose head
-- alone has the least one, with data whose two bytes are equal.
pub core_list_init_lem :
    (fuel blksize memblock seed : ℕ) (h : Heap)
    → memblock ≢ 0
    → 4 ≤ list_size blksize
    → list_size blksize < 2 ^ 15
    → memblock + 12 * list_size blksize < 2 ^ 32
    → list_size blksize ≤ fuel
    → ((d : ℕ) → h.idx d < 2 ^ 16)
    → ((i : ℕ) → 1 ≤ i → i < list_size blksize → 0 < fresh_idx (list_size blksize) seed i)
    → (out : Sorted) × (core_list_init fuel blksize memblock seed h ≡ ok out)
      × (out.list ≡ memblock)
      × IsList memblock (list_size blksize - 1) out.heap
unfolding core_list_init
core_list_init_lem fuel blksize memblock seed h ne four small fits enough words positive =
    let size = list_size blksize in
    let m = memblock in
    let d = m + 8 * size in
    let end_m : u32 (m + size * 8) ≡ m + 8 * size = omega arith in
    let end_d : u32 (u32 (m + size * 8) + size * 4) ≡ d + 4 * size = omega arith in
    let ne_d : d ≢ 0 = λ z. omega arith in
    let bl : Blocks = record {
      memblock = m;
      datablock = u32 (m + size * 8);
      memblock_end = u32 (m + size * 8);
      datablock_end = u32 (u32 (m + size * 8) + size * 4);
    } in
    let (s, ys, fakes, filled, one) =
      fake_items-Filled m d size ne ne_d bl h end_m refl end_m end_d (omega arith) words in
    let (t, xs, fills, filled', whole) =
      fill_loop-Filled m d size ne ne_d seed size 0 ys s filled (omega arith) in
    let (out, e, at, is) =
      indexed-IsList fuel m d size seed xs t.blocks t.heap ne ne_d filled' whole four small enough
        positive in
    (out, rw (fakes, fills, ne→== m 0 ne) e, at, is)
