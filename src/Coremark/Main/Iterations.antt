-- ===== src/Coremark/Main/Iterations.antt =====
-- iterate of coremark/src/core_main.c: what the rounds of the benchmark leave of the list.
use gandiva.Base.{
  ℕ, suc, ◌+◌, ◌-◌, ◌*◌, ◌^◌, ◌≤◌, ◌<◌, ◌≡◌, ◌≢◌, refl, ◌∙◌, arith, ne→==, ◌==◌, if◌then◌else◌,
  List, length, [], ◌∷◌, Run, ok, ◌>>=◌,
}
use gandiva.Base.Loop.{for_loop, for_loop_inv}
use gandiva.Coremark.Crc.{crcu16}
use gandiva.Coremark.Calc.{Results}
use gandiva.Coremark.Calc.Caches.{IsReady, IsReady-crc}
use gandiva.Coremark.List.{Heap}
use gandiva.Coremark.List.Chain.{Chain, Chain-uncons}
use gandiva.Coremark.List.Runs.{count, count_self}
use gandiva.Coremark.List.Walk.{Chain-count}
use gandiva.Coremark.List.Compare.Idx.{idx_of}
use gandiva.Coremark.List.Bench.Round.{Holds}
use gandiva.Coremark.List.Bench.Restores.{Restored}
use gandiva.Coremark.List.Bench.Original.{Chain-Holds, core_bench_list-Restored}
use gandiva.Coremark.List.Sort.{Sorted}
use gandiva.Coremark.List.Init.{list_size, fresh_idx, core_list_init}
use gandiva.Coremark.List.Init.Ready.{IsList, IsList-Restored, core_list_init_lem}
use gandiva.Coremark.Main.{Iterating, list_crc, iteration, iterate}

head_counted : (f : ℕ → ℕ) (p : ℕ) (xs : List ℕ) → Chain f p xs → 0 < length xs → 0 < count p xs
head_counted f p [] chain some_items = absurd (omega arith)
head_counted f p (x ∷ xs) chain some_items =
    let at = (Chain-uncons chain).0 in rw at (omega (arith, count_self x xs))

module _ (old : Heap) (all : List ℕ) (once : (a : ℕ) → count a all ≤ 1)
    (full : (a : ℕ) → 0 < count a all → old.info a ≢ 0) (words : (d : ℕ) → old.idx d < 2 ^ 16)
    (list : ℕ) (there : 0 < count list all)
    (least : (a : ℕ) → 0 < count a all → a ≢ list → idx_of old list < idx_of old a)
    (three : 3 ≤ length all) (small : length all < 2 ^ 31) (fuel : ℕ)
    (enough : length all < fuel) where
  -- Between two calls of core_bench_list.
  pub record Between (s : Iterating) : Type 0 where
    pub holds : Holds old all list s.heap
    pub ready : IsReady s.res

  -- After at least one call, with the CRC of the list in `crc`.
  pub record After (crc : ℕ) (s : Iterating) : Type 0 where
    pub restored : Restored old all list s.heap
    pub ready : IsReady s.res
    pub crclist : s.crclist ≡ crc

  After-Between : {crc : ℕ} {s : Iterating} → After crc s → Between s
  After-Between a = record { holds = a.restored.holds; ready = a.ready }

  list_crc-After :
      (finder_idx : ℕ) (s : Iterating)
      → Between s
      → (t : Iterating) × (list_crc fuel list finder_idx s ≡ ok t) × After s.crclist t
  unfolding list_crc
  list_crc-After finder_idx s inv =
      let (out, r, e, is, ready, restored) =
        core_bench_list-Restored fuel list finder_idx s.res old s.heap all once full words there
          least inv.ready three small enough inv.holds in
      (
        record s { res = record r { crc = crcu16 out.retval r.crc }; heap = out.heap },
        rw (e, is) refl,
        record {
          restored = restored;
          ready = IsReady-crc r (crcu16 out.retval r.crc) ready;
          crclist = refl;
        },
      )

  iteration-After :
      (i : ℕ) (s : Iterating)
      → Between s
      → (t : Iterating) × (iteration fuel list i s ≡ ok t)
        × After (if i == 0 then t.res.crc else s.crclist) t
  unfolding iteration
  iteration-After i s inv =
      let (s₁, e, a) = list_crc-After 1 s inv in
      let (s₂, f, b) = list_crc-After 0xffff s₁ (After-Between a) in
      let c = b.crclist ∙ a.crclist in
      (
        record s₂ { crclist = if i == 0 then s₂.res.crc else s₂.crclist },
        rw (e, f) refl,
        record { restored = b.restored; ready = b.ready; crclist = rw c refl },
      )

  -- The rounds after the first one.
  rounds-After :
      (n crc : ℕ) (s : Iterating)
      → After crc s
      → (t : Iterating) × (for_loop n 1 (iteration fuel list) s ≡ ok t) × After crc t
  rounds-After n crc s a =
      let round : (k : ℕ) (t : Iterating)
          → k < 1 + n
          → (0 < k) × After crc t
          → (u : Iterating) × (iteration fuel list k t ≡ ok u) × ((0 < k + 1) × After crc u) =
        λ k t lt (pos, b).
          let (u, e, c) = iteration-After k t (After-Between b) in
          let nonzero : k ≢ 0 = λ z. omega arith in
          let d = rw (ne→== k 0 nonzero) at c in
          (
            u,
            e,
            (
              omega arith,
              record { restored = d.restored; ready = d.ready; crclist = d.crclist ∙ b.crclist },
            ),
          ) in
      let (t, e, (pos, b)) =
        for_loop_inv (λ k t. (0 < k) × After crc t) (iteration fuel list) n 1 (1 + n) s refl round
          (omega arith, a) in
      (t, e, b)

  iterate-After :
      (n : ℕ) (res : Results) (h : Heap)
      → IsReady res
      → Holds old all list h
      → (first : Iterating) × (last : Iterating) × (iterate fuel list 1 res h ≡ ok first)
        × (iterate fuel list (suc n) res h ≡ ok last)
        × After first.crclist last
  unfolding iterate for_loop
  iterate-After n res h ready inv =
      let res₀ : Results = record res { crc = 0; crcmatrix = 0; crcstate = 0 } in
      let s : Iterating = record { res = res₀; crclist = 0; heap = h } in
      let (first, e, a) = iteration-After 0 s (record {
        holds = inv;
        ready = record {
          same_seed = ready.same_seed;
          in_block = ready.in_block;
          keeps_end = ready.keeps_end;
          no_comma = ready.no_comma;
          room_c = ready.room_c;
          room_a = ready.room_a;
          room_b = ready.room_b;
          matdat = ready.matdat;
        };
      }) in
      let start : After first.crclist first = record {
        restored = a.restored;
        ready = a.ready;
        crclist = refl;
      } in
      let (last, f, b) = rounds-After n first.crclist first start in
      (first, last, rw e refl, rw (e, f) refl, b)

-- iterate on a list of 3 to 2^31 - 1 items as core_list_init leaves it, with results that are ready
-- for the other benchmarks and with more fuel than items, returns for every number of iterations
-- above 0. The CRC of the list is that of a single iteration, the list has the same items with the
-- same indices and is again as core_list_init leaves it, and the results are ready for another run.
pub iterate_lem :
    (fuel list size n : ℕ) (res : Results) (h : Heap) (is : IsList list size h)
    → IsReady res
    → 3 ≤ size
    → size < 2 ^ 31
    → size < fuel
    → (first : Iterating) × (last : Iterating) × (iterate fuel list 1 res h ≡ ok first)
      × (iterate fuel list (suc n) res h ≡ ok last)
      × (last.crclist ≡ first.crclist)
      × Holds h is.xs list last.heap
      × IsList list size last.heap
      × IsReady last.res
iterate_lem fuel list size n res h is ready three small enough =
    let xs = is.xs in
    let whole = is.whole in
    let once = Chain-count h.next list xs is.chain in
    let (first, last, e, f, a) =
      iterate-After h xs once is.full is.words list
        (head_counted h.next list xs is.chain (omega arith)) is.least (omega arith) (omega arith)
        fuel (omega arith) n res h ready (Chain-Holds h list xs is.chain) in
    (
      first,
      last,
      e,
      f,
      a.crclist,
      a.restored.holds,
      rw whole at (IsList-Restored h last.heap xs list once is.full is.words is.least a.restored),
      a.ready,
    )

after_init :
    (fuel m n : ℕ) (res : Results) (r : Run Sorted) (l : Sorted) (t : Iterating)
    → r ≡ ok l
    → l.list ≡ m
    → iterate fuel m n res l.heap ≡ ok t
    → (r >>= λ l'. iterate fuel l'.list n res l'.heap) ≡ ok t
after_init fuel m n res r l t e at f = rw (e, at) f

-- The benchmark from the list's block on: for a block with room for 4 to 2^15 - 1 items at an address
-- other than NULL, in a heap with 16-bit indices, with more fuel than items, when no item is given
-- the index 0 and the results are ready for the other benchmarks, core_list_init and iterate
-- return for every number of iterations above 0. The list is as core_list_init leaves it, from the
-- start of the block on, and its CRC is that of a single iteration.
pub core_list_init-iterate :
    (fuel blksize memblock seed n : ℕ) (res : Results) (h : Heap)
    → memblock ≢ 0
    → 4 ≤ list_size blksize
    → list_size blksize < 2 ^ 15
    → memblock + 12 * list_size blksize < 2 ^ 32
    → list_size blksize ≤ fuel
    → ((d : ℕ) → h.idx d < 2 ^ 16)
    → ((i : ℕ) → 1 ≤ i → i < list_size blksize → 0 < fresh_idx (list_size blksize) seed i)
    → IsReady res
    → (first : Iterating) × (last : Iterating) × ((core_list_init fuel blksize memblock seed h
          >>= λ l. iterate fuel l.list 1 res l.heap)
        ≡ ok first)
      × ((core_list_init fuel blksize memblock seed h >>= λ l.
            iterate fuel l.list (suc n) res l.heap)
          ≡ ok last)
      × (last.crclist ≡ first.crclist)
      × IsList memblock (list_size blksize - 1) last.heap
      × IsReady last.res
core_list_init-iterate fuel blksize memblock seed n res h ne four small fits enough words positive
      ready =
    let (l, e, at, is) =
      core_list_init_lem fuel blksize memblock seed h ne four small fits enough words positive in
    let size : ℕ = list_size blksize - 1 in
    let (first, last, f, g, crc, held, is', ready') =
      iterate_lem fuel memblock size n res l.heap is ready (omega arith) (omega arith)
        (omega arith) in
    let r = core_list_init fuel blksize memblock seed h in
    (
      first,
      last,
      after_init fuel memblock 1 res r l first e at f,
      after_init fuel memblock (suc n) res r l last e at g,
      crc,
      is',
      ready',
    )
