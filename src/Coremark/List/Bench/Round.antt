-- ===== src/Coremark/List/Bench/Round.antt =====
-- A round of the loop of core_bench_list over the values to find.
use mathlib.Core.List
use gandiva.Base.{
  ℕ, ◌+◌, ◌≤◌, ◌<◌, ◌≡◌, ◌≢◌, refl, sym, ap, ◌∙◌, arith, ◌⊎◌, inl, inr, Bool-cases, ◌==◌, ne→==,
  true, shr, ◌%◌, ◌^◌, if◌then◌else◌, neg16, u16, List, [], ◌∷◌, length, ok,
}
use gandiva.Base.Loop.{for_loop, for_loop_inv}
use gandiva.Coremark.List.{Heap, ListData}
use gandiva.Coremark.List.Chain.{has}
use gandiva.Coremark.List.Find.{IsFirstFound, nowhere, here, later, core_list_find_lem}
use gandiva.Coremark.List.Relink.{core_list_reverse_lem}
use gandiva.Coremark.List.Runs.{count, count_self}
use gandiva.Coremark.List.Walk.{Walk, Chain-Walk, Walk-Chain}
use gandiva.Coremark.List.Bench.{Finding, data_at, when_missed, when_found, find_round}
use gandiva.Coremark.List.Bench.Cache.{cache_next-Walk}

pub count_has : (a : ℕ) (xs : List ℕ) → has a xs ≡ true → 0 < count a xs
count_has a [] h = absurd (ground arith)
count_has a (x ∷ xs) h = ground (arith, count_has a xs)

count-reverse_aux :
    (z : ℕ) (xs ys : List ℕ) → count z (List.reverse_aux xs ys) ≡ count z xs + count z ys
count-reverse_aux z [] ys = omega arith
count-reverse_aux z (x ∷ xs) ys = omega (arith, count-reverse_aux z xs (x ∷ ys))

length-reverse_aux : (xs ys : List ℕ) → length (List.reverse_aux xs ys) ≡ length xs + length ys
length-reverse_aux [] ys = omega arith
length-reverse_aux (x ∷ xs) ys = omega (arith, length-reverse_aux xs (x ∷ ys))

-- The item found is NULL or in the list.
pub found_in :
    {info : ListData} {h : Heap} {xs : List ℕ} {r : ℕ}
    → IsFirstFound info h xs r
    → (r ≡ 0) ⊎ (0 < count r xs)
found_in nowhere = inl refl
found_in (here {x} {xs} hit) = inr (omega (arith, count_self x xs))
found_in (later miss first) = elim (found_in first) [
  | inl none ↦ inl none
  | inr some ↦ inr (omega arith)
]

-- The first two items of a walk.
pub first_two :
    (f : ℕ → ℕ) (p : ℕ) (xs : List ℕ)
    → Walk f p xs 0
    → 2 ≤ length xs
    → (p ≢ 0) × (f p ≢ 0) × (0 < count p xs) × (0 < count (f p) xs)
first_two f p [] w two = absurd (omega arith)
first_two f p (x ∷ []) w two = absurd (omega arith)
first_two f p (x ∷ y ∷ xs) (at, ne, (at', ne', w)) two =
    rw (at, at') (ne, ne', omega (arith, count_self x (y ∷ xs)), omega (arith, count_self y xs))

pub nonzero_item : (f : ℕ → ℕ) (p a : ℕ) (xs : List ℕ) → Walk f p xs 0 → 0 < count a xs → a ≢ 0
nonzero_item f p a [] w some e = omega arith
nonzero_item f p a (x ∷ xs) (at, ne, w) some e = elim (Bool-cases (a == x)) [
  | inl same ↦ let is : a ≡ x = ground arith in ne (sym is ∙ e)
  | inr other ↦ nonzero_item f (f x) a xs w (ground arith) e
]

pub data_at-ok : (h : Heap) (p : ℕ) → p ≢ 0 → h.info p ≢ 0 → data_at h p ≡ ok (h.data16 (h.info p))
unfolding data_at
data_at-ok h p ne full = rw (ne→== p 0 ne, ne→== (h.info p) 0 full) refl

-- From `list` on, the heap `h` has the items `all` in some order, with the data items, the indices
-- and the upper bytes that they have in the heap `old`.
pub record Holds (old : Heap) (all : List ℕ) (list : ℕ) (h : Heap) : Type 0 where
  pub xs : List ℕ
  pub walk : Walk h.next list xs 0
  pub items : (a : ℕ) → count a xs ≡ count a all
  pub whole : length xs ≡ length all
  pub info : h.info ≡ old.info
  pub idx : h.idx ≡ old.idx
  pub upper : (d : ℕ) → shr (h.data16 d) 8 ≡ shr (old.data16 d) 8

abbrev after_missed : ℕ → Finding → Finding
after_missed x s = record s { missed = u16 (s.missed + 1); retval = u16 (s.retval + shr x 8 % 2) }

abbrev after_found : ℕ → (ℕ → ℕ) → Finding → Finding
after_found x next s = record s {
  found = u16 (s.found + 1);
  retval = if x % 2 == 1 then u16 (s.retval + shr x 9 % 2) else s.retval;
  heap = record s.heap { next = next };
}

abbrev after_round : ListData → Finding → Finding
after_round info t = record t {
  info = record {
    data16 = info.data16;
    idx = if neg16 info.idx then info.idx else u16 (info.idx + 1);
  };
}

module _ (old : Heap) (all : List ℕ) (once : (a : ℕ) → count a all ≤ 1)
    (full : (a : ℕ) → 0 < count a all → old.info a ≢ 0) where
  pub Holds-once : {list : ℕ} {h : Heap} (s : Holds old all list h) → (a : ℕ) → count a s.xs ≤ 1
  Holds-once s a = omega (arith, s.items a, once a)

  pub Holds-full :
      {list : ℕ} {h : Heap} (s : Holds old all list h) → (a : ℕ) → 0 < count a s.xs → h.info a ≢ 0
  Holds-full s a some e = full a (omega (arith, s.items a)) (ap (λ f. f a) (sym s.info) ∙ e)

  missed-Holds :
      (s : Finding)
      → 2 ≤ length all
      → Holds old all s.list s.heap
      → (t : Finding) × (when_missed s ≡ ok t) × Holds old all t.list t.heap
  unfolding when_missed
  missed-Holds s two inv =
      let (ne, ne', some, some') =
        first_two s.heap.next s.list inv.xs inv.walk (omega (arith, inv.whole)) in
      let e =
        data_at-ok s.heap (s.heap.next s.list) ne' (Holds-full inv (s.heap.next s.list) some') in
      (
        after_missed (s.heap.data16 (s.heap.info (s.heap.next s.list))) s,
        rw (ne→== s.list 0 ne, e) refl,
        inv,
      )

  found-Holds :
      (r : ℕ) (s : Finding)
      → (inv : Holds old all s.list s.heap) → 0 < count r inv.xs
      → (t : Finding) × (when_found r s ≡ ok t) × Holds old all t.list t.heap
  unfolding when_found
  found-Holds r s inv some =
      let ne = nonzero_item s.heap.next s.list r inv.xs inv.walk some in
      let e = data_at-ok s.heap r ne (Holds-full inv r some) in
      let (next, ys, moves, walk, items, whole) =
        cache_next-Walk r s.list s.heap inv.xs inv.walk (Holds-once inv) some in
      (
        after_found (s.heap.data16 (s.heap.info r)) next s,
        rw (e, moves) refl,
        record {
          xs = ys;
          walk = walk;
          items = λ a. items a ∙ inv.items a;
          whole = whole ∙ inv.whole;
          info = inv.info;
          idx = inv.idx;
          upper = inv.upper;
        },
      )

  sought :
      (fuel r : ℕ) (s : Finding)
      → 2 ≤ length all
      → (inv : Holds old all s.list s.heap) → (r ≡ 0) ⊎ (0 < count r inv.xs)
      → (t : Finding) × ((if r == 0 then when_missed s else when_found r s) ≡ ok t)
        × Holds old all t.list t.heap
  sought fuel r s two inv (inl none) = rw none (missed-Holds s two inv)
  sought fuel r s two inv (inr some) =
      let ne = nonzero_item s.heap.next s.list r inv.xs inv.walk some in
      rw (ne→== r 0 ne) (found-Holds r s inv some)

  pub find_round-Holds :
      (fuel i : ℕ) (s : Finding)
      → 2 ≤ length all
      → length all < fuel
      → Holds old all s.list s.heap
      → (t : Finding) × (find_round fuel i s ≡ ok t) × Holds old all t.list t.heap
  unfolding find_round
  find_round-Holds fuel i s two enough inv =
      let info : ListData = record { data16 = i % 2 ^ 8; idx = s.info.idx } in
      let chain = Walk-Chain s.heap.next s.list inv.xs inv.walk (Holds-once inv) in
      let (r, finds, first) =
        core_list_find_lem fuel s.heap s.list info inv.xs chain
          (λ a i. Holds-full inv a (count_has a inv.xs i)) (omega (arith, inv.whole)) in
      let (out, reverses, chain', only) =
        core_list_reverse_lem fuel s.heap s.list inv.xs chain (omega (arith, inv.whole)) in
      let items : (a : ℕ) → count a (List.reverse inv.xs) ≡ count a inv.xs =
        λ a. omega (arith, count-reverse_aux a inv.xs []) in
      let s' : Finding = record s { list = out.item; info = info; heap = out.heap } in
      let inv' : Holds old all out.item out.heap = record {
        xs = List.reverse inv.xs;
        walk = Chain-Walk out.heap.next out.item (List.reverse inv.xs) chain';
        items = λ a. items a ∙ inv.items a;
        whole = omega (arith, length-reverse_aux inv.xs [], inv.whole);
        info = only.same_info ∙ inv.info;
        idx = only.same_idx ∙ inv.idx;
        upper = λ d. rw only.same_data16 (inv.upper d);
      } in
      let there : (r ≡ 0) ⊎ (0 < count r (List.reverse inv.xs)) = elim (found_in first) [
        | inl none ↦ inl none
        | inr some ↦ inr (omega (arith, items r))
      ] in
      let (t, e, done) = sought fuel r s' two inv' there in
      (after_round info t, rw (finds, reverses, e) refl, done)

  pub find_loop-Holds :
      (fuel n : ℕ) (s : Finding)
      → 2 ≤ length all
      → length all < fuel
      → Holds old all s.list s.heap
      → (t : Finding) × (for_loop n 0 (find_round fuel) s ≡ ok t) × Holds old all t.list t.heap
  find_loop-Holds fuel n s two enough inv =
      let total : 0 + n ≡ n = omega arith in
      for_loop_inv (λ k t. Holds old all t.list t.heap) (find_round fuel) n 0 n s total
        (λ k t lt h. find_round-Holds fuel k t two enough h) inv
