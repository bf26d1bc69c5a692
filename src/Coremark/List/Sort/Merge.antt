-- ===== src/Coremark/List/Sort/Merge.antt =====
-- The inner loop of core_list_mergesort: two runs of the list are merged onto the output.
use gandiva.Base.{
  ℕ, zero, suc, ◌+◌, ◌-◌, ◌≤◌, ◌<◌, ◌≡◌, refl, ◌∙◌, arith, ◌⊎◌, inl, inr, Bool-cases, ◌==◌, ltb,
  ne→==, true, false, not, ◌&&◌, ◌||◌, Option, List, [], ◌∷◌, ◌++◌, length, append_one, append-nil,
  ap, Run, ok,
}
use gandiva.Coremark.Calc.{Results}
use gandiva.Coremark.List.{Heap}
use gandiva.Coremark.List.Runs.{
  count, count-append, count_self, InOrder, InOrder-mono, InOrder-taken, InOrder-last,
  InOrder-passed,
}
use gandiva.Coremark.List.Walk.{Walk, Walk-same}
use gandiva.Coremark.List.Sort.{ListCmp, Merging, choose, take_from, merge_step, merge_loop}
use gandiva.Coremark.List.Sort.Choose.{choose_q, choose_p, choose_both}
use gandiva.Coremark.List.Sort.Output.{loop_ends, IsOrdering, Output, append-Output}

module _ (cmp : ListCmp) (R : Heap → Option Results → ℕ → ℕ → Type 0) (Good : ℕ → Type 0)
    (Inv : Heap → Option Results → Type 0) (law : IsOrdering cmp R Good Inv) (all : List ℕ)
    (once : (a : ℕ) → count a all ≤ 1) (good : (a : ℕ) → 0 < count a all → Good a) where
  -- The items of `all` are those of the output, of the two runs `ps` and `qs`, and of the rest.
  pub record Merges (out ps qs rest : List ℕ) (m : Merging) : Type 0 where
    pub end_p : ℕ
    pub end_q : ℕ
    pub walk_p : Walk m.heap.next m.p ps end_p
    pub walk_q : Walk m.heap.next m.q qs end_q
    pub walk_rest : Walk m.heap.next end_q rest 0
    pub output : Output m.heap.next m.list m.tail out
    pub psize : m.psize ≡ length ps
    pub qsize : length qs ≤ m.qsize
    pub qsize_full : (rest ≡ []) ⊎ (m.qsize ≡ length qs)
    pub items : (a : ℕ) → count a out + count a ps + count a qs + count a rest ≡ count a all
    pub inv : Inv m.heap m.res

  -- A new heap with the same links.
  Merges-heap :
      {out ps qs rest : List ℕ} {m : Merging} (h : Heap) (res : Option Results)
      → h.next ≡ m.heap.next
      → Inv h res
      → Merges out ps qs rest m
      → Merges out ps qs rest (record m { heap = h; res = res })
  Merges-heap h res e inv s = record {
    end_p = s.end_p;
    end_q = s.end_q;
    walk_p = rw e s.walk_p;
    walk_q = rw e s.walk_q;
    walk_rest = rw e s.walk_rest;
    output = rw e s.output;
    psize = s.psize;
    qsize = s.qsize;
    qsize_full = s.qsize_full;
    items = s.items;
    inv = inv;
  }

  module _ (out rest : List ℕ) (m : Merging) (h : Heap) (res : Option Results)
      (links : h.next ≡ m.heap.next) (inv' : Inv h res) where
    emit_p :
        (x : ℕ) (ps qs : List ℕ)
        → Merges out (x ∷ ps) qs rest m
        → choose cmp m ≡ ok (record { from_p = true; heap = h; res = res })
        → (m' : Merging) × (merge_step cmp m ≡ ok m')
          × Merges (out ++ x ∷ []) ps qs rest m'
          × ((u v : ℕ) → R h res u v → R m'.heap m'.res u v)
    unfolding merge_step take_from
    emit_p x ps qs s chosen =
        let t = Merges-heap h res links inv' s in
        let (at, ne, walk) = t.walk_p in
        let m₁ : Merging = record m { p = h.next x; psize = m.psize - 1; heap = h; res = res } in
        let (list, next, e, output, same) =
          append-Output m₁ x out ne (omega (arith, s.items x, once x, count_self x ps))
            (λ a. omega (arith, s.items a, once a)) t.output in
        (
          record m₁ { list = list; tail = x; heap = record h { next = next } },
          rw (chosen, at, ne→== x 0 ne) e,
          record {
            end_p = t.end_p;
            end_q = t.end_q;
            walk_p =
                Walk-same h.next next (h.next x) ps t.end_p walk
                  λ a i. same a (omega (arith, s.items a, once a));
            walk_q =
                Walk-same h.next next m.q qs t.end_q t.walk_q
                  λ a i. same a (omega (arith, s.items a, once a));
            walk_rest =
                Walk-same h.next next t.end_q rest 0 t.walk_rest
                  λ a i. same a (omega (arith, s.items a, once a));
            output = output;
            psize = omega (arith, s.psize);
            qsize = s.qsize;
            qsize_full = s.qsize_full;
            items = λ a. omega (arith, s.items a, count-append a out (x ∷ []));
            inv = law.relinks h res next inv';
          },
          law.stays h res next,
        )

    emit_q :
        (y : ℕ) (ps qs : List ℕ)
        → Merges out ps (y ∷ qs) rest m
        → choose cmp m ≡ ok (record { from_p = false; heap = h; res = res })
        → (m' : Merging) × (merge_step cmp m ≡ ok m')
          × Merges (out ++ y ∷ []) ps qs rest m'
          × ((u v : ℕ) → R h res u v → R m'.heap m'.res u v)
    unfolding merge_step take_from
    emit_q y ps qs s chosen =
        let t = Merges-heap h res links inv' s in
        let (at, ne, walk) = t.walk_q in
        let m₁ : Merging = record m { q = h.next y; qsize = m.qsize - 1; heap = h; res = res } in
        let (list, next, e, output, same) =
          append-Output m₁ y out ne (omega (arith, s.items y, once y, count_self y qs))
            (λ a. omega (arith, s.items a, once a)) t.output in
        (
          record m₁ { list = list; tail = y; heap = record h { next = next } },
          rw (chosen, at, ne→== y 0 ne) e,
          record {
            end_p = t.end_p;
            end_q = t.end_q;
            walk_p =
                Walk-same h.next next m.p ps t.end_p t.walk_p
                  λ a i. same a (omega (arith, s.items a, once a));
            walk_q =
                Walk-same h.next next (h.next y) qs t.end_q walk
                  λ a i. same a (omega (arith, s.items a, once a));
            walk_rest =
                Walk-same h.next next t.end_q rest 0 t.walk_rest
                  λ a i. same a (omega (arith, s.items a, once a));
            output = output;
            psize = s.psize;
            qsize = omega (arith, s.qsize);
            qsize_full = ground (arith, s.qsize_full);
            items = λ a. omega (arith, s.items a, count-append a out (y ∷ []));
            inv = law.relinks h res next inv';
          },
          law.stays h res next,
        )

  q_ends :
      (out ps rest : List ℕ) (m : Merging) → Merges out ps [] rest m → (m.qsize ≡ 0) ⊎ (m.q ≡ 0)
  q_ends out ps rest m s = elim s.qsize_full [
    | inl none_left ↦ let z : s.end_q ≡ 0 = rw none_left at s.walk_rest in inr (s.walk_q ∙ z)
    | inr full ↦ inl full
  ]

  stops :
      (out rest : List ℕ) (m : Merging)
      → Merges out [] [] rest m
      → (ltb 0 m.psize || (ltb 0 m.qsize && not (m.q == 0))) ≡ false
  stops out rest m s = elim s.qsize_full [
    | inl none_left ↦
        let z : s.end_q ≡ 0 = rw none_left at s.walk_rest in ground (arith, s.psize, s.walk_q)
    | inr full ↦ ground (arith, s.psize)
  ]

  -- What the loop makes of the two runs: `more`, in the order that the heap has at its end. `cur` is
  -- what it has merged of them before.
  pub record Merged (out cur rest : List ℕ) (size : ℕ) (m : Merging) (r : Run Merging)
      : Type 0 where
    pub result : Merging
    pub more : List ℕ
    pub returns : r ≡ ok result
    pub state : Merges (out ++ more) [] [] rest result
    pub order : InOrder (R result.heap result.res) (cur ++ more)
    pub whole : length more ≡ size
    pub grows : (u v : ℕ) → R m.heap m.res u v → R result.heap result.res u v

  -- A round, and the rounds after it.
  after_round :
      (fuel e size : ℕ) (out cur rest : List ℕ) (m m₁ : Merging)
      → (ltb 0 m.psize || (ltb 0 m.qsize && not (m.q == 0))) ≡ true
      → merge_step cmp m ≡ ok m₁
      → ((u v : ℕ) → R m.heap m.res u v → R m₁.heap m₁.res u v)
      → Merged (out ++ e ∷ []) (cur ++ e ∷ []) rest size m₁ (merge_loop fuel cmp m₁)
      → Merged out cur rest (suc size) m (merge_loop (suc fuel) cmp m)
  unfolding merge_loop
  after_round fuel e size out cur rest m m₁ go step grows t = record {
    result = t.result;
    more = e ∷ t.more;
    returns = rw (go, step) t.returns;
    state = rw (append_one out e t.more) t.state;
    order = rw (append_one cur e t.more) t.order;
    whole = ap suc t.whole;
    grows = λ u v le. t.grows u v (grows u v le);
  }

  pub merge_loop-Merged :
      (fuel : ℕ) (out cur ps qs rest : List ℕ) (m : Merging)
      → Merges out ps qs rest m
      → InOrder (R m.heap m.res) (cur ++ ps)
      → InOrder (R m.heap m.res) (cur ++ qs)
      → length ps + length qs < fuel
      → Merged out cur rest (length ps + length qs) m (merge_loop fuel cmp m)
  merge_loop-Merged zero out cur ps qs rest m s op oq enough = absurd (omega arith)
  merge_loop-Merged (suc fuel) out cur [] [] rest m s op oq enough = record {
    result = m;
    more = [];
    returns = loop_ends cmp fuel m (stops out rest m s);
    state = rw (append-nil out) s;
    order = op;
    whole = refl;
    grows = λ u v le. le;
  }
  merge_loop-Merged (suc fuel) out cur [] (y ∷ qs) rest m s op oq enough =
      let (at, ne, walk) = s.walk_q in
      let (m₁, e, s₁, grows) =
        emit_q out rest m m.heap m.res refl s.inv y [] qs s (choose_q cmp m s.psize) in
      let size = s.qsize in
      let S = R m₁.heap m₁.res in
      let oq' = InOrder-mono grows (cur ++ y ∷ qs) oq in
      let one : suc (0 + length qs) ≡ 0 + suc (length qs) = omega arith in
      rw one at (
        after_round fuel y (0 + length qs) out cur rest m m₁ (ground arith) e grows (
          merge_loop-Merged fuel (out ++ y ∷ []) (cur ++ y ∷ []) [] qs rest m₁ s₁
            (InOrder-last S cur y qs oq') (InOrder-taken S cur y qs oq') (omega arith)))
  merge_loop-Merged (suc fuel) out cur (x ∷ ps) [] rest m s op oq enough =
      let size = s.psize in
      let (m₁, e, s₁, grows) =
        emit_p out rest m m.heap m.res refl s.inv x ps [] s
          (choose_p cmp m (omega arith) (q_ends out (x ∷ ps) rest m s)) in
      let S = R m₁.heap m₁.res in
      let op' = InOrder-mono grows (cur ++ x ∷ ps) op in
      let one : suc (length ps + 0) ≡ suc (length ps) + 0 = omega arith in
      rw one at (
        after_round fuel x (length ps + 0) out cur rest m m₁ (ground arith) e grows (
          merge_loop-Merged fuel (out ++ x ∷ []) (cur ++ x ∷ []) ps [] rest m₁ s₁
            (InOrder-taken S cur x ps op') (InOrder-last S cur x ps op') (omega arith)))
  merge_loop-Merged (suc fuel) out cur (x ∷ ps) (y ∷ qs) rest m s op oq enough =
      let (at_p, ne_p, walk_p) = s.walk_p in
      let (at_q, ne_q, walk_q) = s.walk_q in
      let size_p = s.psize in
      let size_q = s.qsize in
      let good_x = good x (omega (arith, s.items x, count_self x ps)) in
      let good_y = good y (omega (arith, s.items y, count_self y qs)) in
      let (h, res, first, links, inv', chosen, grows, from_p, from_q) =
        choose_both cmp R Good Inv law x y m (omega arith) (omega arith) at_p at_q ne_p ne_q good_x
          good_y s.inv in
      let go : (ltb 0 m.psize || (ltb 0 m.qsize && not (m.q == 0))) ≡ true = ground arith in
      elim (Bool-cases first) [
        | inl is ↦
            let (m₁, e, s₁, stays) =
              emit_p out rest m h res links inv' x ps (y ∷ qs) s (rw is at chosen) in
            let all_grows : (u v : ℕ) → R m.heap m.res u v → R m₁.heap m₁.res u v =
              λ u v le. stays u v (grows u v le) in
            let S = R m₁.heap m₁.res in
            let op' = InOrder-mono all_grows (cur ++ x ∷ ps) op in
            let oq' = InOrder-mono all_grows (cur ++ y ∷ qs) oq in
            let one : suc (length ps + suc (length qs)) ≡ suc (length ps) + suc (length qs) =
              omega arith in
            rw one at (
              after_round fuel x (length ps + suc (length qs)) out cur rest m m₁ go e all_grows (
                merge_loop-Merged fuel (out ++ x ∷ []) (cur ++ x ∷ []) ps (y ∷ qs) rest m₁ s₁
                  (InOrder-taken S cur x ps op')
                  (InOrder-passed S cur x ps y qs op' oq' (stays x y (from_p is))) (omega arith)))
        | inr is ↦
            let (m₁, e, s₁, stays) =
              emit_q out rest m h res links inv' y (x ∷ ps) qs s (rw is at chosen) in
            let all_grows : (u v : ℕ) → R m.heap m.res u v → R m₁.heap m₁.res u v =
              λ u v le. stays u v (grows u v le) in
            let S = R m₁.heap m₁.res in
            let op' = InOrder-mono all_grows (cur ++ x ∷ ps) op in
            let oq' = InOrder-mono all_grows (cur ++ y ∷ qs) oq in
            let one : suc (suc (length ps) + length qs) ≡ suc (length ps) + suc (length qs) =
              omega arith in
            rw one at (
              after_round fuel y (suc (length ps) + length qs) out cur rest m m₁ go e all_grows (
                merge_loop-Merged fuel (out ++ y ∷ []) (cur ++ y ∷ []) (x ∷ ps) qs rest m₁ s₁
                  (InOrder-passed S cur y qs x ps oq' op' (stays y x (from_q is)))
                  (InOrder-taken S cur y qs oq') (omega arith)))
      ]
