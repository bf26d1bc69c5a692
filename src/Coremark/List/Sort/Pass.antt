-- ===== src/Coremark/List/Sort/Pass.antt =====
-- A pass of core_list_mergesort over the list: its runs are merged in pairs.
use gandiva.Base.{
  ℕ, zero, suc, ◌+◌, ◌*◌, ◌≤◌, ◌<◌, ◌≡◌, ◌≢◌, refl, arith, ◌⊎◌, inl, inr, Option, List, [], ◌∷◌,
  ◌++◌, length, length-append, ap, append_assoc, append-nil, Run, ok,
}
use gandiva.Coremark.Calc.{Results}
use gandiva.Coremark.List.{Heap}
use gandiva.Coremark.List.Runs.{
  count, count-append, concat, InOrder, AllInOrder, InOrder-mono, AllInOrder-mono, Sized, number_of,
}
use gandiva.Coremark.List.Walk.{Walk, Walk-split}
use gandiva.Coremark.List.Sort.{ListCmp, Merging, step_along, merge_loop, pass_loop}
use gandiva.Coremark.List.Sort.Along.{
  step_along-Walk, Sized-head, none_left, Sized-cons, not_null, pass_ends, pass_round,
}
use gandiva.Coremark.List.Sort.Merge.{merge_loop-Merged}
use gandiva.Coremark.List.Sort.Output.{IsOrdering, Output}

module _ (cmp : ListCmp) (R : Heap → Option Results → ℕ → ℕ → Type 0) (Good : ℕ → Type 0)
    (Inv : Heap → Option Results → Type 0) (law : IsOrdering cmp R Good Inv) (all : List ℕ)
    (once : (a : ℕ) → count a all ≤ 1) (good : (a : ℕ) → 0 < count a all → Good a) where
  -- Between two merges of a pass: the output, and the rest of the list from `p` on.
  pub record Passes (out rest : List ℕ) (m : Merging) : Type 0 where
    pub walk : Walk m.heap.next m.p rest 0
    pub output : Output m.heap.next m.list m.tail out
    pub items : (a : ℕ) → count a out + count a rest ≡ count a all
    pub inv : Inv m.heap m.res

  -- One merge of a pass, of the runs `b` and `c`, into the run `d`.
  record MergedOnce (k : ℕ) (out b c rest : List ℕ) (m : Merging) : Type 0 where
    along : ℕ × ℕ
    result : Merging
    d : List ℕ
    steps : step_along k m.heap m.p 0 ≡ ok along
    returns :
        merge_loop (2 * k + 1) cmp (record m { q = along.0; psize = along.1; qsize = k })
        ≡ ok result
    state : Passes (out ++ d) rest (record result { p = result.q })
    order : InOrder (R result.heap result.res) d
    whole : length d ≡ length b + length c
    grows : (u v : ℕ) → R m.heap m.res u v → R result.heap result.res u v

  merge_once :
      (k : ℕ) (out b c rest : List ℕ) (m : Merging)
      → Passes out (b ++ (c ++ rest)) m
      → InOrder (R m.heap m.res) b
      → InOrder (R m.heap m.res) c
      → 0 < length b
      → length b ≤ k
      → (c ++ rest ≡ []) ⊎ (length b ≡ k)
      → length c ≤ k
      → (rest ≡ []) ⊎ (k ≡ length c)
      → MergedOnce k out b c rest m
  merge_once k out b c rest m s ob oc some fits full fits' full' =
      let (q, e, walk_b, walk) =
        step_along-Walk k b (c ++ rest) m.heap m.p 0 s.walk fits full (inr some) in
      let (end, walk_c, walk_rest) = Walk-split m.heap.next q c rest 0 walk in
      let m₁ : Merging = record m { q = q; psize = length b; qsize = k } in
      let t =
        merge_loop-Merged cmp R Good Inv law all once good (2 * k + 1) out [] b c rest m₁
          (record {
            end_p = q;
            end_q = end;
            walk_p = walk_b;
            walk_q = walk_c;
            walk_rest = walk_rest;
            output = s.output;
            psize = refl;
            qsize = fits';
            qsize_full = full';
            items =
                λ a. omega (arith, s.items a, count-append a b (c ++ rest), count-append a c rest);
            inv = s.inv;
          })
          ob oc (omega arith) in
      let size : 0 + length b ≡ length b = omega arith in
      record {
        along = (q, length b);
        result = t.result;
        d = t.more;
        steps = rw size at e;
        returns = t.returns;
        state = record {
          walk = rw t.state.walk_q t.state.walk_rest;
          output = t.state.output;
          items = λ a. omega (arith, t.state.items a);
          inv = t.state.inv;
        };
        order = t.order;
        whole = t.whole;
        grows = t.grows;
      }

  -- What a pass makes of the runs `bs` of `k` items: the runs `ds`.
  pub record Passed (k n : ℕ) (out : List ℕ) (bs : List (List ℕ)) (m : Merging)
      (r : Run (ℕ × Merging)) : Type 0 where
    pub result : Merging
    pub ds : List (List ℕ)
    pub returns : r ≡ ok (n + number_of ds, result)
    pub state : Passes (out ++ concat ds) [] result
    pub order : AllInOrder (R result.heap result.res) ds
    pub sized : Sized (2 * k) ds
    pub fewer : number_of ds * 2 ≤ number_of bs + 1
    pub some : number_of bs ≤ number_of ds * 2
    pub whole : length (concat ds) ≡ length (concat bs)
    pub grows : (u v : ℕ) → R m.heap m.res u v → R result.heap result.res u v

  -- A merge, and the merges after it.
  after_merge :
      (fuel k n : ℕ) (out b c : List ℕ) (bs : List (List ℕ)) (m : Merging)
      → m.p ≢ 0
      → (t : MergedOnce k out b c (concat bs) m)
      → (u : Passed k
          (n + 1)
          (out ++ t.d)
          bs
          (record t.result { p = t.result.q })
          (pass_loop fuel cmp k (n + 1) (record t.result { p = t.result.q })))
      → 0 < length t.d
      → length t.d ≤ 2 * k
      → (u.ds ≡ []) ⊎ (length t.d ≡ 2 * k)
      → (ds : List (List ℕ)) × (ds ≡ t.d ∷ u.ds)
        × (pass_loop (suc fuel) cmp k n m ≡ ok (n + number_of ds, u.result))
        × Passes (out ++ concat ds) [] u.result
        × AllInOrder (R u.result.heap u.result.res) ds
        × Sized (2 * k) ds
        × (length (concat ds) ≡ length b + length c + length (concat bs))
        × ((u' v : ℕ) → R m.heap m.res u' v → R u.result.heap u.result.res u' v)
  after_merge fuel k n out b c bs m ne t u some fits full =
      let total : n + 1 + number_of u.ds ≡ n + suc (number_of u.ds) = omega arith in
      (
        t.d ∷ u.ds,
        refl,
        rw total at (
            pass_round cmp fuel k n m t.result t.along (ok (n + 1 + number_of u.ds, u.result)) ne
              t.steps t.returns u.returns),
        rw (append_assoc out t.d (concat u.ds)) at u.state,
        (InOrder-mono u.grows t.d t.order, u.order),
        Sized-cons (2 * k) t.d u.ds u.sized some fits full,
        omega (arith, length-append {0} t.d (concat u.ds), u.whole, t.whole),
        λ x y le. u.grows x y (t.grows x y le),
      )

  pub pass_loop-Passed :
      (fuel k n : ℕ) (out : List ℕ) (bs : List (List ℕ)) (m : Merging)
      → Passes out (concat bs) m
      → AllInOrder (R m.heap m.res) bs
      → 0 < k
      → Sized k bs
      → number_of bs < fuel
      → Passed k n out bs m (pass_loop fuel cmp k n m)
  pass_loop-Passed zero k n out bs m s os pos sized enough = absurd (omega arith)
  pass_loop-Passed (suc fuel) k n out [] m s os pos sized enough =
      let total : n + 0 ≡ n = omega arith in
      record {
        result = m;
        ds = [];
        returns = rw total (pass_ends cmp fuel k n m s.walk);
        state = rw (append-nil out) s;
        order = tt;
        sized = tt;
        fewer = omega arith;
        some = omega arith;
        whole = refl;
        grows = λ u v le. le;
      }
  pass_loop-Passed (suc fuel) k n out (b ∷ []) m s (ob, os) pos (some, fits) enough =
      let t = merge_once k out b [] [] m s ob tt some fits (inl refl) (omega arith) (inl refl) in
      let u =
        pass_loop-Passed fuel k (n + 1) (out ++ t.d) [] (record t.result { p = t.result.q }) t.state
          tt pos tt (omega arith) in
      let (ds, is, returns, state, order, sized', whole, grows) =
        after_merge fuel k n out b [] [] m (not_null m.heap.next m.p b [] 0 s.walk some) t u
          (omega (arith, t.whole)) (omega (arith, t.whole)) (inl (none_left u.ds u.fewer)) in
      let number = ap number_of is in
      record {
        result = u.result;
        ds = ds;
        returns = returns;
        state = state;
        order = order;
        sized = sized';
        fewer = omega (arith, u.fewer, number);
        some = omega (arith, number);
        whole = omega (arith, whole, length-append {0} b []);
        grows = grows;
      }
  pass_loop-Passed (suc fuel) k n out (b ∷ c ∷ bs) m s (ob, (oc, os)) pos (full, sized) enough =
      let (fits, full', sized') = Sized-head k c bs sized in
      let t =
        merge_once k out b c (concat bs) m s ob oc (omega arith) (omega arith) (inr full) fits
          (elim full' [ inl none ↦ inl (ap concat none) | inr e ↦ inr e ]) in
      let u =
        pass_loop-Passed fuel k (n + 1) (out ++ t.d) bs (record t.result { p = t.result.q }) t.state
          (AllInOrder-mono t.grows bs os) pos sized' (omega arith) in
      let more : (u.ds ≡ []) ⊎ (length t.d ≡ 2 * k) = elim full' [
        | inl none ↦ inl (none_left u.ds (omega (arith, u.fewer, ap number_of none)))
        | inr full_c ↦ inr (omega (arith, t.whole))
      ] in
      let (ds, is, returns, state, order, sized₁, whole, grows) =
        after_merge fuel k n out b c bs m
          (not_null m.heap.next m.p b (c ++ concat bs) 0 s.walk (omega arith)) t u
          (omega (arith, t.whole)) (omega (arith, t.whole)) more in
      let number = ap number_of is in
      record {
        result = u.result;
        ds = ds;
        returns = returns;
        state = state;
        order = order;
        sized = sized₁;
        fewer = omega (arith, u.fewer, number);
        some = omega (arith, u.some, number);
        whole =
            omega
              (arith, whole, length-append {0} b (c ++ concat bs), length-append {0} c (concat bs));
        grows = grows;
      }
