-- ===== src/Coremark/List/Sort/Choose.antt =====
-- What a round of the inner loop of core_list_mergesort chooses, for each shape of the two runs.
use gandiva.Base.{ℕ, ◌<◌, ◌≡◌, ◌≢◌, refl, arith, ◌⊎◌, ◌==◌, ne→==, true, false, Option, Bool, ok}
use gandiva.Coremark.Calc.{Results}
use gandiva.Coremark.List.{Heap}
use gandiva.Coremark.List.Sort.{ListCmp, Merging, compare_heads, choose}
use gandiva.Coremark.List.Sort.Output.{prefers, IsOrdering}

module _ (cmp : ListCmp) where
  pub choose_q :
      (m : Merging)
      → m.psize ≡ 0
      → choose cmp m ≡ ok (record { from_p = false; heap = m.heap; res = m.res })
  unfolding choose
  choose_q m e = rw e refl

  pub choose_p :
      (m : Merging)
      → 0 < m.psize
      → (m.qsize ≡ 0) ⊎ (m.q ≡ 0)
      → choose cmp m ≡ ok (record { from_p = true; heap = m.heap; res = m.res })
  unfolding choose
  choose_p m some ends = ground arith

module _ (cmp : ListCmp) (R : Heap → Option Results → ℕ → ℕ → Type 0) (Good : ℕ → Type 0)
    (Inv : Heap → Option Results → Type 0) (law : IsOrdering cmp R Good Inv) where
  pub choose_both :
      (x y : ℕ) (m : Merging)
      → 0 < m.psize
      → 0 < m.qsize
      → m.p ≡ x
      → m.q ≡ y
      → x ≢ 0
      → y ≢ 0
      → Good x
      → Good y
      → Inv m.heap m.res
      → (h : Heap) × (res : Option Results) × (first : Bool) × (h.next ≡ m.heap.next)
        × Inv h res
        × (choose cmp m ≡ ok (record { from_p = first; heap = h; res = res }))
        × ((u v : ℕ) → R m.heap m.res u v → R h res u v)
        × (first ≡ true → R h res x y)
        × (first ≡ false → R h res y x)
  unfolding choose compare_heads
  choose_both x y m some_p some_q at_p at_q ne_x ne_y gx gy inv =
      let (r, e, links, inv', grows, from_p, from_q) = law.compares x y m.heap m.res inv gx gy in
      let no_psize : (m.psize == 0) ≡ false = ground arith in
      let no_qsize : (m.qsize == 0) ≡ false = ground arith in
      (
        r.heap,
        r.res,
        prefers r,
        links,
        inv',
        rw (no_psize, no_qsize, at_p, at_q, ne→== x 0 ne_x, ne→== y 0 ne_y, e) refl,
        grows,
        from_p,
        from_q,
      )
