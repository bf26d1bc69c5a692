-- ===== src/Coremark/List/Relink.antt =====
-- core_list_reverse, core_list_remove and core_list_undo_remove: what they make of the chain.
use mathlib.Core.List
use mathlib.Core.Path.{fun_ext}
use gandiva.Base.{
  ℕ, zero, suc, ◌<◌, ◌≡◌, ◌≢◌, refl, sym, ap, ◌∙◌, arith, inl, inr, Bool-cases, ◌==◌, ne→==, true,
  false, List, [], ◌∷◌, ok, ◌>>=◌, length,
}
use gandiva.Coremark.List.{
  Heap, write, Linked, linked, core_list_remove, core_list_undo_remove, reverse_loop,
  core_list_reverse,
}
use gandiva.Coremark.List.Chain.{
  has, Chain, nil, cons, Chain-uncons, Chain-write, write_self, write-ne,
}

-- Outside the items `xs` the heap is as it was, and so are all items but for their links.
pub record OnlyLinks (xs : List ℕ) (h g : Heap) : Type 0 where
  pub same_info : g.info ≡ h.info
  pub same_data16 : g.data16 ≡ h.data16
  pub same_idx : g.idx ≡ h.idx
  pub same_next : (a : ℕ) → has a xs ≡ false → g.next a ≡ h.next a

reverse_loop-Chain :
    (k : ℕ) (h : Heap) (list next : ℕ) (xs ys : List ℕ)
    → Chain h.next list xs
    → Chain h.next next ys
    → ((a : ℕ) → has a xs ≡ true → has a ys ≡ false)
    → length xs < k
    → (out : Linked) × (reverse_loop k list next h ≡ ok out)
      × Chain out.heap.next out.item (List.reverse_aux xs ys)
      × OnlyLinks xs h out.heap
unfolding reverse_loop
reverse_loop-Chain zero h list next xs ys s t apart fuel = absurd (omega arith)
reverse_loop-Chain (suc k) h list next [] ys nil t apart fuel = (
  linked next h,
  refl,
  t,
  record { same_info = refl; same_data16 = refl; same_idx = refl; same_next = λ a o. refl },
)
reverse_loop-Chain (suc k) h list next (x ∷ xs) ys (cons {q} ne e out s) t apart fuel =
    let new : has x ys ≡ false = apart x (ground arith) in
    let h' : Heap = record h { next = write h.next x next } in
    let (r, run, chain, only) =
      reverse_loop-Chain k h' q x xs (x ∷ ys) (Chain-write x next s out)
        (cons ne (write_self h.next x next) new (Chain-write x next t new))
        (λ a i. ground (arith, apart a)) (omega arith) in
    (
      r,
      rw (ne→== x 0 ne, e) run,
      chain,
      record {
        same_info = only.same_info;
        same_data16 = only.same_data16;
        same_idx = only.same_idx;
        same_next = λ a o. ground (arith, only.same_next a, write-ne h.next x next a);
      },
    )

-- core_list_reverse on a chain of distinct items, with more fuel than items, returns the chain of
-- the same items in reverse order, and changes nothing but their links.
pub core_list_reverse_lem :
    (fuel : ℕ) (h : Heap) (list : ℕ) (xs : List ℕ)
    → Chain h.next list xs
    → length xs < fuel
    → (out : Linked) × (core_list_reverse fuel list h ≡ ok out)
      × Chain out.heap.next out.item (List.reverse xs)
      × OnlyLinks xs h out.heap
unfolding core_list_reverse
core_list_reverse_lem fuel h list xs s enough =
    reverse_loop-Chain fuel h list 0 xs [] s nil (λ a i. refl) enough

-- What core_list_remove leaves of an item `p` before an item `q`: `p` takes over the data of `q`.
abbrev pub removed : ℕ → ℕ → Heap → Heap
removed p q h = record h {
  next = write (write h.next p (h.next q)) q 0;
  info = write (write h.info p (h.info q)) q (h.info p);
}

pub core_list_remove-removed :
    (p : ℕ) (h : Heap)
    → p ≢ 0
    → h.next p ≢ 0
    → core_list_remove p h ≡ ok (linked (h.next p) (removed p (h.next p) h))
unfolding core_list_remove
core_list_remove-removed p h ne ne' = rw (ne→== p 0 ne, ne→== (h.next p) 0 ne') refl

-- core_list_remove at an item that another one follows returns, and the chain from the item is
-- one item shorter: the item stays in its place, with the data of the next one, which is cut off.
pub core_list_remove_lem :
    (h : Heap) (p q : ℕ) (xs : List ℕ)
    → Chain h.next p (p ∷ q ∷ xs)
    → (out : Linked) × (core_list_remove p h ≡ ok out)
      × (out.item ≡ q)
      × Chain out.heap.next p (p ∷ xs)
      × (out.heap.info p ≡ h.info q)
      × (out.heap.info q ≡ h.info p)
      × (out.heap.next q ≡ 0)
unfolding write
core_list_remove_lem h p q xs chain =
    let (refl_p, ne, out, rest) = Chain-uncons chain in
    let (e, ne_next, out', s) = Chain-uncons rest in
    let ne' : q ≢ 0 = rw (sym e) ne_next in
    let fresh : has q xs ≡ false = rw (sym e) out' in
    let tail : Chain h.next (h.next q) xs = rw (sym e) s in
    let apart : q ≢ p = λ same. ground (arith, out) in
    let out_xs : has p xs ≡ false = ground (arith, out) in
    (
      linked q (removed p q h),
      rw (core_list_remove-removed p h ne ne_next, e) refl,
      refl,
      cons ne (ground (arith, apart)) out_xs
          (Chain-write q 0 (Chain-write p (h.next q) tail out_xs) fresh),
      ground (arith, apart),
      ground arith,
      ground arith,
    )

write-eq : (f : ℕ → ℕ) (p v a : ℕ) → a ≡ p → write f p v a ≡ v
unfolding write
write-eq f p v a e = ground arith

overwritten :
    (f : ℕ → ℕ) (p q u v w z : ℕ)
    → w ≡ f q
    → z ≡ f p
    → write (write (write (write f p v) q u) q w) p z ≡ f
overwritten f p q u v w z back_q back_p = fun_ext λ a. elim (Bool-cases (a == p)) [
  | inl at_p ↦
      let e : a ≡ p = ground arith in
      write-eq (write (write (write f p v) q u) q w) p z a e ∙ back_p ∙ ap f (sym e)
  | inr not_p ↦
      let d : a ≢ p = λ e. ground arith in
      write-ne (write (write (write f p v) q u) q w) p z a d ∙ elim (Bool-cases (a == q)) [
        | inl at_q ↦
            let e : a ≡ q = ground arith in
            write-eq (write (write f p v) q u) q w a e ∙ back_q ∙ ap f (sym e)
        | inr not_q ↦
            let d' : a ≢ q = λ e. ground arith in
            write-ne (write (write f p v) q u) q w a d'
            ∙ write-ne (write f p v) q u a d'
            ∙ write-ne f p v a d
      ]
]

-- core_list_undo_remove takes core_list_remove back: after the removal at an item that another one
-- follows, it returns the removed item, in the heap as it was.
pub core_list_undo_remove-core_list_remove :
    (h : Heap) (p : ℕ)
    → p ≢ 0
    → h.next p ≢ 0
    → h.next p ≢ p
    → (core_list_remove p h >>= λ r. core_list_undo_remove r.item p r.heap)
      ≡ ok (linked (h.next p) h)
unfolding core_list_undo_remove
core_list_undo_remove-core_list_remove h p ne ne' apart =
    let q = h.next p in
    let once : write (write h.next p (h.next q)) q 0 p ≡ h.next q =
      write-ne (write h.next p (h.next q)) q 0 p (λ e. apart (sym e))
      ∙ write_self h.next p (h.next q) in
    let swapped : write (write h.info p (h.info q)) q (h.info p) p ≡ h.info q =
      write-ne (write h.info p (h.info q)) q (h.info p) p (λ e. apart (sym e))
      ∙ write_self h.info p (h.info q) in
    rw
      (
        core_list_remove-removed p h ne ne',
        ne→== p 0 ne,
        ne→== q 0 ne',
        overwritten h.next p q 0 (h.next q) _ q once refl,
        overwritten h.info p q (h.info p) (h.info q) _ _ swapped
            (write_self (write h.info p (h.info q)) q (h.info p)),
      )
      refl
