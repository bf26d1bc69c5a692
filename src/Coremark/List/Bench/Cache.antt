-- ===== src/Coremark/List/Bench/Cache.antt =====
-- The move of core_bench_list that caches an item at the head of the list.
use gandiva.Base.{
  ℕ, ◌+◌, ◌≤◌, ◌<◌, ◌≡◌, ◌≢◌, refl, sym, ap, ◌∙◌, arith, inl, inr, Bool-cases, ◌==◌, ne→==, List,
  [], ◌∷◌, ◌++◌, length, length-append, append_one, ok, Run,
}
use gandiva.Coremark.List.{Heap, write}
use gandiva.Coremark.List.Chain.{write_self, write-ne}
use gandiva.Coremark.List.Runs.{count, count-append, count_self}
use gandiva.Coremark.List.Walk.{Walk, Walk-write, Walk-split, Walk-end, Walk-join}
use gandiva.Coremark.List.Bench.{cache_next}

pub split_at :
    (t : ℕ) (xs : List ℕ)
    → 0 < count t xs
    → (before : List ℕ) × (after : List ℕ) × (xs ≡ before ++ t ∷ after)
split_at t [] some = absurd (omega arith)
split_at t (x ∷ xs) some = elim (Bool-cases (t == x)) [
  | inl same ↦ let e : t ≡ x = ground arith in ([], xs, rw e refl)
  | inr other ↦
      let (before, after, e) = split_at t xs (ground arith) in (x ∷ before, after, ap (◌∷◌ x) e)
]

pub out_ne : (x y : ℕ) (ys : List ℕ) → count x (y ∷ ys) ≡ 0 → x ≢ y
out_ne x y ys none e = omega (arith, ap (λ z. count z (y ∷ ys)) e, count_self y ys)

pub count_rest : (x y : ℕ) (ys : List ℕ) → count x (y ∷ ys) ≡ 0 → count x ys ≡ 0
count_rest x y ys none = omega arith

count_other : (x y : ℕ) (ys : List ℕ) → x ≢ y → count x (y ∷ ys) ≡ count x ys
count_other x y ys apart = ground (arith, apart)

-- The links after the item `f` behind `t` was moved behind the head `l`.
abbrev moved : ℕ → ℕ → ℕ → (ℕ → ℕ) → ℕ → ℕ
moved t l f next = let cut = write next t (next f) in write (write cut f (cut l)) l f

cache_none : (t l : ℕ) (h : Heap) → t ≢ 0 → h.next t ≡ 0 → cache_next t l h ≡ ok h
unfolding cache_next
cache_none t l h ne last = rw (ne→== t 0 ne, last) refl

cache_moved :
    (t l f : ℕ) (h : Heap)
    → t ≢ 0
    → l ≢ 0
    → f ≢ 0
    → h.next t ≡ f
    → cache_next t l h ≡ ok (record h { next = moved t l f h.next })
unfolding cache_next
cache_moved t l f h ne_t ne_l ne_f is = rw (ne→== t 0 ne_t, is, ne→== f 0 ne_f, ne→== l 0 ne_l) refl

module _ (f : ℕ → ℕ) (l a : ℕ) (after : List ℕ) where
  -- The item found is the head.
  moved_first :
      Walk f l (l ∷ a ∷ after) 0
      → ((z : ℕ) → count z (l ∷ a ∷ after) ≤ 1)
      → Walk (moved l l a f) l (l ∷ a ∷ after) 0
  moved_first (at, ne, (next, ne_a, w)) once =
      let none_l : count l (a ∷ after) ≡ 0 = omega (arith, once l, count_self l (a ∷ after)) in
      let apart : a ≢ l = λ e. out_ne l a after none_l (sym e) in
      let cut = write f l (f a) in
      let fresh_l : count l after ≡ 0 = count_rest l a after none_l in
      let fresh_a : count a after ≡ 0 = omega (arith, once a, count_self a after) in
      let after_a : moved l l a f a ≡ f a =
        write-ne (write cut a (cut l)) l a a apart
        ∙ write_self cut a (cut l)
        ∙ write_self f l (f a) in
      let w₃ =
        Walk-write (write cut a (cut l)) l a (f a) after 0
          (Walk-write cut a (cut l) (f a) after 0 (Walk-write f l (f a) (f a) after 0 w fresh_l)
            fresh_a)
          fresh_l in
      (refl, ne, (write_self (write cut a (cut l)) l a, ne_a, rw after_a w₃))

  moved_later :
      (t : ℕ) (before : List ℕ)
      → Walk f l (l ∷ (before ++ t ∷ a ∷ after)) 0
      → ((z : ℕ) → count z (l ∷ (before ++ t ∷ a ∷ after)) ≤ 1)
      → Walk (moved t l a f) l (l ∷ a ∷ ((before ++ t ∷ []) ++ after)) 0
  moved_later t before (at, ne, walk) once =
      let rest = a ∷ after in
      let sum : (z : ℕ) → count z before + count z (t ∷ rest) ≤ 1 =
        λ z. ground (arith, once z, count-append z before (t ∷ rest)) in
      let none_l : count l before + count l (t ∷ rest) ≡ 0 =
        omega
          (arith, once l, count_self l (before ++ t ∷ rest), count-append l before (t ∷ rest)) in
      let none_t : count t before + count t rest ≡ 0 = omega (arith, sum t, count_self t rest) in
      let l_t : l ≢ t = out_ne l t rest (omega arith) in
      let l_a : l ≢ a = out_ne l a after (count_rest l t rest (omega arith)) in
      let t_a : t ≢ a = out_ne t a after (omega arith) in
      let none_a : count a before + count a after ≡ 0 =
        omega (arith, sum a, count_self a after, count_other a t rest (λ e. t_a (sym e))) in
      let items = (before ++ t ∷ []) ++ after in
      let (m, u, (at_m, ne_a, v)) =
        Walk-split f (f l) (before ++ t ∷ []) rest 0 (rw (append_one before t rest) at walk) in
      let cut = write f t (f a) in
      let u' = Walk-end f (f l) t (f a) before m u (omega arith) in
      let v' = Walk-write f t (f a) (f a) after 0 v (count_rest t a after (omega arith)) in
      let after_l : cut l ≡ f l = write-ne f t (f a) l l_t in
      let w = Walk-join cut (f l) (before ++ t ∷ []) after (f a) 0 u' v' in
      let next = write cut a (cut l) in
      let out_l : count l items ≡ 0 = omega (
        arith,
        count-append l (before ++ t ∷ []) after,
        count-append l before (t ∷ []),
        count_other l t [] l_t,
        count_rest l a after (count_rest l t rest (omega arith)),
      ) in
      let out_a : count a items ≡ 0 = omega (
        arith,
        count-append a (before ++ t ∷ []) after,
        count-append a before (t ∷ []),
        count_other a t [] (λ e. t_a (sym e)),
      ) in
      let after_a : moved t l a f a ≡ f l =
        write-ne next l a a (λ e. l_a (sym e)) ∙ write_self cut a (cut l) ∙ after_l in
      let w' =
        Walk-write next l a (f l) items 0 (Walk-write cut a (cut l) (f l) items 0 w out_a) out_l in
      (refl, ne, (write_self next l a, ne_a, rw after_a w'))

-- The list after the move: a walk through the same items.
record Moved (l : ℕ) (h : Heap) (xs : List ℕ) (r : Run Heap) : Type 0 where
  next : ℕ → ℕ
  ys : List ℕ
  returns : r ≡ ok (record h { next = next })
  walk : Walk next l ys 0
  items : (z : ℕ) → count z ys ≡ count z xs
  whole : length ys ≡ length xs

cached_at :
    (t l : ℕ) (h : Heap) (before after : List ℕ)
    → Walk h.next l (before ++ t ∷ after) 0
    → ((z : ℕ) → count z (before ++ t ∷ after) ≤ 1)
    → Moved l h (before ++ t ∷ after) (cache_next t l h)
cached_at t l h before [] walk once =
    let (m, u, (at, ne, last)) = Walk-split h.next l before (t ∷ []) 0 walk in
    record {
      next = h.next;
      ys = before ++ t ∷ [];
      returns = cache_none t l h ne last;
      walk = walk;
      items = λ z. refl;
      whole = refl;
    }
cached_at t l h [] (a ∷ after) (at, ne, (is, ne_a, w)) once = record {
  next = moved t t a h.next;
  ys = t ∷ a ∷ after;
  returns = rw at (cache_moved t t a h ne ne ne_a is);
  walk = rw at (moved_first h.next t a after (refl, ne, (is, ne_a, w)) once);
  items = λ z. refl;
  whole = refl;
}
cached_at t l h (x ∷ before) (a ∷ after) (at, ne, w) once =
    let (m, u, (at_t, ne_t, (is, ne_a, w'))) =
      Walk-split h.next (h.next x) before (t ∷ a ∷ after) 0 w in
    record {
      next = moved t x a h.next;
      ys = x ∷ a ∷ ((before ++ t ∷ []) ++ after);
      returns = rw at (cache_moved t x a h ne_t ne ne_a is);
      walk = rw at (moved_later h.next x a after t before (refl, ne, w) once);
      items = λ z. omega (
        arith,
        count-append z before (t ∷ a ∷ after),
        count-append z (before ++ t ∷ []) after,
        count-append z before (t ∷ []),
      );
      whole = omega (
        arith,
        length-append {0} before (t ∷ a ∷ after),
        length-append {0} (before ++ t ∷ []) after,
        length-append {0} before (t ∷ []),
      );
    }

-- The move returns, and changes links only: the walk from the head goes through the same items.
pub cache_next-Walk :
    (t l : ℕ) (h : Heap) (xs : List ℕ)
    → Walk h.next l xs 0
    → ((z : ℕ) → count z xs ≤ 1)
    → 0 < count t xs
    → (next : ℕ → ℕ) × (ys : List ℕ) × (cache_next t l h ≡ ok (record h { next = next }))
      × Walk next l ys 0
      × ((z : ℕ) → count z ys ≡ count z xs)
      × (length ys ≡ length xs)
cache_next-Walk t l h xs walk once some =
    let (before, after, is) = split_at t xs some in
    let t' = cached_at t l h before after (rw is at walk) (rw is at once) in
    (t'.next, t'.ys, t'.returns, t'.walk, λ z. rw is (t'.items z), rw is t'.whole)
