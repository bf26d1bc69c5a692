-- ===== src/Coremark/List/Bench/Removal.antt =====
-- The part of core_bench_list between the two sorts: an item is removed, the CRC is taken, and the
-- removal is undone.
use gandiva.Base.{
  ℕ, zero, suc, ◌≤◌, ◌<◌, ◌≡◌, ◌≢◌, refl, sym, ap, ◌∙◌, arith, inl, inr, ◌==◌, ne→==, if◌then◌else◌,
  List, [], ◌∷◌, length, length-append, ok,
}
use gandiva.Coremark.Crc.{crc16}
use gandiva.Coremark.List.{
  Heap, ListData, write, linked, core_list_find, core_list_remove, core_list_undo_remove,
}
use gandiva.Coremark.List.Chain.{write_self, write-ne}
use gandiva.Coremark.List.Find.{core_list_find_lem}
use gandiva.Coremark.List.Relink.{
  removed, core_list_remove-removed, core_list_undo_remove-core_list_remove,
}
use gandiva.Coremark.List.Runs.{count, count_self}
use gandiva.Coremark.List.Walk.{Walk, Walk-write, Walk-split, Walk-Chain}
use gandiva.Coremark.List.Bench.{data_at, crc_loop, remove_and_undo}
use gandiva.Coremark.List.Bench.Cache.{split_at, out_ne, count_rest}
use gandiva.Coremark.List.Bench.Round.{data_at-ok, count_has, found_in, nonzero_item}

pub crc_loop-ok :
    (fuel list finder retval x : ℕ) (h : Heap) (zs : List ℕ)
    → Walk h.next finder zs 0
    → length zs < fuel
    → data_at h list ≡ ok x
    → (crc : ℕ) × (crc_loop fuel list finder retval h ≡ ok crc)
unfolding crc_loop
crc_loop-ok zero list finder retval x h zs walk enough reads = absurd (omega arith)
crc_loop-ok (suc fuel) list finder retval x h [] walk enough reads = (retval, rw walk refl)
crc_loop-ok (suc fuel) list finder retval x h (z ∷ zs) (at, ne, walk) enough reads =
    let (crc, e) =
      crc_loop-ok fuel list (h.next z) (crc16 x retval) x h zs walk (omega arith) reads in
    (crc, rw (at, ne→== z 0 ne, reads) e)

-- The rest of a walk, from an item of it.
pub Walk-from :
    (f : ℕ → ℕ) (p a : ℕ) (xs : List ℕ)
    → Walk f p xs 0
    → 0 < count a xs
    → (zs : List ℕ) × Walk f a zs 0 × (length zs ≤ length xs)
Walk-from f p a xs walk some =
    let (before, after, is) = split_at a xs some in
    let (m, u, (at, ne, w)) = Walk-split f p before (a ∷ after) 0 (rw is at walk) in
    (a ∷ after, (refl, ne, w), omega (arith, ap length is, length-append {0} before (a ∷ after)))

write-ne_zero : (f : ℕ → ℕ) (p v a : ℕ) → v ≢ 0 → f a ≢ 0 → write f p v a ≢ 0
unfolding write
write-ne_zero f p v a some some' e = ground arith

-- The heap after the removal of `q` behind `p`, which stands behind the head `l`.
module _ (h : Heap) (l p q : ℕ) (rest : List ℕ) (walk : Walk h.next l (l ∷ p ∷ q ∷ rest) 0)
    (once : (a : ℕ) → count a (l ∷ p ∷ q ∷ rest) ≤ 1) where
  apart_l : count l (p ∷ q ∷ rest) ≡ 0
  apart_l = omega (arith, once l, count_self l (p ∷ q ∷ rest))

  apart_p : count p (q ∷ rest) ≡ 0
  apart_p = omega (arith, once p, count_self p (q ∷ rest))

  apart_q : count q rest ≡ 0
  apart_q = omega (arith, once q, count_self q rest)

  removed_head : (removed p q h).next l ≡ p
  removed_head =
      let cut = write h.next p (h.next q) in
      write-ne cut q 0 l (out_ne l q rest (count_rest l p (q ∷ rest) apart_l))
      ∙ write-ne h.next p (h.next q) l (out_ne l p (q ∷ rest) apart_l)
      ∙ walk.2.0

  removed-Walk : Walk (removed p q h).next l (l ∷ p ∷ rest) 0
  removed-Walk =
      let (at, ne, (at_p, ne_p, (at_q, ne_q, w))) = walk in
      let cut = write h.next p (h.next q) in
      let out_p = count_rest p q rest apart_p in
      let after_p : (removed p q h).next p ≡ h.next q =
        write-ne cut q 0 p (out_ne p q rest apart_p) ∙ write_self h.next p (h.next q) in
      let w' =
        Walk-write cut q 0 (h.next q) rest 0
          (Walk-write h.next p (h.next q) (h.next q) rest 0 w out_p) apart_q in
      (refl, ne, (removed_head, ne_p, rw after_p w'))

  removed_full :
      ((a : ℕ) → 0 < count a (l ∷ p ∷ q ∷ rest) → h.info a ≢ 0)
      → (a : ℕ) → 0 < count a (l ∷ p ∷ q ∷ rest)
      → (removed p q h).info a ≢ 0
  removed_full full a some =
      let full_p = full p (omega (arith, count_self p (q ∷ rest))) in
      let full_q = full q (omega (arith, count_self q rest)) in
      write-ne_zero (write h.info p (h.info q)) q (h.info p) a full_p
        (write-ne_zero h.info p (h.info q) a full_q (full a some))

  removed_once : (a : ℕ) → count a (l ∷ p ∷ rest) ≤ 1
  removed_once a = omega (arith, once a)

  removed_some : (a : ℕ) → 0 < count a (l ∷ p ∷ rest) → 0 < count a (l ∷ p ∷ q ∷ rest)
  removed_some a some = omega arith

  -- Where the CRC starts: at the item sought, or else at the second one.
  crc_starts :
      (fuel : ℕ) (info : ListData)
      → ((a : ℕ) → 0 < count a (l ∷ p ∷ q ∷ rest) → h.info a ≢ 0)
      → length (l ∷ p ∷ rest) < fuel
      → (r : ℕ) × (core_list_find fuel l info (removed p q h) ≡ ok r)
        × (zs : List ℕ) × Walk (removed p q h).next (if r == 0 then p else r) zs 0
        × (length zs ≤ length (l ∷ p ∷ rest))
  crc_starts fuel info full enough =
      let g = removed p q h in
      let w = removed-Walk in
      let (r, e, first) =
        core_list_find_lem fuel g l info (l ∷ p ∷ rest)
          (Walk-Chain g.next l (l ∷ p ∷ rest) w removed_once)
          (λ a i. removed_full full a (removed_some a (count_has a (l ∷ p ∷ rest) i))) enough in
      elim (found_in first) [
        | inl none ↦
            let is : r ≡ 0 = none in (r, e, p ∷ rest, rw is (refl, w.2.1, w.2.2), omega arith)
        | inr some ↦
            let is : 0 < count r (l ∷ p ∷ rest) = some in
            let (zs, v, fits) = Walk-from g.next l r (l ∷ p ∷ rest) w is in
            (r, e, zs, rw (ne→== r 0 (nonzero_item g.next l r (l ∷ p ∷ rest) w is)) v, fits)
      ]

  remove_and_undo-ok :
      (fuel retval : ℕ) (info : ListData)
      → ((a : ℕ) → 0 < count a (l ∷ p ∷ q ∷ rest) → h.info a ≢ 0)
      → length (l ∷ p ∷ rest) < fuel
      → (crc : ℕ) × (remove_and_undo fuel l retval info h ≡ ok (crc, h))
  unfolding remove_and_undo
  remove_and_undo-ok fuel retval info full enough =
      let (at, ne, (at_p, ne_p, (at_q, ne_q, w))) = walk in
      let (r, e, zs, walk_z, fits) = crc_starts fuel info full enough in
      let g = removed p q h in
      let full_l = removed_full full l (omega (arith, count_self l (p ∷ q ∷ rest))) in
      let (crc, f) =
        crc_loop-ok fuel l (if r == 0 then p else r) retval (g.data16 (g.info l)) g zs walk_z
          (omega arith) (data_at-ok g l ne full_l) in
      let apart : p ≢ q = out_ne p q rest apart_p in
      let rem : core_list_remove p h ≡ ok (linked q g) =
        rw at_q at (core_list_remove-removed p h ne_p (λ z. ne_q (sym at_q ∙ z))) in
      let undo : core_list_undo_remove q p g ≡ ok (linked q h) =
        rw (rem, at_q) at
          (core_list_undo_remove-core_list_remove h p ne_p (λ z. ne_q (sym at_q ∙ z))
            (λ z. apart (sym z ∙ at_q))) in
      (crc, rw (ne→== l 0 ne, at_p, rem, e, removed_head, f, undo) refl)

-- On a list of at least three items that all have data, the removal, the CRC and the undoing
-- return, and the heap is as it was.
pub remove_and_undo_lem :
    (fuel list retval : ℕ) (info : ListData) (h : Heap) (xs : List ℕ)
    → Walk h.next list xs 0
    → ((a : ℕ) → count a xs ≤ 1)
    → ((a : ℕ) → 0 < count a xs → h.info a ≢ 0)
    → 3 ≤ length xs
    → length xs ≤ fuel
    → (crc : ℕ) × (remove_and_undo fuel list retval info h ≡ ok (crc, h))
remove_and_undo_lem fuel list retval info h [] walk once full three enough = absurd (omega arith)
remove_and_undo_lem fuel list retval info h (l ∷ []) walk once full three enough =
    absurd (omega arith)
remove_and_undo_lem fuel list retval info h (l ∷ p ∷ []) walk once full three enough =
    absurd (omega arith)
remove_and_undo_lem fuel list retval info h (l ∷ p ∷ q ∷ rest) walk once full three enough =
    let at = walk.0 in
    rw at (remove_and_undo-ok h l p q rest (rw at at walk) once fuel retval info full (omega arith))
