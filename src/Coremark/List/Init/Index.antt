-- ===== src/Coremark/List/Init/Index.antt =====
-- The loop of core_list_init that gives the items their indices.
use gandiva.Base.{
  ℕ, zero, suc, ◌+◌, ◌*◌, ◌%◌, ◌^◌, ◌≤◌, ◌<◌, ◌≡◌, ◌≢◌, refl, sym, ◌∙◌, arith, inl, inr, Bool-cases,
  ◌==◌, ne→==, bit_or, bit_xor, u16, List, [], ◌∷◌, length, ok,
}
use gandiva.Base.Bits.{bit_and-le}
use gandiva.Coremark.List.{Heap, write}
use gandiva.Coremark.List.Chain.{write_self, write-ne}
use gandiva.Coremark.List.Runs.{count, count_self}
use gandiva.Coremark.List.Walk.{Walk}
use gandiva.Coremark.List.Init.{fresh_idx, index_loop}

-- An index that is positive as a signed one.
abbrev pub IsPositive : ℕ → Type 0
IsPositive x = (0 < x) × (x < 2 ^ 15)

fresh_idx_small : (size seed i : ℕ) → size < 2 ^ 15 → fresh_idx size seed i < 2 ^ 15
unfolding fresh_idx
fresh_idx_small size seed i small =
    ground (arith, bit_and-le 0x3fff (bit_or ((i + 1) % 2 ^ 3 * 2 ^ 8) (u16 (bit_xor i seed))))

-- The heap after the loop: positive indices stay positive, and the data items that no item of `zs`
-- has keep their indices.
pub record Indexed (h : Heap) (zs : List ℕ) (idx : ℕ → ℕ) : Type 0 where
  pub positive : (d : ℕ) → IsPositive (h.idx d) → IsPositive (idx d)
  pub words : (d : ℕ) → h.idx d < 2 ^ 16 → idx d < 2 ^ 16
  pub others : (d : ℕ) → ((a : ℕ) → 0 < count a zs → h.info a ≢ d) → idx d ≡ h.idx d

write_kept : (P : ℕ → Type 0) (f : ℕ → ℕ) (e v d : ℕ) → P v → P (f d) → P (write f e v d)
write_kept P f e v d new old = elim (Bool-cases (d == e)) [
  | inl same ↦ let at : d ≡ e = ground arith in rw (at, write_self f e v) new
  | inr other ↦ rw (write-ne f e v d (λ z. ground arith)) old
]

module _ (size seed : ℕ) (small : size < 2 ^ 15)
    (positive : (i : ℕ) → 1 ≤ i → i < size → 0 < fresh_idx size seed i) where
  pub index_loop-Indexed :
      (fuel finder i : ℕ) (zs : List ℕ) (h : Heap)
      → Walk h.next finder zs 0
      → ((a : ℕ) → 0 < count a zs → h.info a ≢ 0)
      → 0 < length zs
      → length zs ≤ fuel
      → 1 ≤ i
      → i + length zs ≤ size + 1
      → (idx : ℕ → ℕ) × (index_loop fuel size seed finder i h ≡ ok (record h { idx = idx }))
        × Indexed h zs idx
  unfolding index_loop
  index_loop-Indexed zero finder i zs h walk full some enough pos fits = absurd (omega arith)
  index_loop-Indexed (suc fuel) finder i [] h walk full some enough pos fits = absurd (omega arith)
  index_loop-Indexed (suc fuel) finder i (z ∷ []) h (at, ne, walk) full some enough pos fits = (
    h.idx,
    rw (at, ne→== z 0 ne, walk) refl,
    record { positive = λ d p. p; words = λ d w. w; others = λ d apart. refl },
  )
  index_loop-Indexed (suc fuel) finder i (z ∷ y ∷ zs) h (at, ne, walk) full some enough pos fits =
      let more : h.next z ≢ 0 = λ e. walk.1 (sym walk.0 ∙ e) in
      let there : 0 < count z (z ∷ y ∷ zs) = omega (arith, count_self z (y ∷ zs)) in
      let v = fresh_idx size seed i in
      let v_small = fresh_idx_small size seed i small in
      let v_positive = positive i pos (omega arith) in
      let h' : Heap = record h { idx = write h.idx (h.info z) v } in
      let (idx, e, is) =
        index_loop-Indexed fuel (h.next z) (i + 1) (y ∷ zs) h' walk
          (λ a there. full a (omega arith)) (omega arith) (omega arith) (omega arith)
          (omega arith) in
      (
        idx,
        rw (at, ne→== z 0 ne, ne→== (h.next z) 0 more, ne→== (h.info z) 0 (full z there)) e,
        record {
          positive = λ d p.
              is.positive d (write_kept IsPositive h.idx (h.info z) v d (v_positive, v_small) p);
          words =
              λ d w. is.words d (write_kept (λ x. x < 2 ^ 16) h.idx (h.info z) v d (omega arith) w);
          others = λ d apart.
              is.others d (λ a there. apart a (omega arith))
              ∙ write-ne h.idx (h.info z) v d (λ s. apart z there (sym s));
        },
      )
