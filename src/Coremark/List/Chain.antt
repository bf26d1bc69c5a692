-- ===== src/Coremark/List/Chain.antt =====
-- Chains of list_head items: what a list of coremark/src/core_list_join.c stands for.
use gandiva.Base.{
  ℕ, ◌≡◌, ◌≢◌, refl, ap, arith, ◌==◌, ne→==, Bool, true, false, ◌||◌, List, [], ◌∷◌, ok,
}
use gandiva.Coremark.List.{Heap, write, field, set_next, set_info}

abbrev pub has : ℕ → List ℕ → Bool
has a [] = false
has a (x ∷ xs) = (a == x) || has a xs

-- From `p` the `next` pointers lead through the distinct items `xs` to NULL.
pub data Chain (next : ℕ → ℕ) : ℕ → List ℕ → Type 0 where
  nil : Chain next 0 []
  cons :
      {p q : ℕ} {xs : List ℕ}
      → p ≢ 0
      → next p ≡ q
      → has p xs ≡ false
      → Chain next q xs
      → Chain next p (p ∷ xs)

pub Chain-same :
    {f g : ℕ → ℕ} {p : ℕ} {xs : List ℕ}
    → Chain f p xs
    → ((a : ℕ) → has a xs ≡ true → g a ≡ f a)
    → Chain g p xs
Chain-same nil same = nil
Chain-same (cons {p} h e out s) same =
    cons h (ground (arith, same p)) out (Chain-same s λ a i. same a (ground arith))

pub Chain-uncons :
    {f : ℕ → ℕ} {p x : ℕ} {xs : List ℕ}
    → Chain f p (x ∷ xs)
    → (p ≡ x) × (p ≢ 0) × (has p xs ≡ false) × Chain f (f p) xs
Chain-uncons (cons ne e out s) = (refl, ne, out, rw e s)

pub write_self : (f : ℕ → ℕ) (p v : ℕ) → write f p v p ≡ v
unfolding write
write_self f p v = ground arith

pub write-ne : (f : ℕ → ℕ) (p v q : ℕ) → q ≢ p → write f p v q ≡ f q
unfolding write
write-ne f p v q h = ground arith

pub Chain-write :
    {f : ℕ → ℕ} {p : ℕ} {xs : List ℕ} (a v : ℕ)
    → Chain f p xs
    → has a xs ≡ false
    → Chain (write f a v) p xs
Chain-write {f} {xs} a v s out =
    Chain-same s λ b i. write-ne f a v b (λ e. ground (arith, ap (λ x. has x xs) e))

pub field-ok : (f : ℕ → ℕ) (p : ℕ) → p ≢ 0 → field f p ≡ ok (f p)
field-ok f p h = rw (ne→== p 0 h)

pub set_next-ok :
    (p v : ℕ) (h : Heap) → p ≢ 0 → set_next p v h ≡ ok (record h { next = write h.next p v })
set_next-ok p v h ne = rw (ne→== p 0 ne)

pub set_info-ok :
    (p v : ℕ) (h : Heap) → p ≢ 0 → set_info p v h ≡ ok (record h { info = write h.info p v })
set_info-ok p v h ne = rw (ne→== p 0 ne)
