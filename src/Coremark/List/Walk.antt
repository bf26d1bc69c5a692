-- ===== src/Coremark/List/Walk.antt =====
-- Walks along the `next` pointers: the parts that core_list_mergesort takes a list into.
use gandiva.Base.{
  ℕ, ◌≤◌, ◌<◌, ◌≡◌, ◌≢◌, refl, ap, arith, inl, inr, Bool-cases, ◌==◌, false, List, [], ◌∷◌, ◌++◌,
}
use gandiva.Coremark.List.{write}
use gandiva.Coremark.List.Chain.{has, Chain, nil, cons, write_self, write-ne}
use gandiva.Coremark.List.Runs.{count}

-- From `p` the pointers lead through the items `xs` to `q`.
abbrev pub Walk : (ℕ → ℕ) → ℕ → List ℕ → ℕ → Type 0
Walk next p [] q = p ≡ q
Walk next p (x ∷ xs) q = (p ≡ x) × (x ≢ 0) × Walk next (next x) xs q

pub Walk-same :
    (f g : ℕ → ℕ) (p : ℕ) (xs : List ℕ) (q : ℕ)
    → Walk f p xs q
    → ((a : ℕ) → 0 < count a xs → g a ≡ f a)
    → Walk g p xs q
Walk-same f g p [] q w same = w
Walk-same f g p (x ∷ xs) q (e, ne, w) same =
    (e, ne, rw (same x (ground arith)) (Walk-same f g (f x) xs q w λ a h. same a (ground arith)))

pub Walk-write :
    (f : ℕ → ℕ) (t v p : ℕ) (xs : List ℕ) (q : ℕ)
    → Walk f p xs q
    → count t xs ≡ 0
    → Walk (write f t v) p xs q
Walk-write f t v p xs q w out =
    Walk-same f (write f t v) p xs q w
      λ a h. write-ne f t v a (λ e. omega (arith, ap (λ x. count x xs) e))

pub Walk-split :
    (f : ℕ → ℕ) (p : ℕ) (xs ys : List ℕ) (q : ℕ)
    → Walk f p (xs ++ ys) q
    → (m : ℕ) × Walk f p xs m × Walk f m ys q
Walk-split f p [] ys q w = (p, refl, w)
Walk-split f p (x ∷ xs) ys q (e, ne, w) =
    let (m, u, v) = Walk-split f (f x) xs ys q w in (m, (e, ne, u), v)

-- The walk goes on from its last item `t` to `e`.
pub Walk-extend :
    (f : ℕ → ℕ) (p t e : ℕ) (init : List ℕ) (q : ℕ)
    → Walk f p (init ++ t ∷ []) q
    → count t init ≡ 0
    → e ≢ 0
    → Walk (write f t e) p ((init ++ t ∷ []) ++ e ∷ []) (write f t e e)
Walk-extend f p t e [] q (at, ne, w) out ne_e = (at, ne, (write_self f t e, ne_e, refl))
Walk-extend f p t e (x ∷ xs) q (at, ne, w) out ne_e =
    let apart : x ≢ t = λ s. ground arith in
    (at, ne, rw (write-ne f t e x apart) (Walk-extend f (f x) t e xs q w (ground arith) ne_e))

-- The last item's pointer is made `v`.
pub Walk-end :
    (f : ℕ → ℕ) (p t v : ℕ) (init : List ℕ) (q : ℕ)
    → Walk f p (init ++ t ∷ []) q
    → count t init ≡ 0
    → Walk (write f t v) p (init ++ t ∷ []) v
Walk-end f p t v [] q (at, ne, w) out = (at, ne, write_self f t v)
Walk-end f p t v (x ∷ xs) q (at, ne, w) out =
    let apart : x ≢ t = λ s. ground arith in
    (at, ne, rw (write-ne f t v x apart) (Walk-end f (f x) t v xs q w (ground arith)))

pub Walk-join :
    (f : ℕ → ℕ) (p : ℕ) (xs ys : List ℕ) (m q : ℕ)
    → Walk f p xs m
    → Walk f m ys q
    → Walk f p (xs ++ ys) q
Walk-join f p [] ys m q u v = rw u v
Walk-join f p (x ∷ xs) ys m q (at, ne, w) v = (at, ne, Walk-join f (f x) xs ys m q w v)

count_of_has : (a : ℕ) (xs : List ℕ) → has a xs ≡ false → count a xs ≡ 0
count_of_has a [] h = refl
count_of_has a (x ∷ xs) h = ground (arith, count_of_has a xs)

pub has_of_count : (a : ℕ) (xs : List ℕ) → count a xs ≡ 0 → has a xs ≡ false
has_of_count a [] h = refl
has_of_count a (x ∷ xs) h = ground (arith, has_of_count a xs)

pub Chain-Walk : (f : ℕ → ℕ) (p : ℕ) (xs : List ℕ) → Chain f p xs → Walk f p xs 0
Chain-Walk f p [] nil = refl
Chain-Walk f p (x ∷ xs) (cons ne e out s) = (refl, ne, rw e (Chain-Walk f _ xs s))

pub Chain-count : (f : ℕ → ℕ) (p : ℕ) (xs : List ℕ) → Chain f p xs → (a : ℕ) → count a xs ≤ 1
Chain-count f p [] nil a = omega arith
Chain-count f p (x ∷ xs) (cons ne e out s) a = elim (Bool-cases (a == x)) [
  | inl same ↦ let at : a ≡ x = ground arith in rw at (ground (arith, count_of_has x xs out))
  | inr other ↦ ground (arith, Chain-count f _ xs s a)
]

pub Walk-Chain :
    (f : ℕ → ℕ) (p : ℕ) (xs : List ℕ) → Walk f p xs 0 → ((a : ℕ) → count a xs ≤ 1) → Chain f p xs
Walk-Chain f p [] w once = rw w nil
Walk-Chain f p (x ∷ xs) (e, ne, w) once = rw e (
    cons ne refl (has_of_count x xs (ground (arith, once x)))
      (Walk-Chain f (f x) xs w λ a. ground (arith, once a)))
