-- ===== src/Coremark/List/Runs.antt =====
-- What core_list_mergesort does to the order of the items: runs of items, merged in pairs, by the
-- keys that the comparison orders them by.
use gandiva.Base.{
  ℕ, suc, ◌+◌, ◌≤◌, ◌<◌, ◌≡◌, refl, ap, arith, inl, inr, Bool-cases, ◌==◌, if◌then◌else◌, List, [],
  ◌∷◌, ◌++◌, length, length-append, append_one, append-nil,
}

-- How often `a` is in a list.
abbrev pub count : ℕ → List ℕ → ℕ
count a [] = 0
count a (x ∷ xs) = (if a == x then 1 else 0) + count a xs

pub count-append : (z : ℕ) (bs cs : List ℕ) → count z (bs ++ cs) ≡ count z bs + count z cs
count-append z [] cs = omega arith
count-append z (b ∷ bs) cs = let rest = count-append z bs cs in omega arith

pub count_self : (x : ℕ) (xs : List ℕ) → count x (x ∷ xs) ≡ 1 + count x xs
count_self x xs = ground arith

abbrev pub concat : List (List ℕ) → List ℕ
concat [] = []
concat (b ∷ bs) = b ++ concat bs

-- Each item stands in the relation to the next one.
abbrev pub InOrder : (ℕ → ℕ → Type 0) → List ℕ → Type 0
InOrder S [] = Unit
InOrder S (x ∷ []) = Unit
InOrder S (x ∷ y ∷ xs) = S x y × InOrder S (y ∷ xs)

abbrev pub AllInOrder : (ℕ → ℕ → Type 0) → List (List ℕ) → Type 0
AllInOrder S [] = Unit
AllInOrder S (b ∷ bs) = InOrder S b × AllInOrder S bs

module _ {S T : ℕ → ℕ → Type 0} (grows : (u v : ℕ) → S u v → T u v) where
  pub InOrder-mono : (xs : List ℕ) → InOrder S xs → InOrder T xs
  InOrder-mono [] o = tt
  InOrder-mono (x ∷ []) o = tt
  InOrder-mono (x ∷ y ∷ xs) (le, o) = (grows x y le, InOrder-mono (y ∷ xs) o)

  pub AllInOrder-mono : (bs : List (List ℕ)) → AllInOrder S bs → AllInOrder T bs
  AllInOrder-mono [] o = tt
  AllInOrder-mono (b ∷ bs) (o, os) = (InOrder-mono b o, AllInOrder-mono bs os)

module _ (S : ℕ → ℕ → Type 0) where
  InOrder-tail : (x : ℕ) (xs : List ℕ) → InOrder S (x ∷ xs) → InOrder S xs
  InOrder-tail x [] o = tt
  InOrder-tail x (y ∷ xs) (le, o) = o

  InOrder-suffix : (xs ys : List ℕ) → InOrder S (xs ++ ys) → InOrder S ys
  InOrder-suffix [] ys o = o
  InOrder-suffix (x ∷ xs) ys o = InOrder-suffix xs ys (InOrder-tail x (xs ++ ys) o)

  InOrder-prefix : (xs ys : List ℕ) → InOrder S (xs ++ ys) → InOrder S xs
  InOrder-prefix [] ys o = tt
  InOrder-prefix (x ∷ []) ys o = tt
  InOrder-prefix (x ∷ y ∷ xs) ys (le, o) = (le, InOrder-prefix (y ∷ xs) ys o)

  InOrder-join :
      (cur : List ℕ) (x : ℕ) (ps : List ℕ) (y : ℕ) (qs : List ℕ)
      → InOrder S (cur ++ x ∷ ps)
      → InOrder S (y ∷ qs)
      → S x y
      → InOrder S (cur ++ x ∷ y ∷ qs)
  InOrder-join [] x ps y qs o o' le = (le, o')
  InOrder-join (c ∷ []) x ps y qs (first, o) o' le = (first, (le, o'))
  InOrder-join (c ∷ d ∷ cur) x ps y qs (first, o) o' le =
      (first, InOrder-join (d ∷ cur) x ps y qs o o' le)

  -- The item `x` goes from a run to what is merged, `cur`.
  pub InOrder-taken :
      (cur : List ℕ) (x : ℕ) (ps : List ℕ)
      → InOrder S (cur ++ x ∷ ps)
      → InOrder S ((cur ++ x ∷ []) ++ ps)
  InOrder-taken cur x ps o = rw (append_one cur x ps) at o

  pub InOrder-last :
      (cur : List ℕ) (x : ℕ) (ps : List ℕ)
      → InOrder S (cur ++ x ∷ ps)
      → InOrder S ((cur ++ x ∷ []) ++ [])
  InOrder-last cur x ps o =
      rw (append-nil (cur ++ x ∷ [])) (InOrder-prefix (cur ++ x ∷ []) ps (InOrder-taken cur x ps o))

  pub InOrder-passed :
      (cur : List ℕ) (x : ℕ) (ps : List ℕ) (y : ℕ) (qs : List ℕ)
      → InOrder S (cur ++ x ∷ ps)
      → InOrder S (cur ++ y ∷ qs)
      → S x y
      → InOrder S ((cur ++ x ∷ []) ++ y ∷ qs)
  InOrder-passed cur x ps y qs o o' le =
      InOrder-taken cur x (y ∷ qs)
        (InOrder-join cur x ps y qs o (InOrder-suffix cur (y ∷ qs) o') le)

-- Sorted by a key.
abbrev pub IsSorted : (ℕ → ℕ) → List ℕ → Type 0
IsSorted key [] = Unit
IsSorted key (x ∷ xs) = ((a : ℕ) → 0 < count a xs → key x ≤ key a) × IsSorted key xs

below_rest :
    (key : ℕ → ℕ) (x : ℕ) (xs : List ℕ)
    → InOrder (λ u v. key u ≤ key v) (x ∷ xs)
    → (a : ℕ) → 0 < count a xs
    → key x ≤ key a
below_rest key x [] o a h = absurd (omega arith)
below_rest key x (y ∷ ys) (le, o) a h = elim (Bool-cases (a == y)) [
  | inl same ↦ let e : a ≡ y = ground arith in rw e le
  | inr other ↦ omega (arith, below_rest key y ys o a (ground arith))
]

pub InOrder-IsSorted :
    (key : ℕ → ℕ) (xs : List ℕ) → InOrder (λ u v. key u ≤ key v) xs → IsSorted key xs
InOrder-IsSorted key [] o = tt
InOrder-IsSorted key (x ∷ []) o = (λ a h. absurd (omega arith), tt)
InOrder-IsSorted key (x ∷ y ∷ xs) o =
    (below_rest key x (y ∷ xs) o, InOrder-IsSorted key (y ∷ xs) o.1)

-- All runs have `k` items, but for the last, which has at least one.
abbrev pub Sized : ℕ → List (List ℕ) → Type 0
Sized k [] = Unit
Sized k (b ∷ []) = (0 < length b) × (length b ≤ k)
Sized k (b ∷ c ∷ bs) = (length b ≡ k) × Sized k (c ∷ bs)

abbrev pub number_of : List (List ℕ) → ℕ
number_of [] = 0
number_of (b ∷ bs) = suc (number_of bs)

abbrev pub singletons : List ℕ → List (List ℕ)
singletons [] = []
singletons (x ∷ xs) = (x ∷ []) ∷ singletons xs

pub number_of-singletons : (xs : List ℕ) → number_of (singletons xs) ≡ length xs
number_of-singletons [] = refl
number_of-singletons (x ∷ xs) = ap suc (number_of-singletons xs)

pub concat-singletons : (xs : List ℕ) → concat (singletons xs) ≡ xs
concat-singletons [] = refl
concat-singletons (x ∷ xs) = ap (◌∷◌ x) (concat-singletons xs)

pub singletons-Sized : (xs : List ℕ) → Sized 1 (singletons xs)
singletons-Sized [] = tt
singletons-Sized (x ∷ []) = omega arith
singletons-Sized (x ∷ y ∷ xs) = (refl, singletons-Sized (y ∷ xs))

pub singletons-AllInOrder : (S : ℕ → ℕ → Type 0) (xs : List ℕ) → AllInOrder S (singletons xs)
singletons-AllInOrder S [] = tt
singletons-AllInOrder S (x ∷ xs) = (tt, singletons-AllInOrder S xs)

-- With two runs or more, a run is shorter than the whole.
pub Sized-lt : (k : ℕ) (bs : List (List ℕ)) → Sized k bs → 2 ≤ number_of bs → k < length (concat bs)
Sized-lt k [] s h = absurd (omega arith)
Sized-lt k (b ∷ []) s h = absurd (omega arith)
Sized-lt k (b ∷ c ∷ []) (full, (some, small)) h = omega (arith, length-append {0})
Sized-lt k (b ∷ c ∷ d ∷ bs) (full, s) h =
    omega
      (arith, length-append {0} b (c ++ (d ++ concat bs)), Sized-lt k (c ∷ d ∷ bs) s (omega arith))
