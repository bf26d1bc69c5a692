-- ===== src/Coremark/List/Find.antt =====
-- core_list_find on a chain of items.
use gandiva.Base.{
  ℕ, zero, suc, ◌^◌, ◌%◌, ◌≤◌, ◌<◌, ◌≡◌, ◌≢◌, neg16, refl, arith, inl, inr, Bool-cases, ne→==, true,
  false, List, [], ◌∷◌, ok, length,
}
use gandiva.Coremark.List.{Heap, ListData, is_found, find_loop, core_list_find}
use gandiva.Coremark.List.Chain.{has, Chain, nil, cons}

-- The data `d` has the index sought, for an index that is not negative (0 is an index too), or the
-- lower byte of the data sought, for a negative one.
pub data Matches (info : ListData) (h : Heap) (d : ℕ) : Type 0 where
  by_index : info.idx < 2 ^ 15 → h.idx d ≡ info.idx → Matches info h d
  by_data : 2 ^ 15 ≤ info.idx → h.data16 d % 2 ^ 8 ≡ info.data16 → Matches info h d

found-Matches : (info : ListData) (h : Heap) (d : ℕ) → is_found info h d ≡ true → Matches info h d
unfolding is_found
found-Matches info h d e = elim (Bool-cases (neg16 info.idx)) [
  | inl negative ↦ by_data (ground arith) (ground arith)
  | inr indexed ↦ by_index (ground arith) (ground arith)
]

missed-Matches :
    (info : ListData) (h : Heap) (d : ℕ) → is_found info h d ≡ false → ¬ Matches info h d
unfolding is_found
missed-Matches info h d e (by_index positive same) = absurd (ground arith)
missed-Matches info h d e (by_data negative same) = absurd (ground arith)

-- The first item of `xs` whose data matches, or NULL.
pub data IsFirstFound (info : ListData) (h : Heap) : List ℕ → ℕ → Type 0 where
  nowhere : IsFirstFound info h [] 0
  here : {x : ℕ} {xs : List ℕ} → Matches info h (h.info x) → IsFirstFound info h (x ∷ xs) x
  later :
      {x r : ℕ} {xs : List ℕ}
      → ¬ Matches info h (h.info x)
      → IsFirstFound info h xs r
      → IsFirstFound info h (x ∷ xs) r

-- core_list_find on a chain of items that all have data, with more fuel than items, returns the
-- first item whose index is the one sought, if that is 0 or more, or the first item whose lower
-- byte of data is the data sought, if the index sought is negative, and NULL if the chain has none.
pub core_list_find_lem :
    (fuel : ℕ) (h : Heap) (list : ℕ) (info : ListData) (xs : List ℕ)
    → Chain h.next list xs
    → ((a : ℕ) → has a xs ≡ true → h.info a ≢ 0)
    → length xs < fuel
    → (r : ℕ) × (core_list_find fuel list info h ≡ ok r) × IsFirstFound info h xs r
unfolding core_list_find find_loop
core_list_find_lem zero h list info xs s full enough = absurd (omega arith)
core_list_find_lem (suc fuel) h list info [] nil full enough = (0, refl, nowhere)
core_list_find_lem (suc fuel) h list info (x ∷ xs) (cons {q} ne e out s) full enough =
    let some_data : h.info x ≢ 0 = full x (ground arith) in
    let (r, run, first) =
      core_list_find_lem fuel h q info xs s (λ a i. full a (ground arith)) (omega arith) in
    rw (ne→== x 0 ne, ne→== (h.info x) 0 some_data)
      (elim (Bool-cases (is_found info h (h.info x))) [
        | inl hit ↦ rw hit (x, refl, here (found-Matches info h (h.info x) hit))
        | inr miss ↦ rw (miss, e) (r, run, later (missed-Matches info h (h.info x) miss) first)
      ])
