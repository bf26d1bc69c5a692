-- ===== src/Coremark/State/Input/Filling.antt =====
-- What core_init_state writes into its block.
use gandiva.Base.{
  ℕ, zero, suc, ◌+◌, ◌-◌, ◌^◌, ◌≤◌, ◌<◌, ◌≡◌, refl, ap, sym, ◌∙◌, arith, inl, inr, true, false,
  List, [], ◌∷◌, ◌++◌, append_assoc, append-nil, ltb, Bool-cases, le→ltb, lt→ltb, u16, u32, length,
  length-append, length-drop, drop, replicate, append_one, drop-drop, Run, ok, store-middle,
}
use gandiva.Coremark.State.Input.{
  buf_of, next_of, Filled, filled, place, fill_loop, zero_loop, core_init_state,
}
use gandiva.Coremark.State.Input.Tokens.{token, tokens, length-token, place-ok, next_of-bounds}

-- What the loop of core_init_state leaves: tokens in front of the rest of the block.
record IsFilled (size seed : ℕ) (text post : List ℕ) (r : Run Filled) : Type 0 where
  n : ℕ
  returns :
      r
      ≡ ok (
          filled
            (length (text ++ tokens n seed))
            ((text ++ tokens n seed) ++ drop (length (tokens n seed)) post))
  fits : length (text ++ tokens n seed) ≤ size
  full : size ≤ length (text ++ tokens n seed) + 9

-- One token more in front.
IsFilled-suc :
    (size seed : ℕ) (text post : List ℕ) (r : Run Filled)
    → IsFilled size (u16 (seed + 1)) (text ++ token seed) (drop (length (token seed)) post) r
    → IsFilled size seed text post r
unfolding tokens
IsFilled-suc size seed text post r rest =
    let more = tokens rest.n (u16 (seed + 1)) in
    let shift : (text ++ token seed) ++ more ≡ text ++ (token seed ++ more) =
      append_assoc text (token seed) more in
    let cut : drop (length more) (drop (length (token seed)) post)
        ≡ drop (length (token seed ++ more)) post =
      drop-drop (length (token seed)) (length more) post
      ∙ ap (λ k. drop k post) (sym (length-append (token seed) more)) in
    record {
      n = suc rest.n;
      returns = rw (← shift, ← cut) rest.returns;
      fits = rw (← shift) rest.fits;
      full = rw (← shift) rest.full;
    }

fill_loop-suc :
    (fuel size seed : ℕ) (text post : List ℕ)
    → ltb (u32 (length text + next_of seed + 1)) size ≡ true
    → next_of seed < length post
    → length text + length post < 2 ^ 32
    → fill_loop (suc fuel) size seed (length text) (next_of seed) (buf_of seed) (text ++ post)
      ≡ fill_loop fuel size
          (u16 (seed + 1))
          (length (text ++ token seed))
          (next_of (u16 (seed + 1)))
          (buf_of (u16 (seed + 1)))
          ((text ++ token seed) ++ drop (length (token seed)) post)
unfolding fill_loop
fill_loop-suc fuel size seed text post more h small = rw (more, place-ok seed text post h small)

last_round :
    (fuel size seed : ℕ) (text post : List ℕ)
    → length text ≤ size
    → length text + length post < 2 ^ 31
    → ltb (u32 (length text + next_of seed + 1)) size ≡ false
    → IsFilled size seed text post
        (fill_loop (suc fuel) size seed (length text) (next_of seed) (buf_of seed) (text ++ post))
unfolding fill_loop tokens
last_round fuel size seed text post within small done = record {
  n = 0;
  returns = rw (done, append-nil text) refl;
  fits = rw (append-nil text) within;
  full = rw (append-nil text) (ground (arith, next_of-bounds seed));
}

fill_loop-IsFilled :
    (fuel size seed : ℕ) (text post : List ℕ)
    → size < length text + fuel
    → length text ≤ size
    → size ≤ length text + length post
    → length text + length post < 2 ^ 31
    → IsFilled size seed text post
        (fill_loop fuel size seed (length text) (next_of seed) (buf_of seed) (text ++ post))
fill_loop-IsFilled zero size seed text post enough within fits small = absurd (omega arith)
fill_loop-IsFilled (suc fuel) size seed text post enough within fits small =
    elim (Bool-cases (ltb (u32 (length text + next_of seed + 1)) size)) [
      | inl more ↦
          let next = next_of-bounds seed in
          let room : next_of seed + 1 + length text < size = ground (arith, next_of-bounds seed) in
          let len : length (text ++ token seed) ≡ length text + (next_of seed + 1) =
            omega (arith, length-append {0} text (token seed), length-token seed) in
          let len' : length (drop (length (token seed)) post) ≡ length post - (next_of seed + 1) =
            omega (arith, length-drop {0} (length (token seed)) post, length-token seed) in
          rw (fill_loop-suc fuel size seed text post more (omega arith) (omega arith)) (
            IsFilled-suc size seed text post _ (
              fill_loop-IsFilled fuel size (u16 (seed + 1)) (text ++ token seed)
                (drop (length (token seed)) post) (omega arith) (omega arith) (omega arith)
                (omega arith)))
      | inr done ↦ last_round fuel size seed text post within small done
    ]

zero_loop-ok :
    (k fuel size : ℕ) (text post : List ℕ)
    → length text + k ≡ size
    → k < fuel
    → k ≤ length post
    → zero_loop fuel size (length text) (text ++ post) ≡ ok ((text ++ replicate k 0) ++ drop k post)
unfolding zero_loop
zero_loop-ok k zero size text post e h fits = absurd (omega arith)
zero_loop-ok zero (suc fuel) size text post e h fits =
    rw (le→ltb (length text) size (omega arith), append-nil text) refl
zero_loop-ok (suc k) (suc fuel) size text [] e h fits = absurd (omega arith)
zero_loop-ok (suc k) (suc fuel) size text (x ∷ post) e h fits =
    let len : length (text ++ 0 ∷ []) ≡ length text + 1 =
      omega (arith, length-append {0} text (0 ∷ [])) in
    let rest =
      zero_loop-ok k fuel size (text ++ 0 ∷ []) post (omega arith) (omega arith) (omega arith) in
    rw
      (
        lt→ltb (length text) size (omega arith),
        store-middle text x 0 post,
        append_one text 0 post,
        ← len,
      )
      (rw (append_one text 0 (replicate k 0)) rest)

-- The first round chooses a pattern and writes nothing.
first_enters :
    (fuel size seed : ℕ) (p : List ℕ)
    → ltb 1 size ≡ true
    → fill_loop (suc fuel) size seed 0 0 [] p
      ≡ fill_loop fuel size
          (u16 (seed + 1))
          0
          (next_of (u16 (seed + 1)))
          (buf_of (u16 (seed + 1)))
          p
unfolding fill_loop place
first_enters fuel size seed p h = rw h

first_ends :
    (fuel size seed : ℕ) (p : List ℕ)
    → ltb 1 size ≡ false
    → fill_loop (suc fuel) size seed 0 0 [] p ≡ ok (filled 0 p)
unfolding fill_loop
first_ends fuel size seed p h = rw h

first_round :
    (fuel size seed : ℕ) (p : List ℕ)
    → size < fuel
    → size ≤ length p
    → length p < 2 ^ 31
    → IsFilled size (u16 (seed + 1)) [] p (fill_loop (suc fuel) size seed 0 0 [] p)
first_round fuel size seed p enough fits small = elim (Bool-cases (ltb 1 size)) [
  | inl more ↦ rw (first_enters fuel size seed p more) (
      fill_loop-IsFilled fuel size (u16 (seed + 1)) [] p (omega arith) (omega arith) (omega arith)
        (omega arith))
  | inr few ↦ rw (first_ends fuel size seed p few) (record {
    n = 0;
    returns = unfold tokens in refl;
    fits = unfold tokens in omega arith;
    full = unfold tokens in ground arith;
  })
]

assemble :
    (size seed : ℕ) (p : List ℕ)
    → 0 < size
    → size ≤ length p
    → length p < 2 ^ 31
    → IsFilled
        (size - 1)
        (u16 (seed + 1))
        []
        p
        (fill_loop (suc (size + 1)) (size - 1) seed 0 0 [] p)
    → (n : ℕ) × (zeros : ℕ) × (core_init_state size seed p
        ≡ ok (tokens n (u16 (seed + 1)) ++ (replicate zeros 0 ++ drop size p)))
      × (length (tokens n (u16 (seed + 1))) + zeros ≡ size)
      × (0 < zeros)
      × (zeros ≤ 10)
unfolding core_init_state
assemble size seed p pos fits small r =
    let e : u32 (size + 2 ^ 32 - 1) ≡ size - 1 = omega arith in
    let text = tokens r.n (u16 (seed + 1)) in
    let k = size - length text in
    let z =
      zero_loop-ok k (size + 1) size text (drop (length text) p) (omega (arith, r.fits))
        (omega arith) (omega (arith, length-drop {0} (length text) p)) in
    let cut : drop k (drop (length text) p) ≡ drop size p =
      drop-drop (length text) k p ∙ ap (λ m. drop m p) (omega (arith, r.fits)) in
    let f : size + 2 ≡ suc (size + 1) = omega arith in
    (
      r.n,
      k,
      rw (e, f, r.returns) (z ∙ ap ok (rw cut (append_assoc text (replicate k 0) (drop size p)))),
      omega (arith, r.fits),
      omega (arith, r.fits),
      omega (arith, r.full),
    )

-- For a size of at least 1 that is at most the length of the block, and a block of less than 2^31
-- bytes: core_init_state stays within its block and returns. It writes whole tokens, the first chosen by
-- the seed plus one and each later one by the next seed, then zero bytes to the end of `size`; at
-- least one byte and at most ten are zero, and what lies behind `size` is left as it was.
pub core_init_state_lem :
    (size seed : ℕ) (p : List ℕ)
    → 0 < size
    → size ≤ length p
    → length p < 2 ^ 31
    → (n : ℕ) × (zeros : ℕ) × (core_init_state size seed p
        ≡ ok (tokens n (u16 (seed + 1)) ++ (replicate zeros 0 ++ drop size p)))
      × (length (tokens n (u16 (seed + 1))) + zeros ≡ size)
      × (0 < zeros)
      × (zeros ≤ 10)
core_init_state_lem size seed p pos fits small =
    assemble size seed p pos fits small
      (first_round (size + 1) (size - 1) seed p (omega arith) (omega arith) small)
