-- ===== src/Coremark/State/Input/Tokens.antt =====
-- What one round of the loop of core_init_state writes: a pattern and a comma.
use gandiva.Base.{
  ℕ, zero, suc, ◌+◌, ◌/◌, ◌%◌, ◌^◌, ◌≤◌, ◌<◌, ◌≡◌, refl, ap, sym, ◌∙◌, arith, true, List, [], ◌∷◌,
  ◌++◌, append_assoc, append-nil, ◌==◌, lt→ltb, u16, u32, length, length-append, length-drop, drop,
  append_one, drop-drop, ok, ==_iff, store, load-middle, store-middle,
}
use gandiva.Base.Bits.{all_below, all_below_sound}
use gandiva.Coremark.State.Input.{buf_of, next_of, copy, filled, place}

-- The choice looks at five bits of the seed.
pub buf_of-low : (seed : ℕ) → buf_of seed ≡ buf_of (seed % 32)
unfolding buf_of
buf_of-low seed =
    let e : seed % 32 % 8 ≡ seed % 8 = omega arith in
    let f : seed % 32 / 8 % 4 ≡ seed / 8 % 4 = omega arith in rw (e, f)

next_of-low : (seed : ℕ) → next_of seed ≡ next_of (seed % 32)
unfolding next_of
next_of-low seed = let e : seed % 32 % 8 ≡ seed % 8 = omega arith in rw e

lengths_ok : all_below 32 (λ s. length (buf_of s) == next_of s) ≡ true
unfolding all_below buf_of next_of
lengths_ok = refl

-- The strings that the code may choose have the lengths that it counts on.
pub length-buf_of : (seed : ℕ) → length (buf_of seed) ≡ next_of seed
length-buf_of seed =
    rw (buf_of-low seed, next_of-low seed)
      ((==_iff _ _).0 (all_below_sound 32 _ (seed % 32) lengths_ok (omega arith)))

pub next_of-bounds : (seed : ℕ) → (0 < next_of seed) × (next_of seed ≤ 8)
unfolding next_of
next_of-bounds seed = ground arith

-- Copying `bs`, the rest of a string, right behind `text` in the block.
copy-ok :
    (bs before text post : List ℕ) (total : ℕ)
    → length text ≡ total + length before
    → length bs ≤ length post
    → copy (length bs) (length before) (before ++ bs) total (text ++ post)
      ≡ ok ((text ++ bs) ++ drop (length bs) post)
unfolding copy
copy-ok [] before text post total e h = ap (λ t. ok (t ++ post)) (sym (append-nil text))
copy-ok (b ∷ bs) before text [] total e h = absurd (omega arith)
copy-ok (b ∷ bs) before text (x ∷ post) total e h =
    let rest =
      copy-ok bs (before ++ b ∷ []) (text ++ b ∷ []) post total
        (omega (arith, length-append {0} text (b ∷ []), length-append {0} before (b ∷ [])))
        (omega arith) in
    let n : length (before ++ b ∷ []) ≡ length before + 1 =
      omega (arith, length-append {0} before (b ∷ [])) in
    rw (load-middle before b bs, ← e, store-middle text x b post)
      (rw (append_one before b bs, append_one text b post, append_one text b bs, ← n) rest)

-- A pattern and the comma behind it.
abbrev pub token : ℕ → List ℕ
token seed = buf_of seed ++ b',' ∷ []

-- `n` tokens: the first is chosen by `seed`, each later one by the next seed.
unfoldable pub tokens : ℕ → ℕ → List ℕ
tokens zero seed = []
tokens (suc n) seed = token seed ++ tokens n (u16 (seed + 1))

pub length-token : (seed : ℕ) → length (token seed) ≡ next_of seed + 1
length-token seed = omega (arith, length-append {0} (buf_of seed) (b',' ∷ []), length-buf_of seed)

comma-ok :
    (text post : List ℕ)
    → 0 < length post
    → store (text ++ post) (length text) b',' ≡ ok ((text ++ b',' ∷ []) ++ drop 1 post)
comma-ok text [] h = absurd (omega arith)
comma-ok text (x ∷ post) h = store-middle text x b',' post ∙ ap ok (append_one text b',' post)

pub place-ok :
    (seed : ℕ) (text post : List ℕ)
    → next_of seed < length post
    → length text + length post < 2 ^ 32
    → place (next_of seed) (buf_of seed) (length text) (text ++ post)
      ≡ ok (
          filled
            (length (text ++ token seed))
            ((text ++ token seed) ++ drop (length (token seed)) post))
unfolding place
place-ok seed text post h small =
    let len = length-buf_of seed in
    let bs = buf_of seed in
    let rest = drop (length bs) post in
    let copied =
      ap (λ k. copy k 0 bs (length text) (text ++ post)) (sym len)
      ∙ copy-ok bs [] text post (length text) (omega arith) (omega arith) in
    let total : length (text ++ bs) ≡ length text + next_of seed =
      omega (arith, length-append {0} text bs) in
    let comma = comma-ok (text ++ bs) rest (omega (arith, length-drop {0} (length bs) post)) in
    let end : u32 (length text + (next_of seed + 1)) ≡ length (text ++ token seed) =
      omega (arith, length-append {0} text (token seed), length-token seed) in
    let cut : drop 1 rest ≡ drop (length (token seed)) post =
      drop-drop (length bs) 1 post ∙ ap (λ k. drop k post) (omega (arith, length-token seed)) in
    rw
      (
        lt→ltb 0 (next_of seed) (next_of-bounds seed).0,
        copied,
        ← total,
        comma,
        end,
        cut,
        append_assoc text bs (b',' ∷ []),
      )
      refl
