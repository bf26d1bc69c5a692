-- ===== src/Coremark/State/Corrupt.antt =====
-- The passes of core_bench_state that insert and undo corruption.
use native.Mathlib.Nat.{mod-eq_of_lt, mod-eq-sub-mod}
use gandiva.Base.{
  ℕ, zero, suc, ◌+◌, ◌-◌, ◌%◌, ◌^◌, ◌≤◌, ◌<◌, ◌≡◌, ◌≢◌, ◌↔◌, refl, ap, sym, ◌∙◌, arith, Bool, true,
  false, ◌&&◌, List, ltb, leb, ◌==◌, Bool-cases, if◌then◌else◌, inl, inr, length, get_or, set,
  length-set, get_or-set_self, get_or-set_ne, get_or_ext, Run, ok, load-ok, store-ok, bit_xor, u8,
}
use gandiva.Base.Bits.{bit_xor_undo}
use gandiva.Coremark.State.{corrupt}

-- What a pass makes of one byte, and which bytes a pass from index `p` on looks at.
abbrev pub flip : ℕ → ℕ → ℕ
flip seed c = if c == b',' then c else bit_xor c (u8 seed)

abbrev pub hits : ℕ → ℕ → ℕ → Bool
hits step p j = leb p j && ((j - p) % step == 0)

abbrev pub flipped : ℕ → ℕ → ℕ → ℕ → List ℕ → ℕ → ℕ
flipped blksize seed step p mem j =
    if ltb j blksize && hits step p j then flip seed (get_or mem j 0) else get_or mem j 0

-- The pass returns, and has flipped the bytes that it looks at and no other.
pub record IsCorrupted (blksize seed step p : ℕ) (mem : List ℕ) (r : Run (List ℕ)) : Type 0 where
  pub out : List ℕ
  pub returns : r ≡ ok out
  pub same_length : length out ≡ length mem
  pub bytes : (j : ℕ) → get_or out j 0 ≡ flipped blksize seed step p mem j

abbrev mem_after : ℕ → ℕ → List ℕ → List ℕ
mem_after seed p mem =
    if get_or mem p 0 == b',' then mem else set mem p (bit_xor (get_or mem p 0) (u8 seed))

module _ (blksize seed step : ℕ) (pos : 0 < step) (small : step < 2 ^ 15) where
  corrupt-suc :
      (fuel p : ℕ) (mem : List ℕ)
      → p < blksize
      → p < length mem
      → corrupt (suc fuel) blksize seed step p mem
        ≡ corrupt fuel blksize seed step (p + step) (mem_after seed p mem)
  unfolding corrupt
  corrupt-suc fuel p mem below fits =
      ground (arith, load-ok mem p, store-ok mem p (bit_xor (get_or mem p 0) (u8 seed)))

  corrupt-done :
      (fuel p : ℕ) (mem : List ℕ)
      → ltb p blksize ≡ false
      → corrupt (suc fuel) blksize seed step p mem ≡ ok mem
  unfolding corrupt
  corrupt-done fuel p mem h = rw h

  mem_after-byte :
      (p j : ℕ) (mem : List ℕ)
      → p < length mem
      → get_or (mem_after seed p mem) j 0
        ≡ (if j == p then flip seed (get_or mem p 0) else get_or mem j 0)
  mem_after-byte p j mem fits = ground (
    arith,
    get_or-set_self mem p (bit_xor (get_or mem p 0) (u8 seed)) 0,
    get_or-set_ne mem p j (bit_xor (get_or mem p 0) (u8 seed)) 0,
  )

  length-mem_after : (p : ℕ) (mem : List ℕ) → length (mem_after seed p mem) ≡ length mem
  length-mem_after p mem = ground (arith, length-set mem p (bit_xor (get_or mem p 0) (u8 seed)))

  hits_self : (p : ℕ) → hits step p p ≡ true
  hits_self p = ground (arith, mod-eq_of_lt {n = p - p} {m = step})

  hits_next : (p j : ℕ) → j ≢ p → hits step p j ≡ hits step (p + step) j
  hits_next p j ne = ground (
    arith,
    mod-eq_of_lt {n = j - p} {m = step},
    mod-eq-sub-mod {n = j - p} {m = step},
    ap (λ t. t % step) (sub_sub j p),
  )
    where
      sub_sub : (j p : ℕ) → j - p - step ≡ j - (p + step)
      sub_sub j p = omega arith

  after_hit :
      (p j : ℕ) (mem : List ℕ)
      → p < blksize
      → p < length mem
      → flipped blksize seed step (p + step) (mem_after seed p mem) j
        ≡ flipped blksize seed step p mem j
  after_hit p j mem below fits = elim (Bool-cases (j == p)) [
    | inl same ↦
        let e : j ≡ p = ground arith in
        rw e (ground (arith, hits_self p, mem_after-byte p p mem fits))
    | inr other ↦ ground (arith, hits_next p j, mem_after-byte p j mem fits)
  ]

  pub corrupt-IsCorrupted :
      (fuel p : ℕ) (mem : List ℕ)
      → blksize < p + fuel
      → 0 < fuel
      → blksize ≤ length mem
      → IsCorrupted blksize seed step p mem (corrupt fuel blksize seed step p mem)
  corrupt-IsCorrupted zero p mem enough rounds fits = absurd (omega arith)
  corrupt-IsCorrupted (suc fuel) p mem enough rounds fits = elim (Bool-cases (ltb p blksize)) [
    | inl more ↦
        let below : p < blksize = ground arith in
        let rest =
          corrupt-IsCorrupted fuel (p + step) (mem_after seed p mem) (omega arith) (omega arith)
            (omega (arith, length-mem_after p mem)) in
        record {
          out = rest.out;
          returns = corrupt-suc fuel p mem below (omega arith) ∙ rest.returns;
          same_length = rest.same_length ∙ length-mem_after p mem;
          bytes = λ j. rest.bytes j ∙ after_hit p j mem below (omega arith);
        }
    | inr done ↦ record {
      out = mem;
      returns = corrupt-done fuel p mem done;
      same_length = refl;
      bytes = λ j. ground arith;
    }
  ]

-- No byte that a pass looks at becomes a comma by the seed.
abbrev pub NoCommaMade : ℕ → ℕ → ℕ → List ℕ → Type 0
NoCommaMade blksize seed step mem =
    (j : ℕ)
    → j < blksize
    → hits step 0 j ≡ true
    → get_or mem j 0 ≢ b','
    → bit_xor (get_or mem j 0) (u8 seed) ≢ b','

flip_twice : (seed c : ℕ) → (flip seed (flip seed c) ≡ c) ↔ (c ≢ b',' → bit_xor c (u8 seed) ≢ b',')
flip_twice seed c = (
  λ e ne made. ne (sym e ∙ flip_made seed c ne made),
  λ safe. elim (Bool-cases (c == b',')) [
    | inl comma ↦ ground arith
    | inr other ↦ ground (arith, safe, bit_xor_undo c (u8 seed))
  ],
)
  where
    flip_made :
        (seed c : ℕ) → c ≢ b',' → bit_xor c (u8 seed) ≡ b',' → flip seed (flip seed c) ≡ b','
    flip_made seed c ne made = ground arith

-- Two passes with the same seed, a step from 1 to 2^15 - 1 and a size within the block: both return, and they give the block back exactly when
-- the first of them turns no byte into a comma.
pub corrupt_twice :
    (blksize seed step : ℕ) (mem : List ℕ)
    → 0 < step
    → step < 2 ^ 15
    → blksize ≤ length mem
    → (mid : List ℕ) × (out : List ℕ) × (corrupt (blksize + 1) blksize seed step 0 mem ≡ ok mid)
      × (corrupt (blksize + 1) blksize seed step 0 mid ≡ ok out)
      × ((out ≡ mem) ↔ NoCommaMade blksize seed step mem)
corrupt_twice blksize seed step mem pos small fits =
    (there.out, back.out, there.returns, back.returns, (safe_if, same_if))
  where
    there : IsCorrupted blksize seed step 0 mem (corrupt (blksize + 1) blksize seed step 0 mem)
    there =
        corrupt-IsCorrupted blksize seed step pos small (blksize + 1) 0 mem (omega arith)
          (omega arith) fits

    back :
        IsCorrupted blksize seed step 0 there.out
          (corrupt (blksize + 1) blksize seed step 0 there.out)
    back =
        corrupt-IsCorrupted blksize seed step pos small (blksize + 1) 0 there.out (omega arith)
          (omega arith) (omega (arith, there.same_length))

    safe_if : back.out ≡ mem → NoCommaMade blksize seed step mem
    safe_if same j below hit =
        (flip_twice seed (get_or mem j 0)).0
          (ground (arith, back.bytes j, there.bytes j, ap (λ (m : List ℕ). get_or m j 0) same))

    same_if : NoCommaMade blksize seed step mem → back.out ≡ mem
    same_if safe =
        get_or_ext 0 back.out mem (back.same_length ∙ there.same_length)
          λ j below. restored j (safe j)
      where
        restored :
            (j : ℕ)
            → (j < blksize
                → hits step 0 j ≡ true
                → get_or mem j 0 ≢ b','
                → bit_xor (get_or mem j 0) (u8 seed) ≢ b',')
            → get_or back.out j 0 ≡ get_or mem j 0
        restored j safe_j = elim (Bool-cases (ltb j blksize && hits step 0 j)) [
          | inl hit ↦ ground (
            arith,
            back.bytes j,
            there.bytes j,
            (flip_twice seed (get_or mem j 0)).1 (λ ne. safe_j (ground arith) (ground arith) ne),
          )
          | inr miss ↦ ground (arith, back.bytes j, there.bytes j)
        ]
