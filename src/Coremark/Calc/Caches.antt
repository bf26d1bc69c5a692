-- ===== src/Coremark/Calc/Caches.antt =====
-- calc_func: the cache in the item, and the blocks of the other benchmarks.
use mathlib.Core.Path.{subst, subst₂}
use gandiva.Base.{
  ℕ, ◌+◌, ◌-◌, ◌*◌, ◌%◌, ◌^◌, ◌≤◌, ◌<◌, ◌≡◌, refl, sym, ◌∙◌, arith, inl, inr, Bool-cases, ◌==◌, ltb,
  if◌then◌else◌, length, shr, low_bits, ok,
}
use gandiva.Coremark.Crc.{crc16}
use gandiva.Coremark.State.Corrupt.{NoCommaMade}
use gandiva.Coremark.State.Bench.{KeepsEnd, core_bench_state_restores}
use gandiva.Coremark.Matrix.{core_bench_matrix}
use gandiva.Coremark.Matrix.Restore.{IsMatdat, matrix_test_restores}
use gandiva.Coremark.Calc.{
  Results, Calculated, calculated, Ran, dtype_of, state_ran, run_state, matrix_ran, run_matrix,
  run_flag, calc_func,
}

-- The other benchmarks can run: the seeds are equal, the text keeps a zero byte and gets no new
-- comma at any step that calc_func chooses, and the matrices have room for their cells.
pub record IsReady (r : Results) : Type 0 where
  pub same_seed : r.seed2 ≡ r.seed1
  pub in_block : r.size ≤ length r.memblock
  pub keeps_end : (step : ℕ) → 0x22 ≤ step → step < 2 ^ 8 → KeepsEnd r.size step r.memblock
  pub no_comma :
      (step : ℕ) → 0x22 ≤ step → step < 2 ^ 8 → NoCommaMade r.size r.seed1 step r.memblock
  pub room_c : r.n * r.n ≤ length r.c
  pub room_a : r.n * r.n ≤ length r.a
  pub room_b : r.n * r.n ≤ length r.b
  pub matdat : IsMatdat r.a

-- The blocks of `s` are those of `r`, but for the result matrix.
pub record SameBlocks (r s : Results) : Type 0 where
  pub size : s.size ≡ r.size
  pub memblock : s.memblock ≡ r.memblock
  pub seed1 : s.seed1 ≡ r.seed1
  pub seed2 : s.seed2 ≡ r.seed2
  pub n : s.n ≡ r.n
  pub len_c : length s.c ≡ length r.c
  pub a : s.a ≡ r.a
  pub b : s.b ≡ r.b

IsReady-SameBlocks : (r s : Results) → IsReady r → SameBlocks r s → IsReady s
IsReady-SameBlocks r s h e = record {
  same_seed = e.seed2 ∙ h.same_seed ∙ sym e.seed1;
  in_block = rw (e.size, e.memblock) h.in_block;
  keeps_end = λ step lo hi.
      subst₂ (λ z m. KeepsEnd z step m) (sym e.size) (sym e.memblock) (h.keeps_end step lo hi);
  no_comma = λ step lo hi.
      subst (λ q. NoCommaMade s.size q step s.memblock) (sym e.seed1)
        (subst₂ (λ z m. NoCommaMade z r.seed1 step m) (sym e.size) (sym e.memblock)
          (h.no_comma step lo hi));
  room_c = rw (e.n, e.len_c) h.room_c;
  room_a = rw (e.n, e.a) h.room_a;
  room_b = rw (e.n, e.b) h.room_b;
  matdat = rw e.a h.matdat;
}

pub IsReady-crc : (r : Results) (crc : ℕ) → IsReady r → IsReady (record r { crc = crc })
IsReady-crc r crc h = record {
  same_seed = h.same_seed;
  in_block = h.in_block;
  keeps_end = h.keeps_end;
  no_comma = h.no_comma;
  room_c = h.room_c;
  room_a = h.room_a;
  room_b = h.room_b;
  matdat = h.matdat;
}

dtype_small : (item : ℕ) → dtype_of item < 2 ^ 8
dtype_small item = omega arith

run_state-SameBlocks :
    (item : ℕ) (r : Results)
    → IsReady r
    → (ran : Ran) × (run_state item r ≡ ok ran) × SameBlocks r ran.res
unfolding run_state
run_state-SameBlocks item r h =
    let step = if ltb (dtype_of item) 0x22 then 0x22 else dtype_of item in
    let small = dtype_small item in
    let lo : 0x22 ≤ step = ground arith in
    let hi : step < 2 ^ 8 = ground arith in
    let (out, e, same) =
      core_bench_state_restores r.size r.memblock r.seed1 step r.crc (omega arith) (omega arith)
        h.in_block (h.keeps_end step lo hi) (h.no_comma step lo hi) in
    (
      state_ran r out,
      rw (h.same_seed, e) refl,
      record {
        size = refl;
        memblock = same;
        seed1 = refl;
        seed2 = refl;
        n = refl;
        len_c = refl;
        a = refl;
        b = refl;
      },
    )

run_matrix-SameBlocks :
    (item : ℕ) (r : Results)
    → IsReady r
    → (ran : Ran) × (run_matrix item r ≡ ok ran) × SameBlocks r ran.res
unfolding run_matrix core_bench_matrix
run_matrix-SameBlocks item r h =
    let small = dtype_small item in
    let (t, e, same_a, same_c) =
      matrix_test_restores r.n r.c r.a r.b (dtype_of item) h.room_c h.room_a h.room_b (omega arith)
        h.matdat in
    (
      matrix_ran r (record t { crc = crc16 t.crc r.crc }),
      rw e refl,
      record {
        size = refl;
        memblock = refl;
        seed1 = refl;
        seed2 = refl;
        n = refl;
        len_c = same_c;
        a = same_a;
        b = refl;
      },
    )

run_flag-SameBlocks :
    (item : ℕ) (r : Results)
    → IsReady r
    → (ran : Ran) × (run_flag item r ≡ ok ran) × SameBlocks r ran.res
unfolding run_flag
run_flag-SameBlocks item r h = elim (Bool-cases (low_bits item 3 == 0)) [
  | inl zero ↦ rw zero (run_state-SameBlocks item r h)
  | inr nonzero ↦ rw nonzero (elim (Bool-cases (low_bits item 3 == 1)) [
    | inl one ↦ rw one (run_matrix-SameBlocks item r h)
    | inr other ↦ rw other (
      record { retval = item; res = r },
      refl,
      record {
        size = refl;
        memblock = refl;
        seed1 = refl;
        seed2 = refl;
        n = refl;
        len_c = refl;
        a = refl;
        b = refl;
      },
    )
  ])
]

cached_bits :
    (item v : ℕ)
    → (shr (item - low_bits item 8 + 0x80 + low_bits v 7) 7 % 2 ≡ 1)
      × (low_bits (item - low_bits item 8 + 0x80 + low_bits v 7) 7 ≡ low_bits v 7)
      × (shr (item - low_bits item 8 + 0x80 + low_bits v 7) 8 ≡ shr item 8)
cached_bits item v = (omega arith, omega arith, omega arith)

-- The bit that says that the item holds the value that calc_func returned for it.
abbrev pub IsCached : ℕ → Type 0
IsCached item = shr item 7 % 2 ≡ 1

-- What calc_func leaves: the value in the item, whose upper byte is kept.
pub record Caching (item : ℕ) (out : Calculated) : Type 0 where
  pub cached : IsCached out.pdata
  pub value : low_bits out.pdata 7 ≡ out.value
  pub upper : shr out.pdata 8 ≡ shr item 8
  pub same : IsCached item → out.pdata ≡ item
  pub ready : IsReady out.res

pub calc_func-Caching :
    (item : ℕ) (r : Results)
    → IsReady r
    → (out : Calculated) × (calc_func item r ≡ ok out) × Caching item out
unfolding calc_func
calc_func-Caching item r h = elim (Bool-cases (shr item 7 % 2 == 1)) [
  | inl cached ↦ rw cached (
    calculated (low_bits item 7) item r,
    refl,
    record { cached = ground arith; value = refl; upper = refl; same = λ c. refl; ready = h },
  )
  | inr fresh ↦
      let (ran, e, same) = run_flag-SameBlocks item r h in
      let (set_bit, bits, upper) = cached_bits item ran.retval in
      rw (fresh, e)
        (
          _,
          refl,
          record {
            cached = set_bit;
            value = bits;
            upper = upper;
            same = λ c. absurd (ground arith);
            ready = IsReady-crc ran.res _ (IsReady-SameBlocks r ran.res h same);
          },
        )
]

cached_again :
    (item : ℕ) (out : Calculated) → Caching item out → calc_func out.pdata out.res ≡ ok out
unfolding calc_func
cached_again item out c = rw (c.cached, c.value) refl

-- calc_func on results that are ready for the other benchmarks returns. Its value has seven bits,
-- the upper byte of the item is kept, a second call on the item returns the same value and changes
-- nothing, and the results are still ready.
pub calc_func_caches :
    (item : ℕ) (r : Results)
    → IsReady r
    → (out : Calculated) × (calc_func item r ≡ ok out)
      × (out.value < 2 ^ 7)
      × (shr out.pdata 8 ≡ shr item 8)
      × (calc_func out.pdata out.res ≡ ok out)
      × IsReady out.res
calc_func_caches item r h =
    let (out, e, c) = calc_func-Caching item r h in
    let small : low_bits out.pdata 7 < 2 ^ 7 = omega arith in
    (out, e, rw c.value at small, c.upper, cached_again item out c, c.ready)
