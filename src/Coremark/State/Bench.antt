-- ===== src/Coremark/State/Bench.antt =====
-- core_bench_state as a whole: what it does to its block.
use gandiva.Base.{
  ℕ, zero, suc, ◌+◌, ◌^◌, ◌≤◌, ◌<◌, ◌≡◌, ap, arith, inl, inr, false, List, [], ◌∷◌, length, get_or,
  Run, ok,
}
use gandiva.Coremark.State.{tally, Benched, benched, crc_counts, core_bench_state, no_counts}
use gandiva.Coremark.State.Scan.{Terminated, scan_all_total}
use gandiva.Coremark.State.Corrupt.{
  hits, IsCorrupted, corrupt-IsCorrupted, NoCommaMade, corrupt_twice,
}

-- A zero byte that no pass looks at.
abbrev pub KeepsEnd : ℕ → ℕ → List ℕ → Type 0
KeepsEnd blksize step mem =
    (z : ℕ) × (z < length mem) × (get_or mem z 0 ≡ 0) × (hits step 0 z ≡ false)

Terminated-at : (mem : List ℕ) (z : ℕ) → z < length mem → get_or mem z 0 ≡ 0 → Terminated mem
Terminated-at [] z h e = absurd (omega arith)
Terminated-at (c ∷ mem) zero h e = inl e
Terminated-at (c ∷ mem) (suc z) h e = inr (Terminated-at mem z (omega arith) e)

kept :
    (blksize seed step : ℕ) (mem : List ℕ) (r : Run (List ℕ))
    → KeepsEnd blksize step mem
    → (c : IsCorrupted blksize seed step 0 mem r) → Terminated c.out
kept blksize seed step mem r (z, below, nul, miss) c =
    Terminated-at c.out z (omega (arith, c.same_length)) (ground (arith, c.bytes z))

-- For a step from 1 to 2^15 - 1, a size within the block, a zero byte that no pass looks at, and
-- one seed for both passes that turns no byte they look at into a comma, core_bench_state returns
-- and leaves the block as it was.
pub core_bench_state_restores :
    (blksize : ℕ) (memblock : List ℕ) (seed step crc : ℕ)
    → 0 < step
    → step < 2 ^ 15
    → blksize ≤ length memblock
    → KeepsEnd blksize step memblock
    → NoCommaMade blksize seed step memblock
    → (out : Benched) × (core_bench_state blksize memblock seed seed step crc ≡ ok out)
      × (out.memblock ≡ memblock)
unfolding core_bench_state
core_bench_state_restores blksize memblock seed step crc pos small fits (z, below, nul, miss) safe =
    let (mid, out, e₁, e₂, same) = corrupt_twice blksize seed step memblock pos small fits in
    let c =
      corrupt-IsCorrupted blksize seed step pos small (blksize + 1) 0 memblock (omega arith)
        (omega arith) fits in
    let m : c.out ≡ mid = cc (e₁, c.returns) in
    let (first, f) =
      scan_all_total (length memblock + 1) memblock (tally no_counts no_counts)
        (Terminated-at memblock z below nul) (omega arith) in
    let (second, g) =
      scan_all_total (length memblock + 1) mid first
        (rw m at (kept blksize seed step memblock _ (z, below, nul, miss) c))
        (omega (arith, c.same_length, ap (λ (l : List ℕ). length l) m)) in
    (benched (crc_counts second.final second.track crc) out, rw (f, e₁, g, e₂), same.1 safe)
