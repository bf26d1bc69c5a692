-- ===== src/Embench/Start.antt =====
-- initialise_board of embench/config/gandiva/boardsupport.c: how long it waits.
use gandiva.Base.{
  ℕ, zero, suc, ◌+◌, ◌-◌, ◌%◌, ◌^◌, ◌≤◌, ◌<◌, ◌≡◌, refl, arith, inl, inr, Bool-cases, ltb, u32,
  codes, ◌++◌, ok,
}
use gandiva.Embench.{Board, delay, wait_loop, initialise_board}
use gandiva.Embench.Cycles.{uart_puts-literal}

distance : (a c : ℕ) → a ≤ c → c < a + 2 ^ 32 → u32 (c % 2 ^ 32 + 2 ^ 32 - a % 2 ^ 32) ≡ c - a
distance a c le near = omega arith

-- The cycles of the readings: each is later than the one before it, and not much later.
module _ (clock : ℕ → ℕ) (up : (k : ℕ) → clock k < clock (k + 1))
    (near : (k : ℕ) → clock (k + 1) + delay < clock k + 2 ^ 32) where
  -- The reading that ends the loop is the first one behind the delay.
  pub record Waited (k : ℕ) : Type 0 where
    pub behind : clock 0 + delay < clock k
    pub before : (j : ℕ) → j < k → clock j ≤ clock 0 + delay

  wait_loop-Waited :
      (fuel j : ℕ)
      → delay < fuel + j
      → clock 0 + j ≤ clock j
      → ((i : ℕ) → i < j + 1 → clock i ≤ clock 0 + delay)
      → (k : ℕ) × (wait_loop fuel (λ i. clock i % 2 ^ 32) (clock 0 % 2 ^ 32) (j + 1) ≡ ok k)
        × Waited k
  unfolding wait_loop
  wait_loop-Waited zero j enough grown early = absurd (omega (arith, early j (omega arith)))
  wait_loop-Waited (suc fuel) j enough grown early =
      let later = up j in
      let close = near j in
      let last = early j (omega arith) in
      let d = distance (clock 0) (clock (j + 1)) (omega arith) (omega arith) in
      rw d (elim (Bool-cases (ltb delay (clock (j + 1) - clock 0))) [
        | inl over ↦ rw over (j + 1, refl, record { behind = ground arith; before = early })
        | inr not_over ↦
            let still : clock (j + 1) ≤ clock 0 + delay = ground arith in
            rw not_over (
              wait_loop-Waited fuel (j + 1) (omega arith) (omega arith) (λ i lt.
                elim (Bool-cases (ltb i (j + 1))) [
                  | inl old ↦ early i (ground arith)
                  | inr new ↦ let at : i ≡ j + 1 = ground arith in rw at still
                ]))
      ])

-- initialise_board, when the readings of the cycle counter come from a clock that goes on between two
-- readings, but by less than 2^32 - 50,000,000 cycles: more than 50,000,000 rounds are enough,
-- whether or not the lower word of the counter wraps around. The loop ends at the first reading
-- that is more than 50,000,000 cycles behind the first one of all, and then the line BOOT is sent.
pub initialise_board_waits :
    (fuel : ℕ) (clock : ℕ → ℕ) (b : Board)
    → delay < fuel
    → ((k : ℕ) → clock k < clock (k + 1))
    → ((k : ℕ) → clock (k + 1) + delay < clock k + 2 ^ 32)
    → (k : ℕ) × (wait_loop fuel (λ i. clock i % 2 ^ 32) (clock 0 % 2 ^ 32) 1 ≡ ok k)
      × (clock 0 + delay < clock k)
      × ((j : ℕ) → j < k → clock j ≤ clock 0 + delay)
      × (initialise_board fuel (λ i. clock i % 2 ^ 32) b
          ≡ ok (record b { sent = b.sent ++ codes "BOOT\n" }))
unfolding initialise_board
initialise_board_waits fuel clock b enough up near =
    let (k, e, waited) =
      wait_loop-Waited clock up near fuel 0 (omega arith) (omega arith)
        (λ i lt. let at : i ≡ 0 = omega arith in rw at (omega arith)) in
    let f : wait_loop fuel (λ i. clock i % 2 ^ 32) (clock 0 % 2 ^ 32) 1 ≡ ok k = e in
    (k, f, waited.behind, waited.before, rw f (uart_puts-literal (codes "BOOT\n") b refl))
