-- ===== src/Rtos/App/Progress.antt =====
-- The tasks of rtos/app/main.c do not wait for each other for ever.
use gandiva.Base.{
  ℕ, zero, suc, ◌+◌, ◌-◌, ◌*◌, ◌≤◌, ◌<◌, ◌≡◌, ◌≢◌, refl, ap, ◌∙◌, arith, ◌⊎◌, inl, inr, Bool-cases,
  ◌==◌, leb, if◌then◌else◌, some, length,
}
use gandiva.Rtos.Kernel.{Kernel}
use gandiva.Rtos.App.{
  num_items, queue_len, tick_rate_hz, Producer, sending, announcing, giving, pausing, delaying,
  deleted, Consumer, taking, noting, receiving, received, passed, App, boot, producer_at,
  producer_step, consumer_at, consumer_step, tick_step, Step, producer, consumer, tick, Reach, here,
  next,
}
use gandiva.Rtos.App.Order.{gots, numbers, length-numbers}
use gandiva.Rtos.App.Order.Moves.{item_waits}
use gandiva.Rtos.App.Steps.{
  InOrder, consumer_in_order, send_cases, take_cases, Step-InOrder, Reach-InOrder,
}

-- The steps that the producer and the consumer have left, the ticks of the delays among them.
abbrev pub producer_left : Producer → ℕ
producer_left (sending i) = 10 * (8 - i) + 10
producer_left (announcing i) = 10 * (8 - i) + 9
producer_left (giving i) = 10 * (8 - i) + 8
producer_left (pausing i) = 10 * (8 - i) + 7
producer_left (delaying i wait) = 10 * (8 - i) + (wait + 1)
producer_left deleted = 0

abbrev pub consumer_left : Consumer → ℕ → ℕ
consumer_left taking n = 4 * (7 - n) + 4
consumer_left noting n = 4 * (7 - n) + 3
consumer_left receiving n = 4 * (7 - n) + 2
consumer_left (received v) n = 4 * (7 - n) + 1
consumer_left passed n = 0

passed_cases : (c : Consumer) → (c ≡ passed) ⊎ (c ≢ passed)
passed_cases taking = inr (λ e. grind arith)
passed_cases noting = inr (λ e. grind arith)
passed_cases receiving = inr (λ e. grind arith)
passed_cases (received v) = inr (λ e. grind arith)
passed_cases passed = inl refl

module _ (k : Kernel queue_len num_items tick_rate_hz) where
  abbrev pub left : App k → ℕ
  left a = producer_left a.producer + consumer_left a.consumer a.consumed

  abbrev Advance : App k → Type 0
  Advance a = (b : App k) × Step k a b × (left b < left a)

  delay_left :
      (i : ℕ)
      → i ≤ num_items
      → producer_left (if leb (i + 1) num_items then sending (i + 1) else deleted)
        < producer_left (delaying i 0)
  delay_left i le = elim (Bool-cases (leb (i + 1) num_items)) [
    | inl goes ↦ let more : i + 1 ≤ num_items = ground arith in rw goes (omega arith)
    | inr ends ↦ rw ends (omega arith)
  ]

  got_left :
      (n v : ℕ)
      → n < num_items
      → consumer_left (if n + 1 == num_items then passed else taking) (n + 1)
        < consumer_left (received v) n
  got_left n v lt = elim (Bool-cases (n + 1 == num_items)) [
    | inl ends ↦ rw ends (omega arith)
    | inr goes ↦ let more : n + 1 < num_items = ground arith in rw goes (omega arith)
  ]

  by_producer :
      (a b : App k) (p : Producer)
      → a.consumer ≢ passed
      → a.producer ≡ p
      → producer_at k a p ≡ some b
      → Step k a b
  unfolding producer_step
  by_producer a b p on at e = producer on (rw at e)

  by_consumer :
      (a b : App k) (c : Consumer) → a.consumer ≡ c → consumer_at k a c ≡ some b → Step k a b
  unfolding consumer_step
  by_consumer a b c at e = consumer (rw at e)

  tick_left :
      (a : App k) (i wait : ℕ) → a.producer ≡ delaying i (suc wait) → left (tick_step k a) < left a
  unfolding tick_step
  tick_left a i wait at = rw at (omega arith)

  -- While the consumer waits for a unit, the producer has a step or waits for a tick.
  producer-Advance :
      (a : App k) (p : Producer)
      → InOrder k a
      → a.producer ≡ p
      → a.consumer ≡ taking
      → k.units a.semaphore ≡ 0
      → Advance a
  producer-Advance a (sending i) o at waits empty =
      let o' = rw (at, waits, empty) at o in
      let none_queued : length (k.contents a.queue) ≡ 0 =
        let behind : (i - 1) - a.consumed ≡ 0 = let e = o'.in_units in omega arith in
        ap length o'.in_queue ∙ length-numbers _ _ ∙ behind in
      elim (send_cases k a.queue i) [
        | inl (q, sends, _) ↦ (
          record a { producer = announcing i; queue = q },
          by_producer a _ (sending i) (λ e. grind arith) at (rw sends refl),
          rw at (omega arith),
        )
        | inr (_, full) ↦ absurd (omega arith)
      ]
  producer-Advance a (announcing i) o at waits empty =
      (_, by_producer a _ (announcing i) (λ e. grind arith) at refl, rw at (omega arith))
  producer-Advance a (giving i) o at waits empty =
      (_, by_producer a _ (giving i) (λ e. grind arith) at refl, rw at (omega arith))
  producer-Advance a (pausing i) o at waits empty = (
    _,
    by_producer a _ (pausing i) (λ e. grind arith) at refl,
    rw (at, k.ms_to_ticks-eq 5) (omega arith),
  )
  producer-Advance a (delaying i (suc wait)) o at waits empty =
      (tick_step k a, tick (λ e. grind arith) refl, tick_left a i wait at)
  producer-Advance a (delaying i zero) o at waits empty = (
    _,
    by_producer a _ (delaying i 0) (λ e. grind arith) at refl,
    rw at (let lt = delay_left i ((rw at at o.range).1) in omega arith),
  )
  producer-Advance a deleted o at waits empty =
      let o' = rw (at, waits, empty) at o in
      let lt = o'.place in let e = o'.in_units in absurd (omega arith)

  consumer-Advance :
      (a : App k) (c : Consumer) → InOrder k a → a.consumer ≡ c → c ≢ passed → Advance a
  consumer-Advance a taking o at goes = elim (take_cases k a.semaphore) [
    | inl (s, takes, _) ↦ (
      record a { consumer = noting; semaphore = s },
      by_consumer a _ taking at (rw takes refl),
      rw at (omega arith),
    )
    | inr (_, empty) ↦ producer-Advance a a.producer o refl at empty
  ]
  consumer-Advance a noting o at goes = (_, by_consumer a _ noting at refl, rw at (omega arith))
  consumer-Advance a receiving o at goes =
      let (q, receives, _) = k.receive_item a.queue _ _ (item_waits (rw at at o)) in
      (
        record a { consumer = received (a.consumed + 1); queue = q },
        by_consumer a _ receiving at (rw receives refl),
        rw at (omega arith),
      )
  consumer-Advance a (received v) o at goes =
      let lt = got_left a.consumed v ((rw at at o.place).0) in
      (_, by_consumer a _ (received v) at refl, rw at (omega arith))
  consumer-Advance a passed o at goes = absurd (goes refl)

  pub Reach-trans : (a b c : App k) → Reach k a b → Reach k b c → Reach k a c
  Reach-trans a b c r here = r
  Reach-trans a b c r (next {b = d} t s) = next (Reach-trans a b d r t) s

  finish_in :
      (m : ℕ) (a : App k)
      → left a ≤ m
      → InOrder k a
      → (b : App k) × Reach k a b × (b.consumer ≡ passed)
  finish_in zero a le o = elim (passed_cases a.consumer) [
    | inl done ↦ (a, here, done)
    | inr goes ↦ let (b, s, lt) = consumer-Advance a a.consumer o refl goes in absurd (omega arith)
  ]
  finish_in (suc m) a le o = elim (passed_cases a.consumer) [
    | inl done ↦ (a, here, done)
    | inr goes ↦
        let (b, s, lt) = consumer-Advance a a.consumer o refl goes in
        let (c, run, done) = finish_in m b (omega arith) (Step-InOrder k a b s o) in
        (c, Reach-trans a b c (next here s) run, done)
  ]

  -- From every state that the tasks can reach, in whatever order they have run, there are steps of
  -- the tasks and timer interrupts, which end the producer's delays, that lead to sim_pass, and the
  -- consumer has then printed the numbers from 1 to 8.
  pub app_finishes :
      (a : App k)
      → Reach k (boot k) a
      → (b : App k) × Reach k a b × (b.consumer ≡ passed) × (gots b.lines ≡ numbers 1 num_items)
  app_finishes a r =
      let (b, run, done) = finish_in (left a) a (omega arith) (Reach-InOrder k a r) in
      let (order, _, _, all) = consumer_in_order k b (Reach-trans (boot k) a b r run) in
      (b, run, done, rw (all done) at order)
