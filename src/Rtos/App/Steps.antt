-- ===== src/Rtos/App/Steps.antt =====
-- Every step of rtos/app/main.c keeps the order of the items.
use mathlib.Core.Path.{subst}
use mathlib.Core.Option.{some-injective, none-ne-some}
use gandiva.Base.{
  ℕ, zero, suc, ◌+◌, ◌≤◌, ◌<◌, ◌≡◌, refl, sym, ap, ◌∙◌, arith, ◌⊎◌, inl, inr, Bool-cases, ◌==◌, ltb,
  ltb→lt, if◌then◌else◌, Bool, true, false, Option, none, some, List, [], ◌∷◌, ◌++◌, length,
}
use gandiva.Rtos.Kernel.{Kernel}
use gandiva.Rtos.App.{
  num_items, queue_len, tick_rate_hz, Line, sent, got, run, sem, finished, Producer, sending,
  announcing, giving, pausing, delaying, deleted, Consumer, taking, noting, receiving, received,
  passed, App, boot, producer_at, producer_step, consumer_at, consumer_step, tick_step, worker_at,
  worker_step, Step, producer, consumer, tick, worker, Reach, here, next,
}
use gandiva.Rtos.App.Order.{
  gots, gots-append, gots_other, numbers, Ordered, AtPlace, length-numbers, received_count,
}
use gandiva.Rtos.App.Order.Moves.{
  send-Ordered, announce-Ordered, give-Ordered, pause-Ordered, tick-Ordered, delay-Ordered,
  take-Ordered, note-Ordered, receive-Ordered, got-Ordered, item_waits,
}

gots-got :
    (ls : List Line) (v : ℕ) (ends : Bool)
    → gots (ls ++ (got v ∷ (if ends then finished ∷ [] else []))) ≡ gots ls ++ v ∷ []
gots-got ls v true = gots-append ls (got v ∷ finished ∷ [])
gots-got ls v false = gots-append ls (got v ∷ [])

place_le : (c : Consumer) (n : ℕ) → AtPlace c n → n ≤ num_items
place_le taking n at = omega arith
place_le noting n at = omega arith
place_le receiving n at = omega arith
place_le (received v) n (at, _) = omega arith
place_le passed n at = omega arith

numbers-length : (xs : List ℕ) (n m : ℕ) → xs ≡ numbers n m → xs ≡ numbers n (length xs)
numbers-length xs n m e = e ∙ ap (numbers n) (sym (ap length e ∙ length-numbers n m))

module _ (k : Kernel queue_len num_items tick_rate_hz) where
  abbrev pub InOrder : App k → Type 0
  InOrder a =
      Ordered a.producer a.consumer (k.contents a.queue) (k.units a.semaphore) a.consumed
        (gots a.lines)

  -- The queue has room for an item or blocks.
  pub send_cases :
      (q : k.Queue) (v : ℕ)
      → ((q' : k.Queue) × (k.send q v ≡ some q') × (k.contents q' ≡ k.contents q ++ v ∷ []))
        ⊎ ((k.send q v ≡ none) × (queue_len ≤ length (k.contents q)))
  send_cases q v = elim (Bool-cases (ltb (length (k.contents q)) queue_len)) [
    | inl room ↦ inl (k.send_room q v (ltb→lt (length (k.contents q)) queue_len room))
    | inr full ↦
        let le : queue_len ≤ length (k.contents q) = ground arith in inr (k.send_full q v le, le)
  ]

  producer_at-InOrder :
      (a b : App k) (p : Producer)
      → a.producer ≡ p
      → producer_at k a p ≡ some b
      → InOrder a
      → InOrder b
  producer_at-InOrder a b (sending i) at e o = elim (send_cases a.queue i) [
    | inl (q, sends, holds) ↦
        subst InOrder (some-injective _ _ (rw sends at e)) (rw holds (send-Ordered i (rw at at o)))
    | inr (blocks, full) ↦ absurd (none-ne-some b (rw blocks at e))
  ]
  producer_at-InOrder a b (announcing i) at e o =
      subst InOrder (some-injective _ _ e)
        (rw (gots_other a.lines (sent i) refl) (announce-Ordered i (rw at at o)))
  producer_at-InOrder a b (giving i) at e o =
      let o' = rw at at o in
      let counts = o'.in_units in
      let (low, high) = o'.range in
      let room : k.units a.semaphore < num_items = omega arith in
      subst InOrder (some-injective _ _ e) (rw (k.give_unit a.semaphore room) (give-Ordered i o'))
  producer_at-InOrder a b (pausing i) at e o =
      subst InOrder (some-injective _ _ e) (pause-Ordered i (k.ms_to_ticks 5) (rw at at o))
  producer_at-InOrder a b (delaying i (suc wait)) at e o = absurd (none-ne-some b e)
  producer_at-InOrder a b (delaying i zero) at e o =
      subst InOrder (some-injective _ _ e) (delay-Ordered i (rw at at o))
  producer_at-InOrder a b deleted at e o = absurd (none-ne-some b e)

  pub take_cases :
      (s : k.Semaphore)
      → ((s' : k.Semaphore) × (k.take s ≡ some s') × (k.units s ≡ suc (k.units s')))
        ⊎ ((k.take s ≡ none) × (k.units s ≡ 0))
  take_cases s = go (k.units s) refl
    where
      go :
          (n : ℕ)
          → k.units s ≡ n
          → ((s' : k.Semaphore) × (k.take s ≡ some s') × (k.units s ≡ suc (k.units s')))
            ⊎ ((k.take s ≡ none) × (k.units s ≡ 0))
      go zero e = inr (k.take_none s e, e)
      go (suc n) e =
          let (s', takes, left) = k.take_unit s n e in inl (s', takes, e ∙ ap suc (sym left))

  consumer_at-InOrder :
      (a b : App k) (c : Consumer)
      → a.consumer ≡ c
      → consumer_at k a c ≡ some b
      → InOrder a
      → InOrder b
  consumer_at-InOrder a b taking at e o = elim (take_cases a.semaphore) [
    | inl (s, takes, left) ↦
        subst InOrder (some-injective _ _ (rw takes at e)) (take-Ordered (rw (at, left) at o))
    | inr (blocks, z) ↦ absurd (none-ne-some b (rw blocks at e))
  ]
  consumer_at-InOrder a b noting at e o =
      subst InOrder (some-injective _ _ e)
        (rw (gots_other a.lines sem refl) (note-Ordered (rw at at o)))
  consumer_at-InOrder a b receiving at e o =
      let o' = rw at at o in
      let shape = item_waits o' in
      let (q, receives, left) = k.receive_item a.queue _ _ shape in
      subst InOrder (some-injective _ _ (rw receives at e)) (rw left (receive-Ordered _ _ shape o'))
  consumer_at-InOrder a b (received v) at e o =
      subst InOrder (some-injective _ _ e)
        (rw (gots-got a.lines v (a.consumed + 1 == num_items)) (got-Ordered v (rw at at o)))
  consumer_at-InOrder a b passed at e o = absurd (none-ne-some b e)

  worker_at-InOrder : (a : App k) (l : Option ℕ) → InOrder a → InOrder (worker_at k a l)
  worker_at-InOrder a none o = o
  worker_at-InOrder a (some t) o = elim (Bool-cases (a.tick == t)) [
    | inl same ↦ rw same o
    | inr differs ↦ elim (Bool-cases (ltb a.reports 6)) [
      | inl few ↦
          rw (differs, few)
            (subst
              (λ g.
                Ordered a.producer a.consumer (k.contents a.queue) (k.units a.semaphore) a.consumed
                  g)
              (sym (gots_other a.lines (run a.tick) refl)) o)
      | inr many ↦ rw (differs, many) o
    ]
  ]

  boot-InOrder : InOrder (boot k)
  unfolding boot
  boot-InOrder = record {
    range = (omega arith, omega arith);
    place = omega arith;
    behind = omega arith;
    in_queue = k.contents-create;
    in_units = rw k.units-create refl;
    in_order = refl;
  }

  pub Step-InOrder : (a b : App k) → Step k a b → InOrder a → InOrder b
  unfolding producer_step consumer_step worker_step tick_step
  Step-InOrder a b (producer on e) o = producer_at-InOrder a b a.producer refl e o
  Step-InOrder a b (consumer e) o = consumer_at-InOrder a b a.consumer refl e o
  Step-InOrder a b (tick on e) o = subst InOrder (sym e) (tick-Ordered a.producer o)
  Step-InOrder a b (worker on e) o = subst InOrder (sym e) (worker_at-InOrder a a.last o)

  pub Reach-InOrder : (b : App k) → Reach k (boot k) b → InOrder b
  Reach-InOrder b here = boot-InOrder
  Reach-InOrder b (next {b = c} r s) = Step-InOrder c b s (Reach-InOrder c r)

  -- Whatever the order of the tasks' steps, the values that the consumer has printed are the
  -- numbers from 1 to its count, which is at most 8, what the queue holds are the numbers that
  -- follow, and the consumer calls sim_pass only with a count of 8.
  pub consumer_in_order :
      (a : App k)
      → Reach k (boot k) a
      → (gots a.lines ≡ numbers 1 a.consumed)
        × (a.consumed ≤ num_items)
        × (k.contents a.queue
            ≡ numbers (received_count a.consumer a.consumed + 1) (length (k.contents a.queue)))
        × (a.consumer ≡ passed → a.consumed ≡ num_items)
  consumer_in_order a r =
      let o = Reach-InOrder a r in
      (
        o.in_order,
        place_le a.consumer a.consumed o.place,
        numbers-length (k.contents a.queue) _ _ o.in_queue,
        λ e. rw e at o.place,
      )
