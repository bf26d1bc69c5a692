-- ===== src/Tests/App.antt =====
-- The tasks of rtos/app on a queue that is a list and a semaphore that is a number.
use gandiva.Base.{
  ℕ, zero, suc, ◌+◌, ◌*◌, ◌/◌, ◌≤◌, ◌<◌, ◌≡◌, refl, ap, arith, ltb, lt→ltb, le→ltb, if◌then◌else◌,
  Option, none, some, List, [], ◌∷◌, ◌++◌, length,
}
use gandiva.Rtos.Kernel.{Kernel}
use gandiva.Rtos.App.{
  num_items, queue_len, tick_rate_hz, sent, got, sem, delaying, taking, passed, App, boot,
  producer_step, consumer_step, tick_step, producer, consumer, tick, Reach, here, next,
}
use gandiva.Rtos.App.Order.{gots, numbers, received_count}
use gandiva.Rtos.App.Steps.{consumer_in_order}
use gandiva.Rtos.App.Progress.{app_finishes}

abbrev push : List ℕ → ℕ → Option (List ℕ)
push q v = if ltb (length q) 4 then some (q ++ v ∷ []) else none

abbrev pop : List ℕ → Option (ℕ × List ℕ)
pop [] = none
pop (v ∷ q) = some (v, q)

abbrev down : ℕ → Option ℕ
down zero = none
down (suc n) = some n

push_room :
    (q : List ℕ) (v : ℕ)
    → length q < queue_len
    → (q' : List ℕ) × (push q v ≡ some q') × (q' ≡ q ++ v ∷ [])
push_room q v room = (q ++ v ∷ [], rw (lt→ltb (length q) 4 room) refl, refl)

push_full : (q : List ℕ) (v : ℕ) → queue_len ≤ length q → push q v ≡ none
push_full q v full = rw (le→ltb (length q) 4 full) refl

pop_item :
    (q : List ℕ) (v : ℕ) (vs : List ℕ)
    → q ≡ v ∷ vs
    → (q' : List ℕ) × (pop q ≡ some (v, q')) × (q' ≡ vs)
pop_item q v vs e = (vs, ap pop e, refl)

down_unit : (s n : ℕ) → s ≡ suc n → (s' : ℕ) × (down s ≡ some s') × (s' ≡ n)
down_unit s n e = (n, ap down e, refl)

abbrev lists : Kernel queue_len num_items tick_rate_hz
lists = record {
  Queue = List ℕ;
  Semaphore = ℕ;
  create_queue = [];
  create_counting = 0;
  send = push;
  receive = pop;
  give = λ s. s + 1;
  take = down;
  ms_to_ticks = λ ms. ms * tick_rate_hz / 1000;
  contents = λ q. q;
  units = λ s. s;
  contents-create = refl;
  units-create = refl;
  send_room = push_room;
  send_full = push_full;
  receive_item = pop_item;
  receive_empty = λ q e. ap pop e;
  give_unit = λ s lt. refl;
  take_unit = down_unit;
  take_none = λ s e. ap down e;
  ms_to_ticks-eq = λ ms. refl;
}

abbrev started : App lists
started = boot lists

-- The state after the first item, two ticks into the delay.
abbrev first_got : App lists
first_got = record {
  producer = delaying 1 3;
  consumer = taking;
  queue = [];
  semaphore = 0;
  consumed = 1;
  sem_taken = 1;
  lines = sent 1 ∷ sem ∷ got 1 ∷ [];
  tick = 2;
  last = none;
  reports = 0;
  ticks_seen = 0;
}

first_got-Reach : Reach lists started first_got
unfolding boot producer_step consumer_step tick_step
first_got-Reach =
    next
      (next
        (next
          (next
            (next
              (next
                (next
                  (next
                    (next (next here (producer (λ e. grind arith) refl))
                      (producer (λ e. grind arith) refl))
                    (producer (λ e. grind arith) refl))
                  (consumer refl))
                (consumer refl))
              (consumer refl))
            (producer (λ e. grind arith) refl))
          (tick (λ e. grind arith) refl))
        (consumer refl))
      (tick (λ e. grind arith) refl)

consumer_in_order_example :
    (gots first_got.lines ≡ numbers 1 first_got.consumed)
    × (first_got.consumed ≤ num_items)
    × (lists.contents first_got.queue
        ≡ numbers
            (received_count first_got.consumer first_got.consumed + 1)
            (length (lists.contents first_got.queue)))
    × (first_got.consumer ≡ passed → first_got.consumed ≡ num_items)
consumer_in_order_example = consumer_in_order lists first_got first_got-Reach

app_finishes_example :
    (b : App lists) × Reach lists first_got b
    × (b.consumer ≡ passed)
    × (gots b.lines ≡ numbers 1 num_items)
app_finishes_example = app_finishes lists first_got first_got-Reach
