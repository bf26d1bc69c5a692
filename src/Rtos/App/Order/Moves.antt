-- ===== src/Rtos/App/Order/Moves.antt =====
-- Each move of a task of rtos/app/main.c keeps the order of the items.
use gandiva.Base.{
  ℕ, zero, suc, ◌+◌, ◌-◌, ◌≤◌, ◌<◌, ◌≡◌, refl, sym, ap, ◌∙◌, arith, inl, inr, Bool-cases, ◌==◌, leb,
  if◌then◌else◌, List, [], ◌∷◌, ◌++◌,
}
use gandiva.Rtos.App.{
  num_items, Producer, sending, announcing, giving, pausing, delaying, deleted, ticked, Consumer,
  taking, noting, receiving, received, passed,
}
use gandiva.Rtos.App.Order.{
  numbers, numbers_snoc, sent_count, given_count, InRange, received_count, Ordered,
}

numbers_grow :
    (r i : ℕ) → r ≤ i - 1 → 1 ≤ i → numbers (r + 1) (i - 1 - r) ++ i ∷ [] ≡ numbers (r + 1) (i - r)
numbers_grow r i le one =
    let e : i - r ≡ suc (i - 1 - r) = omega arith in
    let last : r + 1 + (i - 1 - r) ≡ i = omega arith in
    sym (rw e (rw last at (numbers_snoc (r + 1) (i - 1 - r))))

numbers_head :
    (n s : ℕ) → n < s → numbers (n + 1) (s - n) ≡ (n + 1) ∷ numbers (n + 1 + 1) (s - (n + 1))
numbers_head n s lt = let e : s - n ≡ suc (s - (n + 1)) = omega arith in rw e refl

pub given_le_sent : (p : Producer) → InRange p → given_count p ≤ sent_count p
given_le_sent (sending i) r = omega arith
given_le_sent (announcing i) r = omega arith
given_le_sent (giving i) r = omega arith
given_le_sent (pausing i) r = omega arith
given_le_sent (delaying i wait) r = omega arith
given_le_sent deleted r = omega arith

pub sent_le_all : (p : Producer) → InRange p → sent_count p ≤ num_items
sent_le_all (sending i) (l, u) = omega arith
sent_le_all (announcing i) (l, u) = u
sent_le_all (giving i) (l, u) = u
sent_le_all (pausing i) (l, u) = u
sent_le_all (delaying i wait) (l, u) = u
sent_le_all deleted r = omega arith

module _ {c : Consumer} {queue : List ℕ} {units n : ℕ} {printed : List ℕ} where
  pub send-Ordered :
      (i : ℕ)
      → Ordered (sending i) c queue units n printed
      → Ordered (announcing i) c (queue ++ i ∷ []) units n printed
  send-Ordered i o = record {
    range = o.range;
    place = o.place;
    behind = let le = o.behind in omega arith;
    in_queue =
        ap (λ q. q ++ i ∷ []) o.in_queue ∙ numbers_grow (received_count c n) i o.behind o.range.0;
    in_units = o.in_units;
    in_order = o.in_order;
  }

  pub announce-Ordered :
      (i : ℕ)
      → Ordered (announcing i) c queue units n printed
      → Ordered (giving i) c queue units n printed
  announce-Ordered i o = record {
    range = o.range;
    place = o.place;
    behind = o.behind;
    in_queue = o.in_queue;
    in_units = o.in_units;
    in_order = o.in_order;
  }

  pub give-Ordered :
      (i : ℕ)
      → Ordered (giving i) c queue units n printed
      → Ordered (pausing i) c queue (units + 1) n printed
  give-Ordered i o = record {
    range = o.range;
    place = o.place;
    behind = o.behind;
    in_queue = o.in_queue;
    in_units = let e = o.in_units in let r = o.range in omega arith;
    in_order = o.in_order;
  }

  pub pause-Ordered :
      (i wait : ℕ)
      → Ordered (pausing i) c queue units n printed
      → Ordered (delaying i wait) c queue units n printed
  pause-Ordered i wait o = record {
    range = o.range;
    place = o.place;
    behind = o.behind;
    in_queue = o.in_queue;
    in_units = o.in_units;
    in_order = o.in_order;
  }

  pub tick-Ordered :
      (p : Producer)
      → Ordered p c queue units n printed
      → Ordered (ticked p) c queue units n printed
  tick-Ordered (sending i) o = o
  tick-Ordered (announcing i) o = o
  tick-Ordered (giving i) o = o
  tick-Ordered (pausing i) o = o
  tick-Ordered (delaying i zero) o = o
  tick-Ordered (delaying i (suc wait)) o = record {
    range = o.range;
    place = o.place;
    behind = o.behind;
    in_queue = o.in_queue;
    in_units = o.in_units;
    in_order = o.in_order;
  }
  tick-Ordered deleted o = o

  pub delay-Ordered :
      (i : ℕ)
      → Ordered (delaying i 0) c queue units n printed
      → Ordered (if leb (i + 1) num_items then sending (i + 1) else deleted) c queue units n printed
  delay-Ordered i o =
      let (one, most) = o.range in
      let back : i + 1 - 1 ≡ i = omega arith in
      elim (Bool-cases (leb (i + 1) num_items)) [
        | inl ends ↦
            let le : i + 1 ≤ num_items = ground arith in
            rw ends (record {
              range = (omega arith, le);
              place = o.place;
              behind = rw back o.behind;
              in_queue = rw back o.in_queue;
              in_units = rw back o.in_units;
              in_order = o.in_order;
            })
        | inr goes ↦
            let all : i ≡ num_items = ground arith in
            rw goes (record {
              range = tt;
              place = o.place;
              behind = rw all at o.behind;
              in_queue = rw all at o.in_queue;
              in_units = rw all at o.in_units;
              in_order = o.in_order;
            })
      ]

module _ {p : Producer} {queue : List ℕ} {units n : ℕ} {printed : List ℕ} where
  pub take-Ordered :
      Ordered p taking queue (suc units) n printed → Ordered p noting queue units n printed
  take-Ordered o = record {
    range = o.range;
    place = o.place;
    behind = o.behind;
    in_queue = o.in_queue;
    in_units = let e = o.in_units in omega arith;
    in_order = o.in_order;
  }

  pub note-Ordered :
      Ordered p noting queue units n printed → Ordered p receiving queue units n printed
  note-Ordered o = record {
    range = o.range;
    place = o.place;
    behind = o.behind;
    in_queue = o.in_queue;
    in_units = o.in_units;
    in_order = o.in_order;
  }

  -- A consumer that has its unit has an item in the queue, the next one.
  pub item_waits :
      Ordered p receiving queue units n printed
      → queue ≡ (n + 1) ∷ numbers (n + 1 + 1) (sent_count p - (n + 1))
  item_waits o =
      let e = o.in_units in
      let le = given_le_sent p o.range in o.in_queue ∙ numbers_head n (sent_count p) (omega arith)

  pub receive-Ordered :
      (v : ℕ) (vs : List ℕ)
      → queue ≡ v ∷ vs
      → Ordered p receiving queue units n printed
      → Ordered p (received v) vs units n printed
  receive-Ordered v vs shape o =
      let e = o.in_units in
      let le = given_le_sent p o.range in
      let same : v ∷ vs ≡ (n + 1) ∷ numbers (n + 1 + 1) (sent_count p - (n + 1)) =
        sym shape ∙ item_waits o in
      record {
        range = o.range;
        place = (o.place, cc);
        behind = omega arith;
        in_queue = cc;
        in_units = o.in_units;
        in_order = o.in_order;
      }

  pub got-Ordered :
      (v : ℕ)
      → Ordered p (received v) queue units n printed
      → Ordered p
          (if n + 1 == num_items then passed else taking)
          queue
          units
          (n + 1)
          (printed ++ v ∷ [])
  got-Ordered v o =
      let (lt, which) = o.place in
      let more : printed ++ v ∷ [] ≡ numbers 1 (n + 1) =
        let e : 1 + n ≡ n + 1 = omega arith in
        let up : n + 1 ≡ suc n = omega arith in
        rw (which, o.in_order, up) (sym (rw (e, up) at (numbers_snoc 1 n))) in
      elim (Bool-cases (n + 1 == num_items)) [
        | inl ends ↦
            let all : n + 1 ≡ num_items = ground arith in
            rw ends (record {
              range = o.range;
              place = all;
              behind = o.behind;
              in_queue = o.in_queue;
              in_units = o.in_units;
              in_order = more;
            })
        | inr goes ↦
            let some : n + 1 < num_items = ground arith in
            rw goes (record {
              range = o.range;
              place = some;
              behind = o.behind;
              in_queue = o.in_queue;
              in_units = o.in_units;
              in_order = more;
            })
      ]
