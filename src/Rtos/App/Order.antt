-- ===== src/Rtos/App/Order.antt =====
-- The order of the items of rtos/app/main.c, whatever the order in which the tasks take steps.
pub mod Moves
use gandiva.Base.{
  ℕ, zero, suc, ◌+◌, ◌-◌, ◌≤◌, ◌<◌, ◌≡◌, refl, sym, ap, ◌∙◌, arith, inl, inr, Bool-cases, ◌==◌, leb,
  if◌then◌else◌, List, [], ◌∷◌, ◌++◌, length, append-nil,
}
use gandiva.Rtos.App.{
  num_items, Line, sent, got, run, sem, finished, Producer, sending, announcing, giving, pausing,
  delaying, deleted, Consumer, taking, noting, receiving, received, passed,
}

-- `k` numbers from `n` on.
abbrev pub numbers : ℕ → ℕ → List ℕ
numbers n zero = []
numbers n (suc k) = n ∷ numbers (n + 1) k

-- The values of the lines that the consumer prints.
abbrev pub gots : List Line → List ℕ
gots [] = []
gots (got v ∷ ls) = v ∷ gots ls
gots (sent v ∷ ls) = gots ls
gots (run v ∷ ls) = gots ls
gots (sem ∷ ls) = gots ls
gots (finished ∷ ls) = gots ls

pub numbers_snoc : (n k : ℕ) → numbers n (suc k) ≡ numbers n k ++ (n + k) ∷ []
numbers_snoc n zero = let e : n + 0 ≡ n = omega arith in rw e refl
numbers_snoc n (suc k) =
    let e : n + 1 + k ≡ n + suc k = omega arith in ap (◌∷◌ n) (rw e at (numbers_snoc (n + 1) k))

pub length-numbers : (n k : ℕ) → length (numbers n k) ≡ k
length-numbers n zero = refl
length-numbers n (suc k) = ap suc (length-numbers (n + 1) k)

pub gots-append : (ls ms : List Line) → gots (ls ++ ms) ≡ gots ls ++ gots ms
gots-append [] ms = refl
gots-append (got v ∷ ls) ms = ap (◌∷◌ v) (gots-append ls ms)
gots-append (sent v ∷ ls) ms = gots-append ls ms
gots-append (run v ∷ ls) ms = gots-append ls ms
gots-append (sem ∷ ls) ms = gots-append ls ms
gots-append (finished ∷ ls) ms = gots-append ls ms

pub gots_other : (ls : List Line) (l : Line) → gots (l ∷ []) ≡ [] → gots (ls ++ l ∷ []) ≡ gots ls
gots_other ls l e = gots-append ls (l ∷ []) ∙ rw e (append-nil (gots ls))

-- How many items the producer has sent and has given a unit for.
abbrev pub sent_count : Producer → ℕ
sent_count (sending i) = i - 1
sent_count (announcing i) = i
sent_count (giving i) = i
sent_count (pausing i) = i
sent_count (delaying i wait) = i
sent_count deleted = num_items

abbrev pub given_count : Producer → ℕ
given_count (sending i) = i - 1
given_count (announcing i) = i - 1
given_count (giving i) = i - 1
given_count (pausing i) = i
given_count (delaying i wait) = i
given_count deleted = num_items

abbrev pub InRange : Producer → Type 0
InRange (sending i) = (1 ≤ i) × (i ≤ num_items)
InRange (announcing i) = (1 ≤ i) × (i ≤ num_items)
InRange (giving i) = (1 ≤ i) × (i ≤ num_items)
InRange (pausing i) = (1 ≤ i) × (i ≤ num_items)
InRange (delaying i wait) = (1 ≤ i) × (i ≤ num_items)
InRange deleted = Unit {0}

-- How many units and items the consumer has taken, after `n` items that it has counted.
abbrev pub taken_count : Consumer → ℕ → ℕ
taken_count taking n = n
taken_count noting n = n + 1
taken_count receiving n = n + 1
taken_count (received v) n = n + 1
taken_count passed n = n

abbrev pub received_count : Consumer → ℕ → ℕ
received_count taking n = n
received_count noting n = n
received_count receiving n = n
received_count (received v) n = n + 1
received_count passed n = n

abbrev pub AtPlace : Consumer → ℕ → Type 0
AtPlace taking n = n < num_items
AtPlace noting n = n < num_items
AtPlace receiving n = n < num_items
AtPlace (received v) n = (n < num_items) × (v ≡ n + 1)
AtPlace passed n = n ≡ num_items

-- The queue holds what was sent and not received, and the semaphore counts what was given and not
-- taken.
pub record Ordered (p : Producer) (c : Consumer) (queue : List ℕ) (units n : ℕ) (printed : List ℕ)
    : Type 0 where
  pub range : InRange p
  pub place : AtPlace c n
  pub behind : received_count c n ≤ sent_count p
  pub in_queue : queue ≡ numbers (received_count c n + 1) (sent_count p - received_count c n)
  pub in_units : units + taken_count c n ≡ given_count p
  pub in_order : printed ≡ numbers 1 n
