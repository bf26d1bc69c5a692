-- ===== src/Rtos/App.antt =====
-- rtos/app/main.c: the producer, the consumer and the worker as tasks that take one step at a time
-- in any order. A step ends where a task calls the kernel or has printed a line; a task whose call
-- blocks has no step.

pub mod Order
pub mod Steps
pub mod Progress
use gandiva.Base.{
  ℕ, zero, suc, ◌+◌, ◌%◌, ◌^◌, ◌≡◌, ◌≢◌, ◌==◌, ltb, leb, if◌then◌else◌, u32, Option, none, some,
  List, [], ◌∷◌, ◌++◌, codes, Run, ok, ◌>>=◌,
}
use gandiva.Rtos.Kernel.{Kernel}
use gandiva.Rtos.Console.{uart_putdec}

abbrev pub num_items : ℕ
num_items = 8

abbrev pub queue_len : ℕ
queue_len = 4

-- configTICK_RATE_HZ of rtos/bsp/FreeRTOSConfig.h
abbrev pub tick_rate_hz : ℕ
tick_rate_hz = 1000

-- A line on the console.
pub data Line : Type 0 where
  sent got run : ℕ → Line
  sem finished : Line

abbrev pub numbered : List ℕ → ℕ → Run (List ℕ)
numbered prefix v = uart_putdec v >>= λ digits. ok (prefix ++ (digits ++ codes "\n"))

unfoldable pub line_text : Line → Run (List ℕ)
line_text (sent v) = numbered (codes "[P]send:") v
line_text (got v) = numbered (codes "[C]got:") v
line_text (run t) = numbered (codes "[W]run@") t
line_text sem = ok (codes "[C]sem\n")
line_text finished = ok (codes "[DONE]ok\n")

-- Where vProducer stands, with its `i`: at xQueueSend, behind it, at xSemaphoreGive, at vTaskDelay,
-- or blocked in it, with the ticks that it still waits for.
pub data Producer : Type 0 where
  sending announcing giving pausing : ℕ → Producer
  delaying : ℕ → ℕ → Producer
  deleted : Producer

-- A tick for a task that is blocked in vTaskDelay.
abbrev pub ticked : Producer → Producer
ticked (delaying i (suc wait)) = delaying i wait
ticked p = p

-- Where vConsumer stands: at xSemaphoreTake, behind it, at xQueueReceive, behind it with the
-- value, or in sim_pass.
pub data Consumer : Type 0 where
  taking noting receiving : Consumer
  received : ℕ → Consumer
  passed : Consumer

module _ (k : Kernel queue_len num_items tick_rate_hz) where
  pub record App : Type 0 where
    pub producer : Producer
    pub consumer : Consumer
    pub queue : k.Queue
    pub semaphore : k.Semaphore
    pub consumed : ℕ
    pub sem_taken : ℕ
    pub lines : List Line
    pub tick : ℕ
    pub last : Option ℕ
    pub reports : ℕ
    pub ticks_seen : ℕ

  -- What main leaves when it starts the scheduler. The worker has not sampled the tick count yet.
  unfoldable pub boot : App
  boot = record {
    producer = sending 1;
    consumer = taking;
    queue = k.create_queue;
    semaphore = k.create_counting;
    consumed = 0;
    sem_taken = 0;
    lines = [];
    tick = 0;
    last = none;
    reports = 0;
    ticks_seen = 0;
  }

  abbrev pub sent_on : App → ℕ → Option k.Queue → Option App
  sent_on a i none = none
  sent_on a i (some q) = some (record a { producer = announcing i; queue = q })

  abbrev pub producer_at : App → Producer → Option App
  producer_at a (sending i) = sent_on a i (k.send a.queue i)
  producer_at a (announcing i) =
      some (record a { producer = giving i; lines = a.lines ++ sent i ∷ [] })
  producer_at a (giving i) =
      some (record a { producer = pausing i; semaphore = k.give a.semaphore })
  producer_at a (pausing i) = some (record a { producer = delaying i (k.ms_to_ticks 5) })
  producer_at a (delaying i (suc wait)) = none
  producer_at a (delaying i zero) =
      some (record a { producer = if leb (i + 1) num_items then sending (i + 1) else deleted })
  producer_at a deleted = none

  unfoldable pub producer_step : App → Option App
  producer_step a = producer_at a a.producer

  abbrev pub taken_on : App → Option k.Semaphore → Option App
  taken_on a none = none
  taken_on a (some s) = some (record a { consumer = noting; semaphore = s })

  abbrev pub received_on : App → Option (ℕ × k.Queue) → Option App
  received_on a none = none
  received_on a (some (v, q)) = some (record a { consumer = received v; queue = q })

  abbrev pub consumer_at : App → Consumer → Option App
  consumer_at a taking = taken_on a (k.take a.semaphore)
  consumer_at a noting =
      some (record a {
        consumer = receiving;
        sem_taken = a.sem_taken + 1;
        lines = a.lines ++ sem ∷ [];
      })
  consumer_at a receiving = received_on a (k.receive a.queue)
  consumer_at a (received v) =
      let ends = a.consumed + 1 == num_items in
      some (record a {
        consumer = if ends then passed else taking;
        consumed = a.consumed + 1;
        lines = a.lines ++ (got v ∷ (if ends then finished ∷ [] else []));
      })
  consumer_at a passed = none

  unfoldable pub consumer_step : App → Option App
  consumer_step a = consumer_at a a.consumer

  -- A timer interrupt: a delay has one tick less to wait for.
  unfoldable pub tick_step : App → App
  tick_step a = record a { producer = ticked a.producer; tick = u32 (a.tick + 1) }

  abbrev pub worker_at : App → Option ℕ → App
  worker_at a none = record a { last = some a.tick }
  worker_at a (some last) =
      if a.tick == last
      then a
      else (if ltb a.reports 6
          then record a {
            last = some a.tick;
            ticks_seen = a.tick;
            reports = a.reports + 1;
            lines = a.lines ++ run a.tick ∷ [];
          }
          else record a { last = some a.tick; ticks_seen = a.tick })

  -- The worker's first sample, or a round of its loop. It never blocks.
  unfoldable pub worker_step : App → App
  worker_step a = worker_at a a.last

  -- A step of some task. sim_pass ends the simulation.
  pub data Step (a b : App) : Type 0 where
    producer : a.consumer ≢ passed → producer_step a ≡ some b → Step a b
    consumer : consumer_step a ≡ some b → Step a b
    tick : a.consumer ≢ passed → b ≡ tick_step a → Step a b
    worker : a.consumer ≢ passed → b ≡ worker_step a → Step a b

  pub data Reach (a : App) : App → Type 0 where
    here : Reach a a
    next : {b c : App} → Reach a b → Step b c → Reach a c
