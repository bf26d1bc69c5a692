-- ===== src/Rtos/Kernel.antt =====
-- What rtos/app uses of the real-time kernel, which is not in the repository: a queue of numbers and
-- a counting semaphore, and the number
-- of ticks of a time in milliseconds, by the kernel's documentation. A call that would block returns `none`.
use gandiva.Base.{
  ℕ, suc, ◌+◌, ◌*◌, ◌/◌, ◌≤◌, ◌<◌, ◌≡◌, Option, none, some, List, [], ◌∷◌, ◌++◌, length,
}

pub record Kernel (queue_len max_count tick_rate_hz : ℕ) : Type 1 where
  pub Queue : Type 0
  pub Semaphore : Type 0
  pub create_queue : Queue
  pub create_counting : Semaphore
  pub send : Queue → ℕ → Option Queue
  pub receive : Queue → Option (ℕ × Queue)
  pub give : Semaphore → Semaphore
  pub take : Semaphore → Option Semaphore
  pub ms_to_ticks : ℕ → ℕ
  pub contents : Queue → List ℕ
  pub units : Semaphore → ℕ
  pub contents-create : contents create_queue ≡ []
  pub units-create : units create_counting ≡ 0
  pub send_room :
      (q : Queue) (v : ℕ)
      → length (contents q) < queue_len
      → (q' : Queue) × (send q v ≡ some q') × (contents q' ≡ contents q ++ v ∷ [])
  pub send_full : (q : Queue) (v : ℕ) → queue_len ≤ length (contents q) → send q v ≡ none
  pub receive_item :
      (q : Queue) (v : ℕ) (vs : List ℕ)
      → contents q ≡ v ∷ vs
      → (q' : Queue) × (receive q ≡ some (v, q')) × (contents q' ≡ vs)
  pub receive_empty : (q : Queue) → contents q ≡ [] → receive q ≡ none
  pub give_unit : (s : Semaphore) → units s < max_count → units (give s) ≡ units s + 1
  pub take_unit :
      (s : Semaphore) (n : ℕ)
      → units s ≡ suc n
      → (s' : Semaphore) × (take s ≡ some s') × (units s' ≡ n)
  pub take_none : (s : Semaphore) → units s ≡ 0 → take s ≡ none
  pub ms_to_ticks-eq : (ms : ℕ) → ms_to_ticks ms ≡ ms * tick_rate_hz / 1000
