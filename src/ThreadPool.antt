-- ===== src/ThreadPool.antt =====
-- Version_2/src/Server.cpp (and Version1/src/Server.cpp, the same text): the thread pool. A block
-- under the queue's mutex is one function; `ThreadPool/Steps` interleaves them.
pub mod Steps
pub mod Queue
pub mod Wakeups
pub mod Crew
pub mod Balance
pub mod Map
pub mod Shutdown
pub mod Ends
pub mod Pending
pub mod Settles
use thread_pool.Base.{
  ℕ, zero, suc, ◌+◌, ◌%◌, ◌^◌, List, [], ◌∷◌, ◌++◌, Bool, true, false, ◌&&◌, ◌||◌, not, leb,
  if◌then◌else◌, length,
}

-- Where a worker stands in its loop: about to test the condition under the lock, blocked in
-- `condition.wait`, running a task, or returned.
pub data Worker {ℓ} (T : Type ℓ) : Type ℓ where
  awake asleep finished : Worker T
  running : T → Worker T

pub record ThreadPool {ℓ} (T : Type ℓ) : Type ℓ where
  pub workers : List (Worker T)
  pub tasks : List T
  pub stop : Bool
  pub request_counter : ℕ  -- the bit pattern of an `int`
  -- Calls of `enqueue` that have left the lock and not yet called `notify_one`, and whether the
  -- destructor has still to call `notify_all`.
  pub notifying : ℕ
  pub notifying_all : Bool

abbrev pub max_queue_size : ℕ
max_queue_size = 1000

module _ {ℓ} {T : Type ℓ} where
  abbrev pub start_workers : ℕ → List (Worker T)
  start_workers zero = []
  start_workers (suc n) = awake ∷ start_workers n

  -- The constructor.
  abbrev pub new_pool : ℕ → ThreadPool T
  new_pool thread_count = record {
    workers = start_workers thread_count;
    tasks = [];
    stop = false;
    request_counter = 0;
    notifying = 0;
    notifying_all = false;
  }

  abbrev pub is_empty : List T → Bool
  is_empty [] = true
  is_empty (t ∷ ts) = false

  -- The locked block of `enqueue`; a refused task changes nothing.
  unfoldable pub enqueue : T → ThreadPool T → Bool × ThreadPool T
  enqueue task p =
      if leb max_queue_size (length p.tasks)
      then (false, p)
      else (true, record p { tasks = p.tasks ++ (task ∷ []); notifying = p.notifying + 1 })

  -- `tasks.front()` and `tasks.pop()`.
  pick : List T → ThreadPool T → Worker T × ThreadPool T
  pick [] p = (finished, p)
  pick (task ∷ rest) p = (running task, record p { tasks = rest })

  -- The locked block of a worker's loop: the test of `condition.wait`, the way out, or the next task.
  unfoldable pub worker_turn : ThreadPool T → Worker T × ThreadPool T
  unfolding pick
  worker_turn p =
      if not (p.stop || not (is_empty p.tasks))
      then (asleep, p)
      else if p.stop && is_empty p.tasks
      then (finished, p)
      else pick p.tasks p

  -- `getRequestNumber`; an atomic `int` wraps around.
  unfoldable pub get_request_number : ThreadPool T → ℕ × ThreadPool T
  get_request_number p =
      let n = (p.request_counter + 1) % 2 ^ 32 in (n, record p { request_counter = n })

  abbrev pub wake : Worker T → Worker T
  wake asleep = awake
  wake awake = awake
  wake finished = finished
  wake (running t) = running t

  abbrev pub wake_all : List (Worker T) → List (Worker T)
  wake_all [] = []
  wake_all (w ∷ ws) = wake w ∷ wake_all ws

  -- The locked block of the destructor.
  unfoldable pub begin_destroy : ThreadPool T → ThreadPool T
  begin_destroy p = record p { stop = true; notifying_all = true }
