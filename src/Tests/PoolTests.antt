-- ===== src/Tests/PoolTests.antt =====
-- A pool with one worker: it sleeps, is given a task, runs it, and returns when the pool stops.
use thread_pool.Base.{
  ℕ, ◌+◌, ◌≤◌, ◌<◌, ◌≡◌, ◌⊎◌, refl, [], ◌∷◌, ◌++◌, Bool, true, false, length, arith, ltb,
}
use thread_pool.ThreadPool.{
  ThreadPool, Worker, awake, asleep, finished, running, new_pool, enqueue, worker_turn,
  begin_destroy, max_queue_size,
}
use thread_pool.ThreadPool.Steps.{
  History, enqueues, notifies_one, takes_turn, completes, destroys, Reach, created, next,
  no_history,
}
use thread_pool.ThreadPool.Queue.{Reach-fifo, Reach-bounded}
use thread_pool.ThreadPool.Wakeups.{Reach-no_lost_wakeup, Reach-no_missed_stop}
use thread_pool.ThreadPool.Crew.{count, finished_count}
use thread_pool.ThreadPool.Ends.{Reach-ends, Follows, stays, acts, Acts, remaining}
use thread_pool.ThreadPool.Pending
use thread_pool.ThreadPool.Pending.{Continues, goes_on, pending}
use thread_pool.ThreadPool.Settles.{Reach-settles, Settled, CanGoOn}

abbrev idle : Worker ℕ → ThreadPool ℕ
idle w = record {
  workers = w ∷ [];
  tasks = [];
  stop = false;
  request_counter = 0;
  notifying = 0;
  notifying_all = false;
}

abbrev waiting : ThreadPool ℕ
waiting = record (idle asleep) { tasks = 5 ∷ []; notifying = 1 }

abbrev woken : ThreadPool ℕ
woken = record (idle awake) { tasks = 5 ∷ [] }

abbrev stopping : Worker ℕ → Bool → ThreadPool ℕ
stopping w to_notify = record (idle w) { stop = true; notifying_all = to_notify }

abbrev taken : History ℕ
taken = record { accepted = 5 ∷ []; started = []; completed = [] }

abbrev begun : History ℕ
begun = record taken { started = 5 ∷ [] }

abbrev done : History ℕ
done = record begun { completed = 5 ∷ [] }

idle_reached : Reach 1 no_history (idle asleep)
unfolding worker_turn
idle_reached = next created (takes_turn [] [] no_history (new_pool 1) refl)

waiting_reached : Reach 1 taken waiting
unfolding enqueue
waiting_reached = next idle_reached (enqueues 5 no_history (idle asleep) refl)

woken_reached : Reach 1 taken woken
woken_reached = next waiting_reached (notifies_one [] [] taken waiting (omega arith) refl)

running_reached : Reach 1 begun (idle (running 5))
unfolding worker_turn
running_reached = next woken_reached (takes_turn [] [] taken woken refl)

completed_reached : Reach 1 done (idle awake)
completed_reached = next running_reached (completes [] [] 5 begun (idle (running 5)) refl)

stopped_reached : Reach 1 done (stopping awake true)
unfolding begin_destroy
stopped_reached = next completed_reached (destroys done (idle awake) refl)

finished_reached : Reach 1 done (stopping finished true)
unfolding worker_turn
finished_reached = next stopped_reached (takes_turn [] [] done (stopping awake true) refl)

asleep_stopped_reached : Reach 1 no_history (stopping asleep true)
unfolding begin_destroy
asleep_stopped_reached = next idle_reached (destroys no_history (idle asleep) refl)

Reach-fifo_example : taken.accepted ≡ taken.started ++ waiting.tasks
Reach-fifo_example = Reach-fifo 1 taken waiting waiting_reached

Reach-bounded_example : 1 ≤ max_queue_size
Reach-bounded_example = Reach-bounded 1 taken waiting waiting_reached

Reach-no_lost_wakeup_example : 0 < waiting.notifying
Reach-no_lost_wakeup_example =
    Reach-no_lost_wakeup 1 taken waiting waiting_reached (omega arith) (omega arith) refl

Reach-no_missed_stop_example : (stopping asleep true).notifying_all ≡ true
Reach-no_missed_stop_example =
    Reach-no_missed_stop 1 no_history (stopping asleep true) asleep_stopped_reached (omega arith)
      refl

last_turn : Follows 1 done (stopping awake true) done (stopping finished true)
unfolding worker_turn
last_turn = acts (takes_turn [] [] done (stopping awake true) refl, refl) stays

Reach-ends_example :
    (1 ≤ remaining (stopping awake true))
    × (((finished_count (stopping finished true).workers ≡ 1)
          × (length (stopping finished true).tasks ≡ 0)
          × (count (λ t. ltb 3 t) done.completed ≡ count (λ t. ltb 3 t) done.accepted))
        ⊎ ((h : History ℕ) × (p : ThreadPool ℕ) × Acts done (stopping finished true) h p))
Reach-ends_example =
    Reach-ends 1 1 done done (stopping awake true) (stopping finished true) (λ t. ltb 3 t)
      stopped_reached (omega arith) refl last_turn

-- A task comes, is carried out, and the worker sleeps again.
one_task : Continues 5 5 no_history (idle asleep) done (idle asleep)
unfolding enqueue worker_turn
one_task = goes_on (enqueues 5 no_history (idle asleep) refl) (
    goes_on (notifies_one [] [] taken waiting (omega arith) refl) (
      goes_on (takes_turn [] [] taken woken refl) (
        goes_on (completes [] [] 5 begun (idle (running 5)) refl)
          (goes_on (takes_turn [] [] done (idle awake) refl) Pending.stays))))

Reach-settles_example :
    (5 ≤ pending (idle asleep) + 5)
    × (Settled 1 (λ t. ltb 3 t) done (idle asleep) ⊎ CanGoOn done (idle asleep))
Reach-settles_example =
    Reach-settles 1 5 5 no_history done (idle asleep) (idle asleep) (λ t. ltb 3 t) idle_reached
      (omega arith) one_task refl
