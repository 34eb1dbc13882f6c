-- ===== src/ThreadPool/Shutdown.antt =====
-- Version_2/src/Server.cpp: the pool's end, from the destructor's lock to the last worker's return.
use thread_pool.Base.{
  ℕ, ◌+◌, ◌<◌, ◌≡◌, ◌⊎◌, refl, ap, suc, zero, List, [], ◌∷◌, ◌++◌, Bool, true, false, length, arith,
}
use thread_pool.ThreadPool.{
  ThreadPool, Worker, awake, asleep, finished, running, enqueue, worker_turn, get_request_number,
  begin_destroy, start_workers,
}
use thread_pool.ThreadPool.Steps.{
  History, Step, enqueues, notifies_one, notifies_nobody, notifies_all, wakes_spuriously,
  takes_turn, completes, numbers_request, destroys, Reach, created, next, note_enqueue, note_turn,
}
use thread_pool.ThreadPool.Queue.{Reach-fifo}
use thread_pool.ThreadPool.Crew.{
  count, running_count, finished_count, count-append, count_bound, running_count-wake_all,
  finished_count-wake_all, length-wake_all, finished_or_running, running_change, finished_change,
  length_change,
}

module _ {ℓ} {T : Type ℓ} where
  -- A started task is completed or in the hands of a worker (counted for any test `test`), the crew
  -- keeps its size, and a worker returns only when the pool is stopping and no task waits.
  pub record IsDraining (threads : ℕ) (test : T → Bool) (h : History T) (p : ThreadPool T)
      : Type 0 where
    pub carried_out : count test h.started ≡ count test h.completed + running_count test p.workers
    pub crew : length p.workers ≡ threads
    pub last_to_leave : (finished_count p.workers ≡ 0) ⊎ ((p.stop ≡ true) × (length p.tasks ≡ 0))

  module _ (threads : ℕ) (test : T → Bool) where
    enqueue-IsDraining :
        (t : T) (h : History T) (p : ThreadPool T)
        → p.stop ≡ false
        → IsDraining threads test h p
        → IsDraining threads test (note_enqueue t (enqueue t p).0 h) (enqueue t p).1
    unfolding enqueue
    enqueue-IsDraining t h p going_on v = ground (arith, v.last_to_leave, v.carried_out)

    turn-IsDraining :
        (before after : List (Worker T)) (h : History T) (p : ThreadPool T) (waiting : List T)
        → p.tasks ≡ waiting
        → p.workers ≡ before ++ (awake ∷ after)
        → IsDraining threads test h p
        → IsDraining threads test
            (note_turn (worker_turn p).0 h)
            (record (worker_turn p).1 { workers = before ++ ((worker_turn p).0 ∷ after) })
    unfolding worker_turn
    turn-IsDraining before after h p [] e place v = ground (
      arith,
      e,
      running_change before after awake asleep p.workers place test,
      finished_change before after awake asleep p.workers place,
      length_change before after awake asleep p.workers place,
      running_change before after awake finished p.workers place test,
      finished_change before after awake finished p.workers place,
      length_change before after awake finished p.workers place,
    )
    turn-IsDraining before after h p (t ∷ rest) e place v = ground (
      arith,
      e,
      running_change before after awake (running t) p.workers place test,
      finished_change before after awake (running t) p.workers place,
      length_change before after awake (running t) p.workers place,
      count-append test h.started (t ∷ []),
    )

    Step-IsDraining :
        {h : History T} {p : ThreadPool T} {h' : History T} {p' : ThreadPool T}
        → Step h p h' p'
        → IsDraining threads test h p
        → IsDraining threads test h' p'
    unfolding get_request_number begin_destroy
    Step-IsDraining (enqueues t h p going_on) v = enqueue-IsDraining t h p going_on v
    Step-IsDraining (notifies_one before after h p _ place) v = ground (
      arith,
      running_change before after asleep awake p.workers place test,
      finished_change before after asleep awake p.workers place,
      length_change before after asleep awake p.workers place,
    )
    Step-IsDraining (notifies_nobody h p _ _) v = ground (arith)
    Step-IsDraining (notifies_all h p _) v = ground (
      arith,
      running_count-wake_all test p.workers,
      finished_count-wake_all p.workers,
      length-wake_all p.workers,
    )
    Step-IsDraining (wakes_spuriously before after h p place) v = ground (
      arith,
      running_change before after asleep awake p.workers place test,
      finished_change before after asleep awake p.workers place,
      length_change before after asleep awake p.workers place,
    )
    Step-IsDraining (takes_turn before after h p place) v =
        turn-IsDraining before after h p p.tasks refl place v
    Step-IsDraining (completes before after t h p place) v = ground (
      arith,
      running_change before after (running t) awake p.workers place test,
      finished_change before after (running t) awake p.workers place,
      length_change before after (running t) awake p.workers place,
      count-append test h.completed (t ∷ []),
    )
    Step-IsDraining (numbers_request h p) v = ground arith
    Step-IsDraining (destroys h p _) v = ground arith

    start-IsDraining :
        (n : ℕ) (ws : List (Worker T))
        → ws ≡ start_workers n
        → (running_count test ws ≡ 0) × (length ws ≡ n) × (finished_count ws ≡ 0)
    start-IsDraining zero ws e = rw e (refl, refl, refl)
    start-IsDraining (suc n) ws e = rw e (ground (arith, start-IsDraining n (start_workers n) refl))

    pub Reach-IsDraining :
        (h : History T) (p : ThreadPool T) → Reach threads h p → IsDraining threads test h p
    Reach-IsDraining _ _ created =
        ground (arith, start-IsDraining threads (start_workers threads) refl)
    Reach-IsDraining _ _ (next r s) = Step-IsDraining s (Reach-IsDraining _ _ r)

    -- When every worker of a pool with at least one has returned, which is what the destructor's
    -- joins wait for, no task waits and every accepted task has been completed exactly as often as
    -- it was accepted: for any test on tasks, as many completed tasks as accepted ones pass it.
    pub Reach-drained :
        (h : History T) (p : ThreadPool T)
        → Reach threads h p
        → 0 < threads
        → finished_count p.workers ≡ threads
        → (length p.tasks ≡ 0) × (count test h.completed ≡ count test h.accepted)
    Reach-drained h p r some_worker all_returned =
        let v = Reach-IsDraining h p r in
        ground (
          arith,
          v.carried_out,
          v.crew,
          v.last_to_leave,
          finished_or_running test p.workers,
          count_bound test p.tasks,
          ap (count test) (Reach-fifo threads h p r),
          count-append test h.started p.tasks,
        )
