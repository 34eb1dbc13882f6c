-- ===== src/ThreadPool/Wakeups.antt =====
-- Version_2/src/Server.cpp: sleeping workers, and the notifications that they wait for. The condition
-- variable is notified after the lock is released, so a notification may still be to come.
use thread_pool.Base.{
  ℕ, ◌+◌, ◌≤◌, ◌<◌, ◌≡◌, ◌⊎◌, inl, inr, refl, suc, zero, List, [], ◌∷◌, ◌++◌, true, false, length,
  length-append, arith,
}
use thread_pool.ThreadPool.{
  ThreadPool, Worker, awake, asleep, finished, running, enqueue, worker_turn, get_request_number,
  begin_destroy, wake_all, start_workers,
}
use thread_pool.ThreadPool.Steps.{
  History, Step, enqueues, notifies_one, notifies_nobody, notifies_all, wakes_spuriously,
  takes_turn, completes, numbers_request, destroys, Reach, created, next, asleep_count,
}

asleep_count-start {ℓ} : (T : Type ℓ) (n : ℕ) → asleep_count {T = T} (start_workers n) ≡ 0
asleep_count-start T zero = refl
asleep_count-start T (suc n) = asleep_count-start T n

module _ {ℓ} {T : Type ℓ} where
  abbrev pub awake_count : List (Worker T) → ℕ
  awake_count [] = 0
  awake_count (awake ∷ ws) = suc (awake_count ws)
  awake_count (asleep ∷ ws) = awake_count ws
  awake_count (finished ∷ ws) = awake_count ws
  awake_count (running t ∷ ws) = awake_count ws

  asleep_count-append :
      (xs ys : List (Worker T)) → asleep_count (xs ++ ys) ≡ asleep_count xs + asleep_count ys
  asleep_count-append [] ys = omega arith
  asleep_count-append (asleep ∷ xs) ys = omega (arith, asleep_count-append xs ys)
  asleep_count-append (awake ∷ xs) ys = asleep_count-append xs ys
  asleep_count-append (finished ∷ xs) ys = asleep_count-append xs ys
  asleep_count-append (running t ∷ xs) ys = asleep_count-append xs ys

  awake_count-append :
      (xs ys : List (Worker T)) → awake_count (xs ++ ys) ≡ awake_count xs + awake_count ys
  awake_count-append [] ys = omega arith
  awake_count-append (awake ∷ xs) ys = omega (arith, awake_count-append xs ys)
  awake_count-append (asleep ∷ xs) ys = awake_count-append xs ys
  awake_count-append (finished ∷ xs) ys = awake_count-append xs ys
  awake_count-append (running t ∷ xs) ys = awake_count-append xs ys

  asleep_count-wake_all : (ws : List (Worker T)) → asleep_count (wake_all ws) ≡ 0
  asleep_count-wake_all [] = refl
  asleep_count-wake_all (asleep ∷ ws) = asleep_count-wake_all ws
  asleep_count-wake_all (awake ∷ ws) = asleep_count-wake_all ws
  asleep_count-wake_all (finished ∷ ws) = asleep_count-wake_all ws
  asleep_count-wake_all (running t ∷ ws) = asleep_count-wake_all ws

  -- While a worker sleeps, each waiting task has an awake worker or a notification to come; and
  -- once the pool is stopping, the last notification is still to come.
  pub record IsLive (p : ThreadPool T) : Type 0 where
    pub served :
        (asleep_count p.workers ≡ 0) ⊎ (length p.tasks ≤ awake_count p.workers + p.notifying)
    pub stopping : (asleep_count p.workers ≡ 0) ⊎ (p.stop ≡ false) ⊎ (p.notifying_all ≡ true)

  enqueue-IsLive : (t : T) (p : ThreadPool T) → IsLive p → IsLive (enqueue t p).1
  unfolding enqueue
  enqueue-IsLive t p v = ground (arith, length-append p.tasks (t ∷ []))

  -- One worker in its place changes from `w` to `w'`.
  module _ (before after : List (Worker T)) (w w' : Worker T) (ws : List (Worker T))
      (place : ws ≡ before ++ (w ∷ after)) where
    asleep_change :
        asleep_count (before ++ (w' ∷ after)) + asleep_count (w ∷ [])
        ≡ asleep_count ws + asleep_count (w' ∷ [])
    asleep_change = rw place (
        omega (
          arith,
          asleep_count-append before (w ∷ after),
          asleep_count-append before (w' ∷ after),
          asleep_count-append (w ∷ []) after,
          asleep_count-append (w' ∷ []) after,
        ))

    awake_change :
        awake_count (before ++ (w' ∷ after)) + awake_count (w ∷ [])
        ≡ awake_count ws + awake_count (w' ∷ [])
    awake_change = rw place (
        omega (
          arith,
          awake_count-append before (w ∷ after),
          awake_count-append before (w' ∷ after),
          awake_count-append (w ∷ []) after,
          awake_count-append (w' ∷ []) after,
        ))

  turn-IsLive :
      (before after : List (Worker T)) (p : ThreadPool T) (waiting : List T)
      → p.tasks ≡ waiting
      → p.workers ≡ before ++ (awake ∷ after)
      → IsLive p
      → IsLive (record (worker_turn p).1 { workers = before ++ ((worker_turn p).0 ∷ after) })
  unfolding worker_turn
  turn-IsLive before after p [] e place v = ground (
    arith,
    e,
    asleep_change before after awake asleep p.workers place,
    awake_change before after awake asleep p.workers place,
    asleep_change before after awake finished p.workers place,
    awake_change before after awake finished p.workers place,
  )
  turn-IsLive before after p (t ∷ rest) e place v = ground (
    arith,
    e,
    asleep_change before after awake (running t) p.workers place,
    awake_change before after awake (running t) p.workers place,
  )

  Step-IsLive :
      {h : History T} {p : ThreadPool T} {h' : History T} {p' : ThreadPool T}
      → Step h p h' p'
      → IsLive p
      → IsLive p'
  unfolding get_request_number begin_destroy
  Step-IsLive (enqueues t h p _) v = enqueue-IsLive t p v
  Step-IsLive (notifies_one before after h p _ place) v = ground (
    arith,
    asleep_change before after asleep awake p.workers place,
    awake_change before after asleep awake p.workers place,
  )
  Step-IsLive (notifies_nobody h p some_notifying none_asleep) v = ground arith
  Step-IsLive (notifies_all h p _) v = ground (arith, asleep_count-wake_all p.workers)
  Step-IsLive (wakes_spuriously before after h p place) v = ground (
    arith,
    asleep_change before after asleep awake p.workers place,
    awake_change before after asleep awake p.workers place,
  )
  Step-IsLive (takes_turn before after h p place) v =
      turn-IsLive before after p p.tasks refl place v
  Step-IsLive (completes before after t h p place) v = ground (
    arith,
    asleep_change before after (running t) awake p.workers place,
    awake_change before after (running t) awake p.workers place,
  )
  Step-IsLive (numbers_request h p) v = ground arith
  Step-IsLive (destroys h p _) v = ground arith

  Reach-IsLive : (threads : ℕ) (h : History T) (p : ThreadPool T) → Reach threads h p → IsLive p
  Reach-IsLive threads _ _ created = record {
    served = inl (asleep_count-start T threads);
    stopping = inr (inl refl);
  }
  Reach-IsLive threads _ _ (next r s) = Step-IsLive s (Reach-IsLive threads _ _ r)

  -- In every reachable state in which some worker sleeps, tasks wait and no worker is about to look
  -- at the queue, a call of `notify_one` is still to come: no task waits for a wakeup that was lost.
  pub Reach-no_lost_wakeup :
      (threads : ℕ) (h : History T) (p : ThreadPool T)
      → Reach threads h p
      → 0 < asleep_count p.workers
      → 0 < length p.tasks
      → awake_count p.workers ≡ 0
      → 0 < p.notifying
  Reach-no_lost_wakeup threads h p r some_asleep waiting none_awake =
      let live = Reach-IsLive threads h p r in ground (arith, live.served)

  -- In every reachable state in which the pool is stopping and some worker sleeps, the destructor's
  -- `notify_all` is still to come: no worker sleeps through the shutdown.
  pub Reach-no_missed_stop :
      (threads : ℕ) (h : History T) (p : ThreadPool T)
      → Reach threads h p
      → 0 < asleep_count p.workers
      → p.stop ≡ true
      → p.notifying_all ≡ true
  Reach-no_missed_stop threads h p r some_asleep stopping =
      let live = Reach-IsLive threads h p r in ground (arith, live.stopping)
