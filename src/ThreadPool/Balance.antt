-- ===== src/ThreadPool/Balance.antt =====
-- Version_2/src/Server.cpp: a task that the pool has accepted waits, runs or is completed, and a step of the
-- pool changes only which (tasks are counted by any test).
use thread_pool.Base.{ℕ, ◌+◌, ◌≡◌, refl, List, [], ◌∷◌, ◌++◌, Bool, true, false, arith}
use thread_pool.ThreadPool.{
  ThreadPool, Worker, awake, asleep, finished, running, enqueue, worker_turn, get_request_number,
  begin_destroy,
}
use thread_pool.ThreadPool.Steps.{
  History, Step, enqueues, notifies_one, notifies_nobody, notifies_all, wakes_spuriously,
  takes_turn, completes, numbers_request, destroys, note_enqueue, note_turn,
}
use thread_pool.ThreadPool.Crew.{
  count, running_count, count-append, running_count-wake_all, running_change,
}

module _ {ℓ} {T : Type ℓ} (test : T → Bool) where
  -- How many of a pool's tasks pass the test.
  abbrev pub held : ThreadPool T → ℕ
  held p = running_count test p.workers + count test p.tasks

  enqueue-held :
      (t : T) (h : History T) (p : ThreadPool T)
      → count test h.accepted + held (enqueue t p).1
        ≡ count test (note_enqueue t (enqueue t p).0 h).accepted + held p
  unfolding enqueue
  enqueue-held t h p =
      ground (arith, count-append test h.accepted (t ∷ []), count-append test p.tasks (t ∷ []))

  note_enqueue-completed :
      (t : T) (answer : Bool) (h : History T) → (note_enqueue t answer h).completed ≡ h.completed
  note_enqueue-completed t true h = refl
  note_enqueue-completed t false h = refl

  turn-held :
      (before after : List (Worker T)) (p : ThreadPool T) (waiting : List T)
      → p.tasks ≡ waiting
      → p.workers ≡ before ++ (awake ∷ after)
      → held (record (worker_turn p).1 { workers = before ++ ((worker_turn p).0 ∷ after) }) ≡ held p
  unfolding worker_turn
  turn-held before after p [] e place = ground (
    arith,
    e,
    running_change before after awake asleep p.workers place test,
    running_change before after awake finished p.workers place test,
  )
  turn-held before after p (t ∷ rest) e place =
      ground (arith, e, running_change before after awake (running t) p.workers place test)

  note_turn-kept :
      (w : Worker T) (h : History T)
      → ((note_turn w h).accepted ≡ h.accepted) × ((note_turn w h).completed ≡ h.completed)
  note_turn-kept awake h = (refl, refl)
  note_turn-kept asleep h = (refl, refl)
  note_turn-kept finished h = (refl, refl)
  note_turn-kept (running t) h = (refl, refl)

  pub Step-balance :
      {h : History T} {p : ThreadPool T} {h' : History T} {p' : ThreadPool T}
      → Step h p h' p'
      → count test h.accepted + (count test h'.completed + held p')
        ≡ count test h'.accepted + (count test h.completed + held p)
  unfolding get_request_number begin_destroy
  Step-balance (enqueues t h p going_on) =
      rw (note_enqueue-completed t (enqueue t p).0 h) (omega (arith, enqueue-held t h p))
  Step-balance (notifies_one before after h p _ place) =
      omega (arith, running_change before after asleep awake p.workers place test)
  Step-balance (notifies_nobody h p _ _) = refl
  Step-balance (notifies_all h p _) = omega (arith, running_count-wake_all test p.workers)
  Step-balance (wakes_spuriously before after h p place) =
      omega (arith, running_change before after asleep awake p.workers place test)
  Step-balance (takes_turn before after h p place) =
      let (accepted, completed) = note_turn-kept (worker_turn p).0 h in
      rw (accepted, completed) (omega (arith, turn-held before after p p.tasks refl place))
  Step-balance (completes before after t h p place) = omega (
    arith,
    running_change before after (running t) awake p.workers place test,
    count-append test h.completed (t ∷ []),
  )
  Step-balance (numbers_request h p) = refl
  Step-balance (destroys h p _) = refl
