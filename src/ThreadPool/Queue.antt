-- ===== src/ThreadPool/Queue.antt =====
-- Version_2/src/Server.cpp: the tasks in the pool's queue, their order and their number.
use thread_pool.Base.{
  ℕ, ◌≤◌, ◌≡◌, refl, List, [], ◌∷◌, ◌++◌, length, length-append, append_assoc, arith,
}
use thread_pool.ThreadPool.{
  ThreadPool, enqueue, worker_turn, get_request_number, begin_destroy, max_queue_size,
}
use thread_pool.ThreadPool.Steps.{
  History, Step, enqueues, notifies_one, notifies_nobody, notifies_all, wakes_spuriously,
  takes_turn, completes, numbers_request, destroys, Reach, created, next, note_enqueue, note_turn,
}

module _ {ℓ} {T : Type ℓ} where
  enqueue-fifo :
      (t : T) (h : History T) (p : ThreadPool T)
      → h.accepted ≡ h.started ++ p.tasks
      → let (answer, p') = enqueue t p in
        let h' = note_enqueue t answer h in h'.accepted ≡ h'.started ++ p'.tasks
  unfolding enqueue
  enqueue-fifo t h p e = ground (arith, append_assoc h.started p.tasks (t ∷ []))

  turn-fifo :
      (h : History T) (p : ThreadPool T) (waiting : List T)
      → p.tasks ≡ waiting
      → h.accepted ≡ h.started ++ p.tasks
      → let (w, p') = worker_turn p in
        let h' = note_turn w h in h'.accepted ≡ h'.started ++ p'.tasks
  unfolding worker_turn
  turn-fifo h p [] none_left e = ground arith
  turn-fifo h p (t ∷ rest) some_left e = ground (arith, append_assoc h.started (t ∷ []) rest)

  Step-fifo :
      {h : History T} {p : ThreadPool T} {h' : History T} {p' : ThreadPool T}
      → Step h p h' p'
      → h.accepted ≡ h.started ++ p.tasks
      → h'.accepted ≡ h'.started ++ p'.tasks
  unfolding get_request_number begin_destroy
  Step-fifo (enqueues t h p _) e = enqueue-fifo t h p e
  Step-fifo (notifies_one before after h p _ _) e = e
  Step-fifo (notifies_nobody h p _ _) e = e
  Step-fifo (notifies_all h p _) e = e
  Step-fifo (wakes_spuriously before after h p _) e = e
  Step-fifo (takes_turn before after h p _) e = turn-fifo h p p.tasks refl e
  Step-fifo (completes before after t h p _) e = e
  Step-fifo (numbers_request h p) e = e
  Step-fifo (destroys h p _) e = e

  -- In every reachable state the accepted tasks are the started ones followed by those that wait,
  -- in the order of acceptance: no task is lost, repeated or overtaken.
  pub Reach-fifo :
      (threads : ℕ) (h : History T) (p : ThreadPool T)
      → Reach threads h p
      → h.accepted ≡ h.started ++ p.tasks
  Reach-fifo threads _ _ created = refl
  Reach-fifo threads _ _ (next r s) = Step-fifo s (Reach-fifo threads _ _ r)

  enqueue-bounded :
      (t : T) (p : ThreadPool T)
      → length p.tasks ≤ max_queue_size
      → length (enqueue t p).1.tasks ≤ max_queue_size
  unfolding enqueue
  enqueue-bounded t p h = ground (arith, length-append p.tasks (t ∷ []))

  turn-bounded :
      (p : ThreadPool T) (waiting : List T)
      → p.tasks ≡ waiting
      → length (worker_turn p).1.tasks ≤ length p.tasks
  unfolding worker_turn
  turn-bounded p [] none_left = ground arith
  turn-bounded p (t ∷ rest) some_left = ground arith

  Step-bounded :
      {h : History T} {p : ThreadPool T} {h' : History T} {p' : ThreadPool T}
      → Step h p h' p'
      → length p.tasks ≤ max_queue_size
      → length p'.tasks ≤ max_queue_size
  unfolding get_request_number begin_destroy
  Step-bounded (enqueues t h p _) e = enqueue-bounded t p e
  Step-bounded (notifies_one before after h p _ _) e = e
  Step-bounded (notifies_nobody h p _ _) e = e
  Step-bounded (notifies_all h p _) e = e
  Step-bounded (wakes_spuriously before after h p _) e = e
  Step-bounded (takes_turn before after h p _) e = omega (arith, turn-bounded p p.tasks refl)
  Step-bounded (completes before after t h p _) e = e
  Step-bounded (numbers_request h p) e = e
  Step-bounded (destroys h p _) e = e

  -- The queue never holds more than its limit.
  pub Reach-bounded :
      (threads : ℕ) (h : History T) (p : ThreadPool T)
      → Reach threads h p
      → length p.tasks ≤ max_queue_size
  Reach-bounded threads _ _ created = omega arith
  Reach-bounded threads _ _ (next r s) = Step-bounded s (Reach-bounded threads _ _ r)
