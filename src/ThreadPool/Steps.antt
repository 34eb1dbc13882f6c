-- ===== src/ThreadPool/Steps.antt =====
-- Version_2/src/Server.cpp: the pool under every interleaving: what callers, workers and the system's wakeups may do next.
use thread_pool.Base.{ℕ, suc, ◌-◌, ◌<◌, ◌≡◌, List, [], ◌∷◌, ◌++◌, Bool, true, false}
use thread_pool.ThreadPool.{
  ThreadPool, Worker, awake, asleep, finished, running, new_pool, enqueue, worker_turn,
  get_request_number, wake_all, begin_destroy,
}

-- What has happened so far, oldest first.
pub record History {ℓ} (T : Type ℓ) : Type ℓ where
  pub accepted : List T
  pub started : List T
  pub completed : List T

module _ {ℓ} {T : Type ℓ} where
  abbrev pub asleep_count : List (Worker T) → ℕ
  asleep_count [] = 0
  asleep_count (asleep ∷ ws) = suc (asleep_count ws)
  asleep_count (awake ∷ ws) = asleep_count ws
  asleep_count (finished ∷ ws) = asleep_count ws
  asleep_count (running t ∷ ws) = asleep_count ws

  abbrev pub note_enqueue : T → Bool → History T → History T
  note_enqueue t true h = record h { accepted = h.accepted ++ (t ∷ []) }
  note_enqueue t false h = h

  abbrev pub note_turn : Worker T → History T → History T
  note_turn (running t) h = record h { started = h.started ++ (t ∷ []) }
  note_turn awake h = h
  note_turn asleep h = h
  note_turn finished h = h

  -- One step of the pool, with the history beside it. A worker's place among the workers is given
  -- by those before and those behind it. Calling `enqueue` on a pool whose destructor runs is
  -- outside what C++ defines, hence the premise.
  pub data Step : History T → ThreadPool T → History T → ThreadPool T → Type ℓ where
    enqueues :
        (t : T) (h : History T) (p : ThreadPool T)
        → p.stop ≡ false
        → Step h p (note_enqueue t (enqueue t p).0 h) (enqueue t p).1
    notifies_one :
        (before after : List (Worker T)) (h : History T) (p : ThreadPool T)
        → 0 < p.notifying
        → p.workers ≡ before ++ (asleep ∷ after)
        → Step h p h (record p { notifying = p.notifying - 1; workers = before ++ (awake ∷ after) })
    notifies_nobody :
        (h : History T) (p : ThreadPool T)
        → 0 < p.notifying
        → asleep_count p.workers ≡ 0
        → Step h p h (record p { notifying = p.notifying - 1 })
    notifies_all :
        (h : History T) (p : ThreadPool T)
        → p.notifying_all ≡ true
        → Step h p h (record p { notifying_all = false; workers = wake_all p.workers })
    wakes_spuriously :
        (before after : List (Worker T)) (h : History T) (p : ThreadPool T)
        → p.workers ≡ before ++ (asleep ∷ after)
        → Step h p h (record p { workers = before ++ (awake ∷ after) })
    takes_turn :
        (before after : List (Worker T)) (h : History T) (p : ThreadPool T)
        → p.workers ≡ before ++ (awake ∷ after)
        → Step h p
            (note_turn (worker_turn p).0 h)
            (record (worker_turn p).1 { workers = before ++ ((worker_turn p).0 ∷ after) })
    completes :
        (before after : List (Worker T)) (t : T) (h : History T) (p : ThreadPool T)
        → p.workers ≡ before ++ (running t ∷ after)
        → Step h p
            (record h { completed = h.completed ++ (t ∷ []) })
            (record p { workers = before ++ (awake ∷ after) })
    numbers_request : (h : History T) (p : ThreadPool T) → Step h p h (get_request_number p).1
    destroys : (h : History T) (p : ThreadPool T) → p.stop ≡ false → Step h p h (begin_destroy p)

  abbrev pub no_history : History T
  no_history = record { accepted = []; started = []; completed = [] }

  -- The states that a pool of so many threads can reach.
  pub data Reach (threads : ℕ) : History T → ThreadPool T → Type ℓ where
    created : Reach threads no_history (new_pool threads)
    next :
        {h h' : History T} {p p' : ThreadPool T}
        → Reach threads h p
        → Step h p h' p'
        → Reach threads h' p'
