-- ===== src/ThreadPool/Map.antt =====
-- Version_2/src/Server.cpp: the pool never looks at its tasks: a step with them is one with their images.
use mathlib.Core.List.{map, map-append}
use thread_pool.Base.{
  ℕ, suc, zero, ◌+◌, ◌-◌, ◌≡◌, refl, sym, subst, ap, ◌∙◌, List, [], ◌∷◌, ◌++◌, Bool, true, false,
  length, leb, Bool-cases, inl, inr,
}
use thread_pool.ThreadPool.{
  ThreadPool, Worker, awake, asleep, finished, running, new_pool, start_workers, enqueue,
  worker_turn, get_request_number, begin_destroy, wake_all, max_queue_size,
}
use thread_pool.ThreadPool.Steps.{
  History, Step, enqueues, notifies_one, notifies_nobody, notifies_all, wakes_spuriously,
  takes_turn, completes, numbers_request, destroys, note_enqueue, note_turn, asleep_count,
}

module _ {ℓ κ} {T : Type ℓ} {U : Type κ} (f : T → U) where
  abbrev pub map_worker : Worker T → Worker U
  map_worker awake = awake
  map_worker asleep = asleep
  map_worker finished = finished
  map_worker (running t) = running (f t)

  abbrev pub map_pool : ThreadPool T → ThreadPool U
  map_pool p = record {
    workers = map map_worker p.workers;
    tasks = map f p.tasks;
    stop = p.stop;
    request_counter = p.request_counter;
    notifying = p.notifying;
    notifying_all = p.notifying_all;
  }

  abbrev pub map_history : History T → History U
  map_history h = record {
    accepted = map f h.accepted;
    started = map f h.started;
    completed = map f h.completed;
  }

  length-map : (ts : List T) → length (map f ts) ≡ length ts
  length-map [] = refl
  length-map (t ∷ ts) = ap suc (length-map ts)

  pub enqueue-map_pool :
      (t : T) (p : ThreadPool T)
      → ((enqueue (f t) (map_pool p)).0 ≡ (enqueue t p).0)
        × ((enqueue (f t) (map_pool p)).1 ≡ map_pool (enqueue t p).1)
  unfolding enqueue
  enqueue-map_pool t p =
      rw (length-map p.tasks) (elim (Bool-cases (leb max_queue_size (length p.tasks))) [
        | inl full ↦ rw full (refl, refl)
        | inr room ↦ rw room (
          refl,
          ap (λ ts. record (map_pool p) { tasks = ts; notifying = p.notifying + 1 })
              (sym (map-append f p.tasks (t ∷ []))),
        )
      ])

  note_enqueue-map_history :
      (t : T) (answer : Bool) (h : History T)
      → note_enqueue (f t) answer (map_history h) ≡ map_history (note_enqueue t answer h)
  note_enqueue-map_history t true h =
      ap (λ ts. record (map_history h) { accepted = ts }) (sym (map-append f h.accepted (t ∷ [])))
  note_enqueue-map_history t false h = refl

  note_turn-map_history :
      (w : Worker T) (h : History T)
      → note_turn (map_worker w) (map_history h) ≡ map_history (note_turn w h)
  note_turn-map_history (running t) h =
      ap (λ ts. record (map_history h) { started = ts }) (sym (map-append f h.started (t ∷ [])))
  note_turn-map_history awake h = refl
  note_turn-map_history asleep h = refl
  note_turn-map_history finished h = refl

  worker_turn-map_pool :
      (p : ThreadPool T) (waiting : List T) (stopping : Bool)
      → p.tasks ≡ waiting
      → p.stop ≡ stopping
      → ((worker_turn (map_pool p)).0 ≡ map_worker (worker_turn p).0)
        × ((worker_turn (map_pool p)).1 ≡ map_pool (worker_turn p).1)
  unfolding worker_turn
  worker_turn-map_pool p [] true e s = simp (e, s) (refl, refl)
  worker_turn-map_pool p [] false e s = simp (e, s) (refl, refl)
  worker_turn-map_pool p (t ∷ ts) true e s = simp (e, s) (refl, refl)
  worker_turn-map_pool p (t ∷ ts) false e s = simp (e, s) (refl, refl)

  map_workers-split :
      (before after : List (Worker T)) (w : Worker T) (ws : List (Worker T))
      → ws ≡ before ++ (w ∷ after)
      → map map_worker ws ≡ map map_worker before ++ (map_worker w ∷ map map_worker after)
  map_workers-split before after w ws e =
      ap (map map_worker) e ∙ map-append map_worker before (w ∷ after)

  -- The pool with one of its workers changed.
  map_pool-place :
      (before after : List (Worker T)) (w : Worker T) (p : ThreadPool T)
      → record (map_pool p) {
        workers = map map_worker before ++ (map_worker w ∷ map map_worker after);
      }
        ≡ map_pool (record p { workers = before ++ (w ∷ after) })
  map_pool-place before after w p =
      ap (λ ws. record (map_pool p) { workers = ws })
        (sym (map-append map_worker before (w ∷ after)))

  map-wake_all :
      (ws : List (Worker T)) → wake_all (map map_worker ws) ≡ map map_worker (wake_all ws)
  map-wake_all [] = refl
  map-wake_all (awake ∷ ws) = ap (λ vs. awake ∷ vs) (map-wake_all ws)
  map-wake_all (asleep ∷ ws) = ap (λ vs. awake ∷ vs) (map-wake_all ws)
  map-wake_all (finished ∷ ws) = ap (λ vs. finished ∷ vs) (map-wake_all ws)
  map-wake_all (running t ∷ ws) = ap (λ vs. running (f t) ∷ vs) (map-wake_all ws)

  asleep_count-map : (ws : List (Worker T)) → asleep_count (map map_worker ws) ≡ asleep_count ws
  asleep_count-map [] = refl
  asleep_count-map (awake ∷ ws) = asleep_count-map ws
  asleep_count-map (asleep ∷ ws) = ap suc (asleep_count-map ws)
  asleep_count-map (finished ∷ ws) = asleep_count-map ws
  asleep_count-map (running t ∷ ws) = asleep_count-map ws

  module _ {h h₁ h₂ : History U} {p p₁ p₂ : ThreadPool U} where
    Step-subst : h₁ ≡ h₂ → p₁ ≡ p₂ → Step h p h₁ p₁ → Step h p h₂ p₂
    Step-subst eh ep s = subst (λ x. Step h p x p₂) eh (subst (λ x. Step h p h₁ x) ep s)

  -- A step of the pool is, with every task replaced by its image, a step of the pool.
  pub Step-map :
      {h : History T} {p : ThreadPool T} {h' : History T} {p' : ThreadPool T}
      → Step h p h' p'
      → Step (map_history h) (map_pool p) (map_history h') (map_pool p')
  unfolding get_request_number begin_destroy
  Step-map (enqueues t h p going_on) =
      let (same, same_pool) = enqueue-map_pool t p in
      Step-subst
        (ap (λ b. note_enqueue (f t) b (map_history h)) same
          ∙ note_enqueue-map_history t (enqueue t p).0 h)
        same_pool (enqueues (f t) (map_history h) (map_pool p) going_on)
  Step-map (notifies_one before after h p some_call place) =
      Step-subst refl (map_pool-place before after awake (record p { notifying = p.notifying - 1 }))
        (notifies_one (map map_worker before) (map map_worker after) (map_history h) (map_pool p)
          some_call (map_workers-split before after asleep p.workers place))
  Step-map (notifies_nobody h p some_call nobody) =
      notifies_nobody (map_history h) (map_pool p) some_call (asleep_count-map p.workers ∙ nobody)
  Step-map (notifies_all h p some_call) =
      Step-subst refl
        (ap (λ (ws : List (Worker U)). record (map_pool p) { notifying_all = false; workers = ws })
          (map-wake_all p.workers))
        (notifies_all (map_history h) (map_pool p) some_call)
  Step-map (wakes_spuriously before after h p place) =
      Step-subst refl (map_pool-place before after awake p) (
        wakes_spuriously (map map_worker before) (map map_worker after) (map_history h) (map_pool p)
          (map_workers-split before after asleep p.workers place))
  Step-map (takes_turn before after h p place) =
      let (w, same_pool) = worker_turn-map_pool p p.tasks p.stop refl refl in
      Step-subst
        (ap (λ (x : Worker U). note_turn x (map_history h)) w
          ∙ note_turn-map_history (worker_turn p).0 h)
        (ap
            (λ (x : Worker U). record (worker_turn (map_pool p)).1 {
              workers = map map_worker before ++ (x ∷ map map_worker after);
            })
            w
          ∙ ap
              (λ (q : ThreadPool U). record q {
                workers =
                    map map_worker before ++ (map_worker (worker_turn p).0 ∷ map map_worker after);
              })
              same_pool
          ∙ map_pool-place before after (worker_turn p).0 (worker_turn p).1)
        (takes_turn (map map_worker before) (map map_worker after) (map_history h) (map_pool p)
          (map_workers-split before after awake p.workers place))
  Step-map (completes before after t h p place) =
      Step-subst
        (ap (λ (ts : List U). record (map_history h) { completed = ts })
          (sym (map-append f h.completed (t ∷ []))))
        (map_pool-place before after awake p)
        (completes (map map_worker before) (map map_worker after) (f t) (map_history h) (map_pool p)
          (map_workers-split before after (running t) p.workers place))
  Step-map (numbers_request h p) = numbers_request (map_history h) (map_pool p)
  Step-map (destroys h p going_on) = destroys (map_history h) (map_pool p) going_on

  pub map_pool-new_pool : (threads : ℕ) → map_pool (new_pool threads) ≡ new_pool threads
  map_pool-new_pool threads =
      ap (λ ws. record (new_pool {T = U} threads) { workers = ws }) (start threads)
    where
      start : (n : ℕ) → map map_worker (start_workers n) ≡ start_workers n
      start zero = refl
      start (suc n) = ap (λ ws. awake ∷ ws) (start n)
