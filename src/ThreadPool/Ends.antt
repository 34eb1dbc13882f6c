-- ===== src/ThreadPool/Ends.antt =====
-- Version_2/src/Server.cpp: that the pool's shutdown comes to an end, whatever order the threads take.
use thread_pool.Base.{
  ℕ, zero, suc, ◌+◌, ◌*◌, ◌<◌, ◌≤◌, ◌≡◌, ◌⊎◌, refl, ap, ◌∙◌, List, [], ◌∷◌, ◌++◌, Bool, true, false,
  if◌then◌else◌, length, inl, inr, arith,
}
use thread_pool.ThreadPool.{
  ThreadPool, Worker, awake, asleep, finished, running, worker_turn, get_request_number,
  begin_destroy, wake_all,
}
use thread_pool.ThreadPool.Steps.{
  History, Step, enqueues, notifies_one, notifies_nobody, notifies_all, wakes_spuriously,
  takes_turn, completes, numbers_request, destroys, Reach, next, asleep_count,
}
use thread_pool.ThreadPool.Wakeups.{Reach-no_missed_stop}
use thread_pool.ThreadPool.Crew.{count, finished_count}
use thread_pool.ThreadPool.Shutdown.{Reach-IsDraining, Reach-drained}

module _ {ℓ} {T : Type ℓ} where
  -- How many steps the workers can still take: a sleeper has to be woken, and a task to be taken and ended.
  abbrev pub work : List (Worker T) → ℕ
  work [] = 0
  work (awake ∷ ws) = 1 + work ws
  work (asleep ∷ ws) = 2 + work ws
  work (running t ∷ ws) = 2 + work ws
  work (finished ∷ ws) = work ws

  -- A bound on the steps that a stopping pool can still take.
  abbrev pub remaining : ThreadPool T → ℕ
  remaining p =
      work p.workers + 2 * length p.tasks + p.notifying + (if p.notifying_all then 1 else 0)

  -- A step that draws no request number. (How many a task draws is the task's own affair.)
  abbrev pub Acts : History T → ThreadPool T → History T → ThreadPool T → Type ℓ
  Acts h p h' p' = Step h p h' p' × (p'.request_counter ≡ p.request_counter)

  pub data Follows : ℕ → History T → ThreadPool T → History T → ThreadPool T → Type ℓ where
    stays : {h : History T} {p : ThreadPool T} → Follows zero h p h p
    acts :
        {n : ℕ} {h h₁ h₂ : History T} {p p₁ p₂ : ThreadPool T}
        → Acts h p h₁ p₁
        → Follows n h₁ p₁ h₂ p₂
        → Follows (suc n) h p h₂ p₂

  work-append : (xs ys : List (Worker T)) → work (xs ++ ys) ≡ work xs + work ys
  work-append [] ys = omega arith
  work-append (awake ∷ xs) ys = omega (arith, work-append xs ys)
  work-append (asleep ∷ xs) ys = omega (arith, work-append xs ys)
  work-append (running t ∷ xs) ys = omega (arith, work-append xs ys)
  work-append (finished ∷ xs) ys = work-append xs ys

  work_change :
      (before after : List (Worker T)) (w w' : Worker T) (ws : List (Worker T))
      → ws ≡ before ++ (w ∷ after)
      → work (before ++ (w' ∷ after)) + work (w ∷ []) ≡ work ws + work (w' ∷ [])
  work_change before after w w' ws place = rw place (
      omega (
        arith,
        work-append before (w ∷ after),
        work-append before (w' ∷ after),
        work-append (w ∷ []) after,
        work-append (w' ∷ []) after,
      ))

  work-wake_all : (ws : List (Worker T)) → work (wake_all ws) ≤ work ws
  work-wake_all [] = omega arith
  work-wake_all (awake ∷ ws) = omega (arith, work-wake_all ws)
  work-wake_all (asleep ∷ ws) = omega (arith, work-wake_all ws)
  work-wake_all (running t ∷ ws) = omega (arith, work-wake_all ws)
  work-wake_all (finished ∷ ws) = work-wake_all ws

  turn-remaining :
      (before after : List (Worker T)) (p : ThreadPool T) (waiting : List T)
      → p.tasks ≡ waiting
      → p.stop ≡ true
      → p.workers ≡ before ++ (awake ∷ after)
      → let p' = record (worker_turn p).1 { workers = before ++ ((worker_turn p).0 ∷ after) } in
        (remaining p' < remaining p) × (p'.stop ≡ true) × (p'.request_counter ≡ p.request_counter)
  unfolding worker_turn
  turn-remaining before after p [] e stopping place =
      ground (arith, e, stopping, work_change before after awake finished p.workers place)
  turn-remaining before after p (t ∷ rest) e stopping place =
      ground (arith, e, stopping, work_change before after awake (running t) p.workers place)

  -- Every action of a stopping pool is one of those that remain.
  Step-remaining :
      {h : History T} {p : ThreadPool T} {h' : History T} {p' : ThreadPool T}
      → Step h p h' p'
      → p'.request_counter ≡ p.request_counter
      → p.stop ≡ true
      → (remaining p' < remaining p) × (p'.stop ≡ true)
  unfolding get_request_number begin_destroy
  Step-remaining (enqueues t h p going_on) same stopping = absurd cc
  Step-remaining (notifies_one before after h p some_call place) same stopping =
      (omega (arith, some_call, work_change before after asleep awake p.workers place), stopping)
  Step-remaining (notifies_nobody h p some_call _) same stopping =
      (omega (arith, some_call), stopping)
  Step-remaining (notifies_all h p some_call) same stopping =
      (rw some_call (omega (arith, work-wake_all p.workers)), stopping)
  Step-remaining (wakes_spuriously before after h p place) same stopping =
      (omega (arith, work_change before after asleep awake p.workers place), stopping)
  Step-remaining (takes_turn before after h p place) same stopping =
      let (less, on, _) = turn-remaining before after p p.tasks refl stopping place in (less, on)
  Step-remaining (completes before after t h p place) same stopping =
      (omega (arith, work_change before after (running t) awake p.workers place), stopping)
  Step-remaining (numbers_request h p) same stopping = absurd (omega (arith, same))
  Step-remaining (destroys h p going_on) same stopping = absurd cc

  Follows-remaining :
      {n : ℕ} {h : History T} {p : ThreadPool T} {h' : History T} {p' : ThreadPool T}
      → Follows n h p h' p'
      → p.stop ≡ true
      → (n + remaining p' ≤ remaining p) × (p'.stop ≡ true)
  Follows-remaining stays stopping = (omega arith, stopping)
  Follows-remaining (acts (s, same) rest) stopping =
      let (less, on) = Step-remaining s same stopping in
      let (bound, on') = Follows-remaining rest on in (omega (arith, less, bound), on')

  Follows-Reach :
      {threads n : ℕ} {h : History T} {p : ThreadPool T} {h' : History T} {p' : ThreadPool T}
      → Follows n h p h' p'
      → Reach threads h p
      → Reach threads h' p'
  Follows-Reach stays r = r
  Follows-Reach (acts (s, same) rest) r = Follows-Reach rest (next r s)

  -- A worker that has not returned is awake, runs a task or sleeps.
  data Standing (ws : List (Worker T)) : Type ℓ where
    all_finished : finished_count ws ≡ length ws → Standing ws
    one_awake : (before after : List (Worker T)) → ws ≡ before ++ (awake ∷ after) → Standing ws
    one_running :
        (before after : List (Worker T)) (t : T) → ws ≡ before ++ (running t ∷ after) → Standing ws
    one_asleep : 0 < asleep_count ws → Standing ws

  standing : (ws : List (Worker T)) → Standing ws
  standing [] = all_finished refl
  standing (awake ∷ ws) = one_awake [] ws refl
  standing (asleep ∷ ws) = one_asleep (omega arith)
  standing (running t ∷ ws) = one_running [] ws t refl
  standing (finished ∷ ws) = elim (standing ws) [
    | all_finished e ↦ all_finished (omega (arith, e))
    | one_awake before after e ↦ one_awake (finished ∷ before) after (ap (λ vs. finished ∷ vs) e)
    | one_running before after t e ↦
        one_running (finished ∷ before) after t (ap (λ vs. finished ∷ vs) e)
    | one_asleep some_asleep ↦ one_asleep some_asleep
  ]

  -- A stopping pool whose workers have not all returned can act.
  progress :
      (threads : ℕ) (h : History T) (p : ThreadPool T)
      → Reach threads h p
      → p.stop ≡ true
      → (finished_count p.workers ≡ threads)
        ⊎ ((h' : History T) × (p' : ThreadPool T) × Acts h p h' p')
  progress threads h p r stopping = elim (standing p.workers) [
    | all_finished e ↦ inl (e ∙ (Reach-IsDraining threads (λ t. false) h p r).crew)
    | one_awake before after place ↦ inr (
      _,
      _,
      (
        takes_turn before after h p place,
        (turn-remaining before after p p.tasks refl stopping place).2,
      ),
    )
    | one_running before after t place ↦ inr (_, _, (completes before after t h p place, refl))
    | one_asleep some_asleep ↦
        inr
          (_, _, (notifies_all h p (Reach-no_missed_stop threads h p r some_asleep stopping), refl))
  ]

  -- The pool's shutdown ends. From any reachable state in which the pool of at least one worker is stopping,
  -- whatever actions are taken in whatever order, there are no more of them than `remaining` says, and
  -- where no action is possible any more every worker has returned, no task waits, and for any test on
  -- tasks as many completed tasks as accepted ones pass it.
  pub Reach-ends :
      (threads n : ℕ) (h h' : History T) (p p' : ThreadPool T) (test : T → Bool)
      → Reach threads h p
      → 0 < threads
      → p.stop ≡ true
      → Follows n h p h' p'
      → (n ≤ remaining p)
        × (((finished_count p'.workers ≡ threads)
              × (length p'.tasks ≡ 0)
              × (count test h'.completed ≡ count test h'.accepted))
            ⊎ ((h'' : History T) × (p'' : ThreadPool T) × Acts h' p' h'' p''))
  Reach-ends threads n h h' p p' test r some_worker stopping run =
      let (bound, still) = Follows-remaining run stopping in
      let r' = Follows-Reach run r in
      (
        omega (arith, bound),
        elim (progress threads h' p' r' still) [
          | inl returned ↦
              (let (none_waits, all_done) =
                  Reach-drained threads test h' p' r' some_worker returned in
                inl (returned, none_waits, all_done))
          | inr more ↦ inr more
        ],
      )
