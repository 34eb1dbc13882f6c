-- ===== src/ThreadPool/Settles.antt =====
-- Version_2/src/Server.cpp: an open pool that is left alone works off its queue and goes to sleep.
use thread_pool.Base.{
  ℕ, ◌+◌, ◌<◌, ◌≤◌, ◌≡◌, ◌⊎◌, refl, ap, ◌∙◌, List, [], ◌∷◌, ◌++◌, Bool, false, length, inl, inr,
  arith, ltb, Bool-cases,
}
use thread_pool.ThreadPool.{ThreadPool, Worker, awake, asleep, finished, running}
use thread_pool.ThreadPool.Steps.{
  History, Step, notifies_one, takes_turn, completes, Reach, asleep_count,
}
use thread_pool.ThreadPool.Pending.{cost, Continues, Continues-pending, pending, turn-pending}
use thread_pool.ThreadPool.Queue.{Reach-fifo}
use thread_pool.ThreadPool.Wakeups.{Reach-no_lost_wakeup, awake_count}
use thread_pool.ThreadPool.Crew.{count, running_count, finished_count, count-append, count_bound}
use thread_pool.ThreadPool.Shutdown.{Reach-IsDraining}

module _ {ℓ} {T : Type ℓ} where
  find_asleep :
      (ws : List (Worker T))
      → 0 < asleep_count ws
      → (before after : List (Worker T)) × (ws ≡ before ++ (asleep ∷ after))
  find_asleep [] some_asleep = absurd (omega arith)
  find_asleep (asleep ∷ ws) some_asleep = ([], ws, refl)
  find_asleep (awake ∷ ws) some_asleep =
      let (before, after, e) = find_asleep ws some_asleep in
      (awake ∷ before, after, ap (λ vs. awake ∷ vs) e)
  find_asleep (running t ∷ ws) some_asleep =
      let (before, after, e) = find_asleep ws some_asleep in
      (running t ∷ before, after, ap (λ vs. running t ∷ vs) e)
  find_asleep (finished ∷ ws) some_asleep =
      let (before, after, e) = find_asleep ws some_asleep in
      (finished ∷ before, after, ap (λ vs. finished ∷ vs) e)

  -- Some worker can go on by itself, or all of them sleep or have returned.
  data Posture (test : T → Bool) (ws : List (Worker T)) : Type ℓ where
    one_awake : (before after : List (Worker T)) → ws ≡ before ++ (awake ∷ after) → Posture test ws
    one_running :
        (before after : List (Worker T)) (t : T)
        → ws ≡ before ++ (running t ∷ after)
        → Posture test ws
    at_rest :
        awake_count ws ≡ 0
        → running_count test ws ≡ 0
        → asleep_count ws + finished_count ws ≡ length ws
        → Posture test ws

  behind :
      (test : T → Bool) (w : Worker T) (ws : List (Worker T))
      → (awake_count (w ∷ []) ≡ 0)
      → (running_count test (w ∷ []) ≡ 0)
      → (asleep_count (w ∷ []) + finished_count (w ∷ []) ≡ 1)
      → Posture test ws
      → Posture test (w ∷ ws)
  behind test w ws a r n (one_awake before after e) =
      one_awake (w ∷ before) after (ap (λ vs. w ∷ vs) e)
  behind test w ws a r n (one_running before after t e) =
      one_running (w ∷ before) after t (ap (λ vs. w ∷ vs) e)
  behind test asleep ws a r n (at_rest a' r' n') = at_rest a' r' (omega (arith, n'))
  behind test finished ws a r n (at_rest a' r' n') = at_rest a' r' (omega (arith, n'))
  behind test awake ws a r n (at_rest a' r' n') = absurd (omega arith)
  behind test (running t) ws a r n (at_rest a' r' n') = absurd (omega arith)

  posture : (test : T → Bool) (ws : List (Worker T)) → Posture test ws
  posture test [] = at_rest refl refl (omega arith)
  posture test (awake ∷ ws) = one_awake [] ws refl
  posture test (running t ∷ ws) = one_running [] ws t refl
  posture test (asleep ∷ ws) = behind test asleep ws refl refl (omega arith) (posture test ws)
  posture test (finished ∷ ws) = behind test finished ws refl refl (omega arith) (posture test ws)

  -- The pool has nothing to do: every worker sleeps, no task waits, no notification is to come, and
  -- as many completed tasks as accepted ones pass the test.
  abbrev pub Settled : ℕ → (T → Bool) → History T → ThreadPool T → Type 0
  Settled threads test h p =
      (asleep_count p.workers ≡ threads)
      × (length p.tasks ≡ 0)
      × (p.notifying ≡ 0)
      × (count test h.completed ≡ count test h.accepted)

  -- The pool can take a step of its own and stays open.
  abbrev pub CanGoOn : History T → ThreadPool T → Type ℓ
  CanGoOn h p =
      (h' : History T) × (p' : ThreadPool T) × (s : Step h p h' p') × (cost s ≡ 0)
      × (p'.stop ≡ false)

  rest-Settled :
      (threads : ℕ) (test : T → Bool) (h : History T) (p : ThreadPool T)
      → Reach threads h p
      → 0 < threads
      → p.stop ≡ false
      → awake_count p.workers ≡ 0
      → running_count test p.workers ≡ 0
      → asleep_count p.workers + finished_count p.workers ≡ length p.workers
      → Settled threads test h p ⊎ CanGoOn h p
  rest-Settled threads test h p r some_worker going a runs n =
      let v = Reach-IsDraining threads test h p r in
      let stays_on : finished_count p.workers ≡ 0 = ground (arith, v.last_to_leave, going) in
      let all_asleep : asleep_count p.workers ≡ threads = omega (arith, n, stays_on, v.crew) in
      elim (Bool-cases (ltb 0 p.notifying)) [
        | inl some_call ↦
            (let (before, after, place) =
                find_asleep p.workers (omega (arith, all_asleep, some_worker)) in
              inr (
                _,
                _,
                notifies_one before after h p (ground (arith, some_call)) place,
                refl,
                going,
              ))
        | inr no_call ↦
            (let nobody : p.notifying ≡ 0 = ground (arith, no_call) in
              let none_waits : length p.tasks ≡ 0 = elim (Bool-cases (ltb 0 (length p.tasks))) [
                | inl some_task ↦ absurd (
                    omega (
                      arith,
                      nobody,
                      Reach-no_lost_wakeup threads h p r (omega (arith, all_asleep, some_worker))
                          (ground (arith, some_task)) a,
                    ))
                | inr no_task ↦ ground (arith, no_task)
              ] in
              inl (
                all_asleep,
                none_waits,
                nobody,
                omega (
                  arith,
                  v.carried_out,
                  runs,
                  none_waits,
                  count_bound test p.tasks,
                  ap (count test) (Reach-fifo threads h p r),
                  count-append test h.started p.tasks,
                ),
              ))
      ]

  progress :
      (threads : ℕ) (test : T → Bool) (h : History T) (p : ThreadPool T)
      → Reach threads h p
      → 0 < threads
      → p.stop ≡ false
      → Settled threads test h p ⊎ CanGoOn h p
  progress threads test h p r some_worker going = elim (posture test p.workers) [
    | at_rest a runs n ↦ rest-Settled threads test h p r some_worker going a runs n
    | one_awake before after place ↦ inr (
      _,
      _,
      takes_turn before after h p place,
      refl,
      (turn-pending before after p p.tasks refl place).1 ∙ going,
    )
    | one_running before after t place ↦ inr (_, _, completes before after t h p place, refl, going)
  ]

  -- A pool that stays open settles. From any reachable state of a pool of at least one worker, in whatever
  -- order steps are taken, there are no more of them than `pending` says, and five for each call of
  -- `enqueue`, two for each spurious wakeup and one for each request number drawn among them, as long as
  -- the pool is not told to stop; and then the pool can take a step of its own, or every worker sleeps, no
  -- task waits, no notification is to come, and for any test on tasks as many completed tasks as
  -- accepted ones pass it.
  pub Reach-settles :
      (threads n k : ℕ) (h h' : History T) (p p' : ThreadPool T) (test : T → Bool)
      → Reach threads h p
      → 0 < threads
      → Continues n k h p h' p'
      → p'.stop ≡ false
      → (n ≤ pending p + k) × (Settled threads test h' p' ⊎ CanGoOn h' p')
  Reach-settles threads n k h h' p p' test r some_worker run going =
      let (bound, _, r') = Continues-pending run r going in
      (omega (arith, bound), progress threads test h' p' r' some_worker going)
