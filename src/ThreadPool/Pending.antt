-- ===== src/ThreadPool/Pending.antt =====
-- Version_2/src/Server.cpp: how much an open pool still has to do by itself.
use thread_pool.Base.{
  ℕ, zero, suc, ◌+◌, ◌*◌, ◌≤◌, ◌≡◌, ◌⊎◌, refl, ◌∙◌, sym, List, [], ◌∷◌, ◌++◌, true, false, length,
  inl, inr, arith, length-append,
}
use thread_pool.ThreadPool.{
  ThreadPool, Worker, awake, asleep, finished, running, enqueue, worker_turn, get_request_number,
  begin_destroy,
}
use thread_pool.ThreadPool.Steps.{
  History, Step, enqueues, notifies_one, notifies_nobody, notifies_all, wakes_spuriously,
  takes_turn, completes, numbers_request, destroys, Reach, created, next,
}

module _ {ℓ} {T : Type ℓ} where
  -- How many steps the workers can still take by themselves: an awake one looks at the queue once
  -- more, and a running one completes its task before.
  abbrev pub alertness : List (Worker T) → ℕ
  alertness [] = 0
  alertness (awake ∷ ws) = 1 + alertness ws
  alertness (running t ∷ ws) = 2 + alertness ws
  alertness (asleep ∷ ws) = alertness ws
  alertness (finished ∷ ws) = alertness ws

  -- A bound on the steps of an open pool that nothing from outside disturbs.
  abbrev pub pending : ThreadPool T → ℕ
  pending p = alertness p.workers + 2 * length p.tasks + 2 * p.notifying

  -- What a step from outside adds to the bound, itself included: a call of `enqueue`, a spurious
  -- wakeup, a request number. The pool's own steps are free.
  abbrev pub cost :
      {h : History T} {p : ThreadPool T} {h' : History T} {p' : ThreadPool T} → Step h p h' p' → ℕ
  cost (enqueues t h p _) = 5
  cost (wakes_spuriously before after h p _) = 2
  cost (numbers_request h p) = 1
  cost (notifies_one before after h p _ _) = 0
  cost (notifies_nobody h p _ _) = 0
  cost (notifies_all h p _) = 0
  cost (takes_turn before after h p _) = 0
  cost (completes before after t h p _) = 0
  cost (destroys h p _) = 0

  -- So many steps, which cost so much.
  pub data Continues : ℕ → ℕ → History T → ThreadPool T → History T → ThreadPool T → Type ℓ where
    stays : {h : History T} {p : ThreadPool T} → Continues zero zero h p h p
    goes_on :
        {n k : ℕ} {h h₁ h₂ : History T} {p p₁ p₂ : ThreadPool T}
        → (s : Step h p h₁ p₁) → Continues n k h₁ p₁ h₂ p₂
        → Continues (suc n) (cost s + k) h p h₂ p₂

  alertness-append : (xs ys : List (Worker T)) → alertness (xs ++ ys) ≡ alertness xs + alertness ys
  alertness-append [] ys = omega arith
  alertness-append (awake ∷ xs) ys = omega (arith, alertness-append xs ys)
  alertness-append (running t ∷ xs) ys = omega (arith, alertness-append xs ys)
  alertness-append (asleep ∷ xs) ys = alertness-append xs ys
  alertness-append (finished ∷ xs) ys = alertness-append xs ys

  alertness_change :
      (before after : List (Worker T)) (w w' : Worker T) (ws : List (Worker T))
      → ws ≡ before ++ (w ∷ after)
      → alertness (before ++ (w' ∷ after)) + alertness (w ∷ []) ≡ alertness ws + alertness (w' ∷ [])
  alertness_change before after w w' ws place = rw place (
      omega (
        arith,
        alertness-append before (w ∷ after),
        alertness-append before (w' ∷ after),
        alertness-append (w ∷ []) after,
        alertness-append (w' ∷ []) after,
      ))

  enqueue-pending :
      (t : T) (p : ThreadPool T)
      → (suc (pending (enqueue t p).1) ≤ pending p + 5)
        × ((enqueue t p).1.stop ≡ p.stop)
        × ((enqueue t p).1.notifying_all ≡ p.notifying_all)
  unfolding enqueue
  enqueue-pending t p = ground (arith, length-append p.tasks (t ∷ []))

  pub turn-pending :
      (before after : List (Worker T)) (p : ThreadPool T) (waiting : List T)
      → p.tasks ≡ waiting
      → p.workers ≡ before ++ (awake ∷ after)
      → let p' = record (worker_turn p).1 { workers = before ++ ((worker_turn p).0 ∷ after) } in
        (suc (pending p') ≤ pending p) × (p'.stop ≡ p.stop) × (p'.notifying_all ≡ p.notifying_all)
  unfolding worker_turn
  turn-pending before after p [] e place = ground (
    arith,
    e,
    alertness_change before after awake asleep p.workers place,
    alertness_change before after awake finished p.workers place,
  )
  turn-pending before after p (t ∷ rest) e place =
      ground (arith, e, alertness_change before after awake (running t) p.workers place)

  -- The destructor's `notify_all` is to come only once the pool is stopping.
  IsOpen : ThreadPool T → Type 0
  IsOpen p = (p.stop ≡ true) ⊎ (p.notifying_all ≡ false)

  Step-IsOpen :
      {h : History T} {p : ThreadPool T} {h' : History T} {p' : ThreadPool T}
      → Step h p h' p'
      → IsOpen p
      → IsOpen p'
  unfolding IsOpen get_request_number begin_destroy
  Step-IsOpen (enqueues t h p _) v = let (_, s, a) = enqueue-pending t p in ground (arith, s, a)
  Step-IsOpen (notifies_one before after h p _ _) v = v
  Step-IsOpen (notifies_nobody h p _ _) v = v
  Step-IsOpen (notifies_all h p _) v = inr refl
  Step-IsOpen (wakes_spuriously before after h p _) v = v
  Step-IsOpen (takes_turn before after h p place) v =
      let (_, s, a) = turn-pending before after p p.tasks refl place in ground (arith, s, a)
  Step-IsOpen (completes before after t h p _) v = v
  Step-IsOpen (numbers_request h p) v = v
  Step-IsOpen (destroys h p _) v = inl refl

  Reach-IsOpen : (threads : ℕ) (h : History T) (p : ThreadPool T) → Reach threads h p → IsOpen p
  unfolding IsOpen
  Reach-IsOpen threads _ _ created = inr refl
  Reach-IsOpen threads _ _ (next r s) = Step-IsOpen s (Reach-IsOpen threads _ _ r)

  -- A step of a pool that is open before and after it uses up the bound, or costs.
  Step-pending :
      {h : History T} {p : ThreadPool T} {h' : History T} {p' : ThreadPool T}
      → (s : Step h p h' p') → IsOpen p
      → p'.stop ≡ false
      → (suc (pending p') ≤ pending p + cost s) × (p.stop ≡ false)
  unfolding IsOpen get_request_number begin_destroy
  Step-pending (enqueues t h p _) v going =
      let (bound, s, _) = enqueue-pending t p in (bound, sym s ∙ going)
  Step-pending (notifies_one before after h p some_call place) v going =
      (omega (arith, some_call, alertness_change before after asleep awake p.workers place), going)
  Step-pending (notifies_nobody h p some_call _) v going = (omega (arith, some_call), going)
  Step-pending (notifies_all h p some_call) v going = absurd (ground (arith, v, going, some_call))
  Step-pending (wakes_spuriously before after h p place) v going =
      (omega (arith, alertness_change before after asleep awake p.workers place), going)
  Step-pending (takes_turn before after h p place) v going =
      let (bound, s, _) = turn-pending before after p p.tasks refl place in
      (omega (arith, bound), sym s ∙ going)
  Step-pending (completes before after t h p place) v going =
      (omega (arith, alertness_change before after (running t) awake p.workers place), going)
  Step-pending (numbers_request h p) v going = (omega arith, going)
  Step-pending (destroys h p _) v going = absurd cc

  -- Backwards: what is open at the end was open before.
  pub Continues-pending :
      {threads n k : ℕ} {h : History T} {p : ThreadPool T} {h' : History T} {p' : ThreadPool T}
      → Continues n k h p h' p'
      → Reach threads h p
      → p'.stop ≡ false
      → (n + pending p' ≤ pending p + k) × (p.stop ≡ false) × Reach threads h' p'
  Continues-pending stays r going = (omega arith, going, r)
  Continues-pending (goes_on s rest) r going =
      let (bound, going', r') = Continues-pending rest (next r s) going in
      let (less, before) = Step-pending s (Reach-IsOpen _ _ _ r) going' in
      (omega (arith, bound, less), before, r')
