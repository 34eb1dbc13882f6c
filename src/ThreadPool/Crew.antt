-- ===== src/ThreadPool/Crew.antt =====
-- Counting tasks and workers: what a change of one worker, or a wakeup of all, does to the counts.
use thread_pool.Base.{
  ℕ, ◌+◌, ◌≤◌, ◌≡◌, refl, suc, List, [], ◌∷◌, ◌++◌, Bool, if◌then◌else◌, length, length-append,
  arith,
}
use thread_pool.ThreadPool.{Worker, awake, asleep, finished, running, wake_all}

module _ {ℓ} {T : Type ℓ} where
  -- How many tasks of a list pass a test, and how many of them the workers are running.
  abbrev pub count : (T → Bool) → List T → ℕ
  count test [] = 0
  count test (t ∷ ts) = (if test t then 1 else 0) + count test ts

  abbrev pub running_count : (T → Bool) → List (Worker T) → ℕ
  running_count test [] = 0
  running_count test (running t ∷ ws) = (if test t then 1 else 0) + running_count test ws
  running_count test (awake ∷ ws) = running_count test ws
  running_count test (asleep ∷ ws) = running_count test ws
  running_count test (finished ∷ ws) = running_count test ws

  abbrev pub finished_count : List (Worker T) → ℕ
  finished_count [] = 0
  finished_count (finished ∷ ws) = suc (finished_count ws)
  finished_count (awake ∷ ws) = finished_count ws
  finished_count (asleep ∷ ws) = finished_count ws
  finished_count (running t ∷ ws) = finished_count ws

  pub count-append :
      (test : T → Bool) (xs ys : List T) → count test (xs ++ ys) ≡ count test xs + count test ys
  count-append test [] ys = omega arith
  count-append test (x ∷ xs) ys = omega (arith, count-append test xs ys)

  pub count_bound : (test : T → Bool) (ts : List T) → count test ts ≤ length ts
  count_bound test [] = omega arith
  count_bound test (t ∷ ts) = ground (arith, count_bound test ts)

  running_count-append :
      (test : T → Bool) (xs ys : List (Worker T))
      → running_count test (xs ++ ys) ≡ running_count test xs + running_count test ys
  running_count-append test [] ys = omega arith
  running_count-append test (running t ∷ xs) ys = omega (arith, running_count-append test xs ys)
  running_count-append test (awake ∷ xs) ys = running_count-append test xs ys
  running_count-append test (asleep ∷ xs) ys = running_count-append test xs ys
  running_count-append test (finished ∷ xs) ys = running_count-append test xs ys

  finished_count-append :
      (xs ys : List (Worker T)) → finished_count (xs ++ ys) ≡ finished_count xs + finished_count ys
  finished_count-append [] ys = omega arith
  finished_count-append (finished ∷ xs) ys = omega (arith, finished_count-append xs ys)
  finished_count-append (awake ∷ xs) ys = finished_count-append xs ys
  finished_count-append (asleep ∷ xs) ys = finished_count-append xs ys
  finished_count-append (running t ∷ xs) ys = finished_count-append xs ys

  pub running_count-wake_all :
      (test : T → Bool) (ws : List (Worker T))
      → running_count test (wake_all ws) ≡ running_count test ws
  running_count-wake_all test [] = refl
  running_count-wake_all test (running t ∷ ws) = omega (arith, running_count-wake_all test ws)
  running_count-wake_all test (awake ∷ ws) = running_count-wake_all test ws
  running_count-wake_all test (asleep ∷ ws) = running_count-wake_all test ws
  running_count-wake_all test (finished ∷ ws) = running_count-wake_all test ws

  pub finished_count-wake_all :
      (ws : List (Worker T)) → finished_count (wake_all ws) ≡ finished_count ws
  finished_count-wake_all [] = refl
  finished_count-wake_all (finished ∷ ws) = omega (arith, finished_count-wake_all ws)
  finished_count-wake_all (awake ∷ ws) = finished_count-wake_all ws
  finished_count-wake_all (asleep ∷ ws) = finished_count-wake_all ws
  finished_count-wake_all (running t ∷ ws) = finished_count-wake_all ws

  pub length-wake_all : (ws : List (Worker T)) → length (wake_all ws) ≡ length ws
  length-wake_all [] = refl
  length-wake_all (w ∷ ws) = omega (arith, length-wake_all ws)

  pub finished_or_running :
      (test : T → Bool) (ws : List (Worker T))
      → running_count test ws + finished_count ws ≤ length ws
  finished_or_running test [] = omega arith
  finished_or_running test (running t ∷ ws) = ground (arith, finished_or_running test ws)
  finished_or_running test (awake ∷ ws) = omega (arith, finished_or_running test ws)
  finished_or_running test (asleep ∷ ws) = omega (arith, finished_or_running test ws)
  finished_or_running test (finished ∷ ws) = omega (arith, finished_or_running test ws)

  -- What a step may change of the workers: `w` in its place becomes `w'`.
  module _ (before after : List (Worker T)) (w w' : Worker T) (ws : List (Worker T))
      (place : ws ≡ before ++ (w ∷ after)) where
    pub running_change :
        (test : T → Bool)
        → running_count test (before ++ (w' ∷ after)) + running_count test (w ∷ [])
          ≡ running_count test ws + running_count test (w' ∷ [])
    running_change test = rw place (
        omega (
          arith,
          running_count-append test before (w ∷ after),
          running_count-append test before (w' ∷ after),
          running_count-append test (w ∷ []) after,
          running_count-append test (w' ∷ []) after,
        ))

    pub finished_change :
        finished_count (before ++ (w' ∷ after)) + finished_count (w ∷ [])
        ≡ finished_count ws + finished_count (w' ∷ [])
    finished_change = rw place (
        omega (
          arith,
          finished_count-append before (w ∷ after),
          finished_count-append before (w' ∷ after),
          finished_count-append (w ∷ []) after,
          finished_count-append (w' ∷ []) after,
        ))

    pub length_change : length (before ++ (w' ∷ after)) ≡ length ws
    length_change =
        rw place
          (omega (arith, length-append before (w ∷ after), length-append before (w' ∷ after)))
