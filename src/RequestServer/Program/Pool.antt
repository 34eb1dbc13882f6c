-- ===== src/RequestServer/Program/Pool.antt =====
-- Version_2/src/Server.cpp: what the program does to the pool, with each session seen as its descriptor.
use mathlib.Core.List.{map, map-append}
use thread_pool.Base.{
  ℕ, ◌≡◌, refl, sym, subst, ap, ◌∙◌, List, [], ◌∷◌, ◌++◌, false, ℤ, inl, inr, Option-cases, arith,
}
use thread_pool.Os.{Os}
use thread_pool.ThreadPool.{ThreadPool, Worker, running, enqueue, get_request_number}
use thread_pool.ThreadPool.Steps.{
  History, Reach, created, next, enqueues, completes, numbers_request,
}
use thread_pool.ThreadPool.Map.{map_worker, map_pool, map_history, Step-map, map_pool-new_pool}
use thread_pool.RequestServer.Program
use thread_pool.RequestServer.Program.{
  Phase, reading, numbering, closing, closed, answering, Session, session, new_session, Main,
  accepting, enqueuing, refusing, dropping, Program, session_turn, main_turn, Move, main_moves,
  schedules, session_moves, Runs, begins, goes_on, note_main,
}

-- The pool and its history, with descriptors for sessions.
abbrev pub pool_view : {W : Type 0} → Program W → ThreadPool ℤ
pool_view s = map_pool (λ (t : Session). t.descriptor) s.pool

abbrev pub history_view : {W : Type 0} → Program W → History ℤ
history_view s = map_history (λ (t : Session). t.descriptor) s.history

abbrev fd_of : Session → ℤ
fd_of t = t.descriptor

enqueue-stop :
    (t : Session) (p : ThreadPool Session) → p.stop ≡ false → (enqueue t p).1.stop ≡ false
unfolding enqueue
enqueue-stop t p on = ground (arith, on)

module _ {W : Type 0} (os : Os W) (server_socket : ℤ) (threads : ℕ) where
  -- No thread of the program stops the pool.
  record IsServing (s : Program W) : Type 0 where
    goes_on : s.pool.stop ≡ false
    reached : Reach threads (history_view s) (pool_view s)

  Reach-subst :
      {h : History ℤ} {p p' : ThreadPool ℤ} → p ≡ p' → Reach threads h p → Reach threads h p'
  Reach-subst {h} e r = subst (λ x. Reach threads h x) e r

  main_turn-Reach :
      (m : Main) (p : ThreadPool Session) (w : W) (h : History Session)
      → p.stop ≡ false
      → Reach threads (map_history fd_of h) (map_pool fd_of p)
      → let p' = (main_turn os server_socket m p w).1 in
        (p'.stop ≡ false) × Reach threads (map_history fd_of (note_main m p h)) (map_pool fd_of p')
  unfolding main_turn
  main_turn-Reach accepting p w h on r = (on, r)
  main_turn-Reach (enqueuing fd) p w h on r = (
    enqueue-stop (new_session fd) p on,
    next r (Step-map fd_of (enqueues (new_session fd) h p on)),
  )
  main_turn-Reach (refusing fd) p w h on r = (on, r)
  main_turn-Reach (dropping fd) p w h on r = (on, r)

  -- What a session's action makes of the pool.
  session_turn-Reach :
      (fd : ℤ) (phase : Phase) (p : ThreadPool Session) (w : W) (h : History Session)
      → p.stop ≡ false
      → Reach threads (map_history fd_of h) (map_pool fd_of p)
      → let p' = (session_turn os fd phase p w).1 in
        (p'.stop ≡ false)
        × (p'.workers ≡ p.workers)
        × Reach threads (map_history fd_of h) (map_pool fd_of p')
  unfolding session_turn get_request_number
  session_turn-Reach fd reading p w h on r = elim (Option-cases (os.recv fd 1023 w).0) [
    | inl e ↦ rw (e, session_turn) (on, refl, r)
    | inr ([], e) ↦ rw (e, session_turn) (on, refl, r)
    | inr (b ∷ bs, e) ↦ rw (e, session_turn) (on, refl, r)
  ]
  session_turn-Reach fd numbering p w h on r =
      (on, refl, next r (numbers_request (map_history fd_of h) (map_pool fd_of p)))
  session_turn-Reach fd (answering n) p w h on r = (on, refl, r)
  session_turn-Reach fd closing p w h on r = (on, refl, r)
  session_turn-Reach fd closed p w h on r = (on, refl, r)

  -- The phase of a running session is not seen.
  phase_unseen :
      (front back : List (Worker Session)) (fd : ℤ) (phase phase' : Phase) (p : ThreadPool Session)
      → p.workers ≡ front ++ (running (session fd phase) ∷ back)
      → map_pool fd_of p
        ≡ map_pool fd_of (record p { workers = front ++ (running (session fd phase') ∷ back) })
  phase_unseen front back fd phase phase' p place =
      ap (λ (ws : List (Worker ℤ)). record (map_pool fd_of p) { workers = ws })
        (ap (map (map_worker fd_of)) place
          ∙ map-append (map_worker fd_of) front (running (session fd phase) ∷ back)
          ∙ sym (map-append (map_worker fd_of) front (running (session fd phase') ∷ back)))

  Move-IsServing : {s s' : Program W} → Move os server_socket s s' → IsServing s → IsServing s'
  Move-IsServing (main_moves s) v =
      let (on, r) = main_turn-Reach s.main s.pool s.world s.history v.goes_on v.reached in
      record { goes_on = on; reached = r }
  Move-IsServing (schedules h' p' s (step, accepted, completed, counter, stop)) v = record {
    goes_on = stop ∙ v.goes_on;
    reached = next v.reached (Step-map fd_of step);
  }
  Move-IsServing (session_moves front back fd phase s place) v =
      let (phase', p', w') = session_turn os fd phase s.pool s.world in
      let (on, workers, r) =
        session_turn-Reach fd phase s.pool s.world s.history v.goes_on v.reached in
      record {
        goes_on = on;
        reached = Reach-subst (phase_unseen front back fd phase phase' p' (workers ∙ place)) r;
      }
  Move-IsServing (Program.completes front back fd s place) v = record {
    goes_on = v.goes_on;
    reached =
        next v.reached
          (Step-map fd_of (completes front back (session fd closed) s.history s.pool place));
  }

  Runs-IsServing : (start : W) (s : Program W) → Runs os server_socket threads start s → IsServing s
  Runs-IsServing start _ begins = record {
    goes_on = refl;
    reached = Reach-subst (sym (map_pool-new_pool fd_of threads)) created;
  }
  Runs-IsServing start _ (goes_on r m) = Move-IsServing m (Runs-IsServing start _ r)

  -- Whatever the threads do, in any order, the pool goes through states that its own steps reach, with the
  -- history that the threads' calls make: what holds in all reachable states of the pool holds in the program.
  pub Runs-Reach :
      (start : W) (s : Program W)
      → Runs os server_socket threads start s
      → Reach threads (history_view s) (pool_view s)
  Runs-Reach start s r = (Runs-IsServing start s r).reached
