-- ===== src/RequestServer/Program/Open.antt =====
-- Version_2/src/Server.cpp: which descriptors of clients are open while the program runs.
use thread_pool.Base.{
  ℕ, zero, suc, ◌+◌, ◌≤◌, ◌≡◌, refl, ap, [], ◌∷◌, Bool, false, if◌then◌else◌, ℤ, pos, negsuc, inl,
  inr, Option-cases, arith,
}
use thread_pool.Os.{Os, Descriptors, one_at, same_descriptor}
use thread_pool.ThreadPool.{ThreadPool, awake, running, enqueue, get_request_number, start_workers}
use thread_pool.ThreadPool.Crew.{count, running_count, count-append, running_change}
use thread_pool.ThreadPool.Balance.{held, Step-balance}
use thread_pool.RequestServer.{response, busy}
use thread_pool.RequestServer.Program.{
  Phase, reading, numbering, closing, closed, answering, Session, session, new_session, Main,
  accepting, enqueuing, refusing, dropping, Program, session_turn, main_turn, Move, main_moves,
  schedules, session_moves, completes, Runs, begins, goes_on,
}

-- Whether a session still has to close its descriptor, and that is `d`.
abbrev pub is_open : ℤ → Session → Bool
is_open d s = elim s.phase [ closed ↦ false | _ ↦ same_descriptor s.descriptor d ]

-- How often main's thread has `d` from `accept` and has not given it away or closed it.
abbrev pub main_holds : ℤ → Main → ℕ
main_holds d accepting = 0
main_holds d (enqueuing fd) = one_at fd d
main_holds d (refusing fd) = one_at fd d
main_holds d (dropping fd) = one_at fd d

module _ {W : Type 0} (os : Os W) (server_socket : ℤ) (k : ℕ) (opened : W → ℕ)
    (laws : Descriptors os (pos k) opened) where
  accept-opened :
      (w : W) (fd : ℤ)
      → (os.accept server_socket w).0 ≡ fd
      → opened (os.accept server_socket w).1 ≡ opened w + one_at fd (pos k)
  accept-opened w (pos n) e = rw (laws.by_accept server_socket w, e) refl
  accept-opened w (negsuc n) e = rw (laws.by_accept server_socket w, e) refl

  main_turn-opened :
      (m : Main) (p : ThreadPool Session) (w : W)
      → main_holds (pos k) m ≤ opened w
      → let (m', p', w') = main_turn os server_socket m p w in
        opened w' + (main_holds (pos k) m + held (is_open (pos k)) p)
        ≡ opened w + (main_holds (pos k) m' + held (is_open (pos k)) p')
  unfolding main_turn enqueue
  main_turn-opened accepting p w h =
      omega (arith, accept-opened w (os.accept server_socket w).0 refl)
  main_turn-opened (enqueuing fd) p w h =
      ground (arith, count-append (is_open (pos k)) p.tasks (new_session fd ∷ []))
  main_turn-opened (refusing fd) p w h = omega (arith, laws.by_send fd busy w)
  main_turn-opened (dropping fd) p w h = omega (arith, h, laws.by_close fd w)

  abbrev open_count : ℤ → Phase → ℕ
  open_count fd phase = if is_open (pos k) (session fd phase) then 1 else 0

  session_turn-opened :
      (fd : ℤ) (phase : Phase) (p : ThreadPool Session) (w : W)
      → open_count fd phase ≤ opened w
      → let (phase', p', w') = session_turn os fd phase p w in
        (opened w' + open_count fd phase ≡ opened w + open_count fd phase')
        × (p'.workers ≡ p.workers)
        × (p'.tasks ≡ p.tasks)
  unfolding session_turn get_request_number
  session_turn-opened fd reading p w h = elim (Option-cases (os.recv fd 1023 w).0) [
    | inl e ↦ rw (e, session_turn) (omega (arith, laws.by_recv fd 1023 w), refl, refl)
    | inr ([], e) ↦ rw (e, session_turn) (omega (arith, laws.by_recv fd 1023 w), refl, refl)
    | inr (b ∷ bs, e) ↦ rw (e, session_turn) (omega (arith, laws.by_recv fd 1023 w), refl, refl)
  ]
  session_turn-opened fd numbering p w h = (refl, refl, refl)
  session_turn-opened fd (answering n) p w h =
      (omega (arith, laws.by_send fd (response n) w), refl, refl)
  session_turn-opened fd closing p w h = (omega (arith, h, laws.by_close fd w), refl, refl)
  session_turn-opened fd closed p w h = (refl, refl, refl)

  -- `before` is how often the descriptor was open when the program started.
  IsAccounted : ℕ → Program W → Type 0
  IsAccounted before s =
      opened s.world ≡ before + (main_holds (pos k) s.main + held (is_open (pos k)) s.pool)

  main_move-IsAccounted :
      (before : ℕ) (s : Program W)
      → opened s.world ≡ before + (main_holds (pos k) s.main + held (is_open (pos k)) s.pool)
      → let (m, p, w) = main_turn os server_socket s.main s.pool s.world in
        opened w ≡ before + (main_holds (pos k) m + held (is_open (pos k)) p)
  main_move-IsAccounted before s e =
      omega (arith, e, main_turn-opened s.main s.pool s.world (omega (arith, e)))

  Move-IsAccounted :
      (before : ℕ) {s s' : Program W}
      → Move os server_socket s s'
      → IsAccounted before s
      → IsAccounted before s'
  unfolding IsAccounted
  Move-IsAccounted before (main_moves s) e = main_move-IsAccounted before s e
  Move-IsAccounted before (schedules h' p' s (step, accepted, completed, counter, stop)) e = omega (
    arith,
    e,
    Step-balance (is_open (pos k)) step,
    ap (count (is_open (pos k))) accepted,
    ap (count (is_open (pos k))) completed,
  )
  Move-IsAccounted before (session_moves front back fd phase s place) e =
      let (phase', p', w') = session_turn os fd phase s.pool s.world in
      let change =
        running_change front back (running (session fd phase)) (running (session fd phase'))
          s.pool.workers place (is_open (pos k)) in
      let freed =
        running_change front back (running (session fd phase)) awake s.pool.workers place
          (is_open (pos k)) in
      let (world, workers, tasks) =
        session_turn-opened fd phase s.pool s.world (omega (arith, e, freed)) in
      omega (arith, e, change, world, ap (count (is_open (pos k))) tasks)
  Move-IsAccounted before (completes front back fd s place) e = omega (
    arith,
    e,
    running_change front back (running (session fd closed)) awake s.pool.workers place
        (is_open (pos k)),
  )

  start-held : (n : ℕ) → running_count (is_open (pos k)) (start_workers n) ≡ 0
  start-held zero = refl
  start-held (suc n) = start-held n

  Runs-IsAccounted :
      (threads : ℕ) (start : W) (s : Program W)
      → Runs os server_socket threads start s
      → IsAccounted (opened start) s
  unfolding IsAccounted
  Runs-IsAccounted threads start _ begins = omega (arith, start-held threads)
  Runs-IsAccounted threads start _ (goes_on r m) =
      Move-IsAccounted (opened start) m (Runs-IsAccounted threads start _ r)

  -- However the threads interleave and whatever the operating system answers, in every state that the
  -- server's program reaches after its start each descriptor is open exactly as often as it was then and,
  -- beyond that, as often as main's thread has it from `accept` and has not yet queued or closed it, a
  -- client with it waits in the queue, or a worker serves one and has not yet closed it.
  pub Runs-open :
      (threads : ℕ) (start : W) (s : Program W)
      → Runs os server_socket threads start s
      → opened s.world
        ≡ opened start
          + (main_holds (pos k) s.main
              + (running_count (is_open (pos k)) s.pool.workers
                  + count (is_open (pos k)) s.pool.tasks))
  unfolding IsAccounted
  Runs-open threads start s r = Runs-IsAccounted threads start s r
