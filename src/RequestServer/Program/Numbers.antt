-- ===== src/RequestServer/Program/Numbers.antt =====
-- Version_2/src/Server.cpp: the numbers that the sessions draw from the atomic counter.
use thread_pool.Base.{
  List, ℕ, zero, suc, ◌+◌, ◌<◌, ◌≤◌, ◌%◌, ◌^◌, ◌≡◌, refl, ap, [], ◌∷◌, Bool, false, ◌&&◌, ◌==◌, leb,
  if◌then◌else◌, ℤ, inl, inr, Option-cases, arith,
}
use thread_pool.Os.{Os}
use thread_pool.ThreadPool.{ThreadPool, awake, running, enqueue, get_request_number, start_workers}
use thread_pool.ThreadPool.Crew.{count, running_count, count-append, running_change}
use thread_pool.ThreadPool.Balance.{held, Step-balance}
use thread_pool.RequestServer.Program.{
  Phase, reading, numbering, closing, closed, answering, Session, session, new_session, Main,
  accepting, enqueuing, refusing, dropping, Program, session_turn, main_turn, Move, main_moves,
  schedules, session_moves, completes, Runs, begins, goes_on, note_request, note_refusal,
  note_response, Outgoing, responded, refused,
}

-- Whether a session is about to send the response with the number `n`.
abbrev pub is_answering : ℕ → Session → Bool
is_answering n s = elim s.phase [ answering m ↦ m == n | _ ↦ false ]

-- Whether a response with the number `n` has been handed to `send`.
abbrev pub is_response : ℕ → Outgoing → Bool
is_response n (responded fd m) = m == n
is_response n (refused fd) = false

-- 1 if `n` is one of the first so many numbers.
abbrev pub drawn : ℕ → ℕ → ℕ
drawn requests n = if leb 1 n && leb n requests then 1 else 0

module _ {W : Type 0} (os : Os W) (server_socket : ℤ) (n : ℕ) where
  -- As long as the counter has not gone round, a number that has been drawn is in the hands of one session
  -- or in one response at most, and any other in none.
  pub record IsNumbered (s : Program W) : Type 0 where
    pub counter : s.pool.request_counter ≡ s.requests % 2 ^ 32
    pub once :
        s.requests < 2 ^ 32
        → count (is_response n) s.outgoing + held (is_answering n) s.pool ≤ drawn s.requests n

  main_turn-numbers :
      (m : Main) (p : ThreadPool Session) (w : W)
      → let p' = (main_turn os server_socket m p w).1 in
        (p'.request_counter ≡ p.request_counter)
        × (held (is_answering n) p' ≡ held (is_answering n) p)
  unfolding main_turn enqueue
  main_turn-numbers accepting p w = (refl, refl)
  main_turn-numbers (enqueuing fd) p w =
      ground (arith, count-append (is_answering n) p.tasks (new_session fd ∷ []))
  main_turn-numbers (refusing fd) p w = (refl, refl)
  main_turn-numbers (dropping fd) p w = (refl, refl)

  note_refusal-count :
      (m : Main) (o : List Outgoing)
      → count (is_response n) (note_refusal m o) ≡ count (is_response n) o
  note_refusal-count accepting o = refl
  note_refusal-count (enqueuing fd) o = refl
  note_refusal-count (refusing fd) o =
      omega (arith, count-append (is_response n) o (refused fd ∷ []))
  note_refusal-count (dropping fd) o = refl

  -- What a session's action at this phase adds to the responses with the number.
  abbrev given : Phase → ℕ
  given (answering m) = if m == n then 1 else 0
  given reading = 0
  given numbering = 0
  given closing = 0
  given closed = 0

  note_response-count :
      (fd : ℤ) (phase : Phase) (o : List Outgoing)
      → count (is_response n) (note_response fd phase o) ≡ count (is_response n) o + given phase
  note_response-count fd reading o = omega arith
  note_response-count fd numbering o = omega arith
  note_response-count fd (answering m) o =
      omega (arith, count-append (is_response n) o (responded fd m ∷ []))
  note_response-count fd closing o = omega arith
  note_response-count fd closed o = omega arith

  abbrev hands : ℤ → Phase → ℕ
  hands fd phase = if is_answering n (session fd phase) then 1 else 0

  session_turn-numbers :
      (fd : ℤ) (phase : Phase) (p : ThreadPool Session) (w : W) (requests : ℕ)
      → p.request_counter ≡ requests % 2 ^ 32
      → note_request phase requests < 2 ^ 32
      → let (phase', p', w') = session_turn os fd phase p w in
        let requests' = note_request phase requests in
        (requests ≤ requests')
        × (given phase + hands fd phase' + drawn requests n ≤ hands fd phase + drawn requests' n)
  unfolding session_turn get_request_number
  session_turn-numbers fd reading p w requests c fits = elim (Option-cases (os.recv fd 1023 w).0) [
    | inl e ↦ rw (e, session_turn) (omega arith, omega arith)
    | inr ([], e) ↦ rw (e, session_turn) (omega arith, omega arith)
    | inr (b ∷ bs, e) ↦ rw (e, session_turn) (omega arith, omega arith)
  ]
  session_turn-numbers fd numbering p w requests c fits =
      let next : (p.request_counter + 1) % 2 ^ 32 ≡ requests + 1 = omega (arith, c, fits) in
      rw next (ground arith)
  session_turn-numbers fd (answering m) p w requests c fits = (omega arith, omega arith)
  session_turn-numbers fd closing p w requests c fits = (omega arith, omega arith)
  session_turn-numbers fd closed p w requests c fits = (omega arith, omega arith)

  session_turn-pool :
      (fd : ℤ) (phase : Phase) (p : ThreadPool Session) (w : W) (requests : ℕ)
      → p.request_counter ≡ requests % 2 ^ 32
      → let p' = (session_turn os fd phase p w).1 in
        (p'.request_counter ≡ note_request phase requests % 2 ^ 32)
        × (p'.workers ≡ p.workers)
        × (p'.tasks ≡ p.tasks)
        × (requests ≤ note_request phase requests)
  unfolding session_turn get_request_number
  session_turn-pool fd reading p w requests c = elim (Option-cases (os.recv fd 1023 w).0) [
    | inl e ↦ rw (e, session_turn) (c, refl, refl, omega arith)
    | inr ([], e) ↦ rw (e, session_turn) (c, refl, refl, omega arith)
    | inr (b ∷ bs, e) ↦ rw (e, session_turn) (c, refl, refl, omega arith)
  ]
  session_turn-pool fd numbering p w requests c = (omega (arith, c), refl, refl, omega arith)
  session_turn-pool fd (answering m) p w requests c = (c, refl, refl, omega arith)
  session_turn-pool fd closing p w requests c = (c, refl, refl, omega arith)
  session_turn-pool fd closed p w requests c = (c, refl, refl, omega arith)

  Move-IsNumbered : {s s' : Program W} → Move os server_socket s s' → IsNumbered s → IsNumbered s'
  Move-IsNumbered (main_moves s) v =
      let (counter, same) = main_turn-numbers s.main s.pool s.world in
      record {
        counter = rw counter v.counter;
        once = λ fits. rw (same, note_refusal-count s.main s.outgoing) (v.once fits);
      }
  Move-IsNumbered (schedules h' p' s (step, accepted, completed, counter, stop)) v = record {
    counter = rw counter v.counter;
    once = λ fits. omega (
      arith,
      v.once fits,
      Step-balance (is_answering n) step,
      ap (count (is_answering n)) accepted,
      ap (count (is_answering n)) completed,
    );
  }
  Move-IsNumbered (session_moves front back fd phase s place) v =
      let (counter, workers, tasks, more) =
        session_turn-pool fd phase s.pool s.world s.requests v.counter in
      let phase' = (session_turn os fd phase s.pool s.world).0 in
      let change =
        running_change front back (running (session fd phase)) (running (session fd phase'))
          s.pool.workers place (is_answering n) in
      record {
        counter = counter;
        once = λ fits. omega (
          arith,
          change,
          note_response-count fd phase s.outgoing,
          ap (count (is_answering n)) tasks,
          v.once (omega (arith, fits, more)),
          session_turn-numbers fd phase s.pool s.world s.requests v.counter fits,
        );
      }
  Move-IsNumbered (completes front back fd s place) v = record {
    counter = v.counter;
    once = λ fits. omega (
      arith,
      v.once fits,
      running_change front back (running (session fd closed)) awake s.pool.workers place
          (is_answering n),
    );
  }

  start-held : (threads : ℕ) → running_count (is_answering n) (start_workers threads) ≡ 0
  start-held zero = refl
  start-held (suc threads) = start-held threads

  Runs-IsNumbered :
      (threads : ℕ) (start : W) (s : Program W)
      → Runs os server_socket threads start s
      → IsNumbered s
  Runs-IsNumbered threads start _ begins = record {
    counter = refl;
    once = λ fits. omega (arith, start-held threads);
  }
  Runs-IsNumbered threads start _ (goes_on r m) =
      Move-IsNumbered m (Runs-IsNumbered threads start _ r)

  -- As long as fewer than 2 ^ 32 requests have been numbered, every number is in one response at most that a
  -- worker has sent or is about to send, and in none that has not been drawn: from 1 to their number.
  pub Runs-distinct :
      (threads : ℕ) (start : W) (s : Program W)
      → Runs os server_socket threads start s
      → s.requests < 2 ^ 32
      → count (is_response n) s.outgoing + running_count (is_answering n) s.pool.workers
        ≤ drawn s.requests n
  Runs-distinct threads start s r fits =
      omega (arith, (Runs-IsNumbered threads start s r).once fits)
