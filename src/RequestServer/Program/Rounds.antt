-- ===== src/RequestServer/Program/Rounds.antt =====
-- Version_2/src/Server.cpp: processClient and a round of main's loop, which the program's steps make up.
use thread_pool.Base.{
  ℕ, zero, suc, ◌+◌, ◌≡◌, ◌⊎◌, ◌∙◌, refl, subst, sym, ap, List, [], ◌∷◌, ◌++◌, true, false,
  Bool-cases, none, some, ℤ, inl, inr, Option-cases,
}
use thread_pool.Os.{Os}
use thread_pool.ThreadPool.{ThreadPool, Worker, awake, running, enqueue, get_request_number}
use thread_pool.RequestServer.{response, process_client, accept_client}
use thread_pool.RequestServer.Program.{
  Phase, reading, numbering, closing, closed, answering, Session, session, new_session, accepting,
  Program, session_turn, main_turn, note_request, note_response, Outgoing, responded, session_moves,
  completes, Runs, goes_on,
}

-- What the program has become when the session of the worker between these is over.
abbrev pub IsOver :
    {W : Type 0}
    → List (Worker Session)
    → List (Worker Session)
    → ℤ
    → Program W
    → ThreadPool Session
    → W
    → Program W
    → Type 0
IsOver front back fd s p' w' s' =
    (s'.main ≡ s.main)
    × (s'.pool ≡ record p' { workers = front ++ (awake ∷ back) })
    × (s'.world ≡ w')
    × (s'.history.completed ≡ s.history.completed ++ (session fd closed ∷ []))

module _ {W : Type 0} (os : Os W) (server_socket : ℤ) where
  -- With no other thread in between, a round of main's loop as `accept_client` has it is two of main's
  -- actions where the client is taken in, and four where it is refused.
  pub accept_client-main_turn :
      (p : ThreadPool Session) (w : W)
      → let (m₁, p₁, w₁) = main_turn os server_socket accepting p w in
        let (m₂, p₂, w₂) = main_turn os server_socket m₁ p₁ w₁ in
        let (m₃, p₃, w₃) = main_turn os server_socket m₂ p₂ w₂ in
        let (accepted, p', w') = accept_client os new_session server_socket p w in
        ((accepted ≡ true) × (m₂ ≡ accepting) × (p₂ ≡ p') × (w₂ ≡ w'))
        ⊎ ((accepted ≡ false) × (main_turn os server_socket m₃ p₃ w₃ ≡ (accepting, p', w')))
  unfolding main_turn accept_client
  accept_client-main_turn p w =
      let fd = (os.accept server_socket w).0 in
      elim (Bool-cases (enqueue (new_session fd) p).0) [
        | inl yes_taken ↦ inl (rw yes_taken (refl, refl, refl, refl))
        | inr refused ↦ inr (rw refused (refl, refl))
      ]

  module _ (threads : ℕ) (start : W) (front back : List (Worker Session)) (fd : ℤ) where
    -- The worker's session is at `phase`; pool, world, number of requests and what was sent are these.
    abbrev at : Phase → ThreadPool Session → W → ℕ → List Outgoing → Program W → Program W
    at phase p w n o s = record s {
      pool = record p { workers = front ++ (running (session fd phase) ∷ back) };
      world = w;
      requests = n;
      outgoing = o;
    }

    session_moves-at :
        (phase phase' : Phase) (p' : ThreadPool Session) (w' : W) (s : Program W)
        → Runs os server_socket threads start s
        → s.pool.workers ≡ front ++ (running (session fd phase) ∷ back)
        → session_turn os fd phase s.pool s.world ≡ (phase', p', w')
        → Runs os server_socket threads start
            (at phase' p' w' (note_request phase s.requests) (note_response fd phase s.outgoing) s)
    session_moves-at phase phase' p' w' s r place e =
        subst
          (λ t.
            Runs os server_socket threads start (
              at t.0 t.1 t.2 (note_request phase s.requests) (note_response fd phase s.outgoing) s))
          e (goes_on r (session_moves front back fd phase s place))

    session_ends :
        (fuel : ℕ) (p : ThreadPool Session) (w : W)
        → ((os.recv fd 1023 w).0 ≡ none) ⊎ ((os.recv fd 1023 w).0 ≡ some [])
        → process_client os (λ w p. p) (suc fuel) fd p w
          ≡ some (p, os.close fd (os.recv fd 1023 w).1)
    unfolding process_client
    session_ends fuel p w (inl given) = rw (given, process_client) refl
    session_ends fuel p w (inr given) = rw (given, process_client) refl

    session_goes_on :
        (fuel : ℕ) (p : ThreadPool Session) (w : W) (b : ℕ) (bs : List ℕ)
        → (os.recv fd 1023 w).0 ≡ some (b ∷ bs)
        → process_client os (λ w p. p) (suc fuel) fd p w
          ≡ process_client os
              (λ w p. p)
              fuel
              fd
              (get_request_number p).1
              (os.send fd (response (get_request_number p).0) (os.recv fd 1023 w).1).1
    unfolding process_client
    session_goes_on fuel p w b bs given = rw (given, process_client) refl

    reading-closing :
        (p : ThreadPool Session) (w : W)
        → ((os.recv fd 1023 w).0 ≡ none) ⊎ ((os.recv fd 1023 w).0 ≡ some [])
        → session_turn os fd reading p w ≡ (closing, p, (os.recv fd 1023 w).1)
    unfolding session_turn
    reading-closing p w (inl given) = rw (given, session_turn) refl
    reading-closing p w (inr given) = rw (given, session_turn) refl

    reading-numbering :
        (p : ThreadPool Session) (w : W) (b : ℕ) (bs : List ℕ)
        → (os.recv fd 1023 w).0 ≡ some (b ∷ bs)
        → session_turn os fd reading p w ≡ (numbering, p, (os.recv fd 1023 w).1)
    unfolding session_turn
    reading-numbering p w b bs given = rw (given, session_turn) refl

    -- What one answered request makes of the program.
    answered : Program W → Program W
    unfolding get_request_number
    answered s =
        let (n, p) = get_request_number s.pool in
        at reading p (os.send fd (response n) (os.recv fd 1023 s.world).1).1 (s.requests + 1)
          (s.outgoing ++ (responded fd n ∷ [])) s

    answered-Runs :
        (s : Program W) (b : ℕ) (bs : List ℕ)
        → Runs os server_socket threads start s
        → s.pool.workers ≡ front ++ (running (session fd reading) ∷ back)
        → (os.recv fd 1023 s.world).0 ≡ some (b ∷ bs)
        → Runs os server_socket threads start (answered s)
    unfolding answered session_turn get_request_number
    answered-Runs s b bs r place given =
        let w = (os.recv fd 1023 s.world).1 in
        let n = (get_request_number s.pool).0 in
        let s₁ = at numbering s.pool w s.requests s.outgoing s in
        let r₁ =
          session_moves-at reading numbering s.pool w s r place
            (reading-numbering s.pool s.world b bs given) in
        let r₂ = goes_on r₁ (session_moves front back fd numbering s₁ refl) in
        goes_on r₂ (session_moves front back fd (answering n) _ refl)

    hung_up : Program W → Program W
    hung_up s = record s {
      pool = record s.pool { workers = front ++ (awake ∷ back) };
      world = os.close fd (os.recv fd 1023 s.world).1;
      history = record s.history { completed = s.history.completed ++ (session fd closed ∷ []) };
    }

    hung_up-Runs :
        (s : Program W)
        → Runs os server_socket threads start s
        → s.pool.workers ≡ front ++ (running (session fd reading) ∷ back)
        → ((os.recv fd 1023 s.world).0 ≡ none) ⊎ ((os.recv fd 1023 s.world).0 ≡ some [])
        → Runs os server_socket threads start (hung_up s)
    unfolding hung_up session_turn
    hung_up-Runs s r place given =
        let w = (os.recv fd 1023 s.world).1 in
        let r₁ =
          session_moves-at reading closing s.pool w s r place
            (reading-closing s.pool s.world given) in
        let r₂ = goes_on r₁ (session_moves front back fd closing _ refl) in
        goes_on r₂ (completes front back fd _ refl)

    hung_up-IsOver :
        (fuel : ℕ) (s : Program W) (p' : ThreadPool Session) (w' : W)
        → ((os.recv fd 1023 s.world).0 ≡ none) ⊎ ((os.recv fd 1023 s.world).0 ≡ some [])
        → process_client os (λ w p. p) (suc fuel) fd s.pool s.world ≡ some (p', w')
        → IsOver front back fd s p' w' (hung_up s)
    unfolding hung_up
    hung_up-IsOver fuel s p' w' given e =
        let ended = session_ends fuel s.pool s.world given in
        let reached : ThreadPool Session × W = (s.pool, os.close fd (os.recv fd 1023 s.world).1) in
        let same : reached ≡ (p', w') = cc in
        (
          refl,
          ap (λ (t : ThreadPool Session × W). record t.0 { workers = front ++ (awake ∷ back) })
              same,
          ap (λ (t : ThreadPool Session × W). t.1) same,
          refl,
        )

    answered-goes_on :
        (fuel : ℕ) (s : Program W) (b : ℕ) (bs : List ℕ)
        → s.pool.workers ≡ front ++ (running (session fd reading) ∷ back)
        → (os.recv fd 1023 s.world).0 ≡ some (b ∷ bs)
        → process_client os (λ w p. p) (suc fuel) fd s.pool s.world
          ≡ process_client os (λ w p. p) fuel fd (answered s).pool (answered s).world
    unfolding answered get_request_number
    answered-goes_on fuel s b bs place given =
        let (n, p) = get_request_number s.pool in
        let w = (os.send fd (response n) (os.recv fd 1023 s.world).1).1 in
        session_goes_on fuel s.pool s.world b bs given
        ∙ ap (λ ws. process_client os (λ w p. p) fuel fd (record p { workers = ws }) w) place

    -- Where a worker begins to serve a client and no other thread acts meanwhile, the program reaches the
    -- state that processClient ends in, with the worker back at its loop and the task completed.
    pub process_client-Runs :
        (fuel : ℕ) (s : Program W) (p' : ThreadPool Session) (w' : W)
        → Runs os server_socket threads start s
        → s.pool.workers ≡ front ++ (running (session fd reading) ∷ back)
        → process_client os (λ w p. p) fuel fd s.pool s.world ≡ some (p', w')
        → (s' : Program W) × Runs os server_socket threads start s'
          × IsOver front back fd s p' w' s'
    unfolding process_client answered
    process_client-Runs zero s p' w' r place e = absurd cc
    process_client-Runs (suc fuel) s p' w' r place e =
        elim (Option-cases (os.recv fd 1023 s.world).0) [
          | inl given ↦ (
            hung_up s,
            hung_up-Runs s r place (inl given),
            hung_up-IsOver fuel s p' w' (inl given) e,
          )
          | inr ([], given) ↦ (
            hung_up s,
            hung_up-Runs s r place (inr given),
            hung_up-IsOver fuel s p' w' (inr given) e,
          )
          | inr (b ∷ bs, given) ↦
              process_client-Runs fuel (answered s) p' w' (answered-Runs s b bs r place given) refl
                (sym (answered-goes_on fuel s b bs place given) ∙ e)
        ]
