-- ===== src/RequestServer/Session.antt =====
-- Version_2/src/Server.cpp: how a session with one client ends, and what the client is sent.
use thread_pool.Base.{
  ℕ, zero, suc, ◌+◌, ◌-◌, ◌<◌, ◌≤◌, ◌^◌, ◌%◌, ◌≡◌, refl, sym, ap, ◌∙◌, List, [], ◌∷◌, ◌++◌, All,
  append-nil, append_assoc, length, ◌≢◌, ◌*◌, ◌⊎◌, true, false, is_negative, length-append, none,
  some, ℤ, pos, Option-cases, inl, inr, arith,
}
use thread_pool.Os.{Os, Descriptors, Receives, Sends, one_at}
use thread_pool.ThreadPool.{ThreadPool, get_request_number, enqueue}
use thread_pool.RequestServer.{process_client, response, busy, accept_client}
use thread_pool.RequestServer.Pieces.{
  replies, IsPiece, concat, length-concat, Notes, note_all, process_client-pieces,
}

module _ {W : Type 0} (os : Os W) (others : W → ThreadPool ℤ → ThreadPool ℤ) where
  -- Whatever the other threads do to the pool and whatever becomes of the responses, a session with a
  -- client that sends n bytes has ended after at most n + 1 rounds, and by then it has closed the
  -- client's descriptor once and no other.
  pub process_client-returns :
      (fd d : ℤ) (opened : W → ℕ)
      → Descriptors os d opened
      → (incoming : W → List ℕ) → Receives os fd incoming
      → (fuel : ℕ) (pool : ThreadPool ℤ) (w : W) → length (incoming w) < fuel
      → (pool' : ThreadPool ℤ) × (w' : W) × (process_client os others fuel fd pool w
          ≡ some (pool', w'))
        × (opened w' ≡ opened w - one_at fd d)
  unfolding process_client
  process_client-returns fd d opened laws incoming reads zero pool w h = absurd (omega arith)
  process_client-returns fd d opened laws incoming reads (suc fuel) pool w h =
      let w₁ = (os.recv fd 1023 w).1 in
      elim (Option-cases (os.recv fd 1023 w).0) [
        | inl e ↦
            rw (e, process_client)
              (_, _, refl, omega (arith, laws.by_close fd w₁, laws.by_recv fd 1023 w))
        | inr ([], e) ↦
            rw (e, process_client)
              (_, _, refl, omega (arith, laws.by_close fd w₁, laws.by_recv fd 1023 w))
        | inr (b ∷ bs, e) ↦
            let (request_id, pool₂) = get_request_number (others w₁ pool) in
            let w₂ = (os.send fd (response request_id) w₁).1 in
            let (piece, short) = reads.gives 1023 w (b ∷ bs) e in
            let shorter : length (incoming w₂) < fuel = omega (
              arith,
              ap (λ (t : List ℕ). length t) piece,
              length-append (b ∷ bs) (incoming w₁),
              ap (λ (t : List ℕ). length t) (reads.kept_by_send (response request_id) w₁),
            ) in
            let (pool', w', same, closed) =
              process_client-returns fd d opened laws incoming reads fuel pool₂ w₂ shorter in
            rw (e, process_client)
              (
                pool',
                w',
                same,
                omega (
                  arith,
                  closed,
                  laws.by_send fd (response request_id) w₁,
                  laws.by_recv fd 1023 w,
                ),
              )
      ]

-- What the calls of `recv` on a descriptor have given so far, piece by piece.
abbrev pub Log : {W : Type 0} → Os W → ℤ → (W → List (List ℕ)) → Type 0
Log os fd log = Notes os fd log (λ pieces piece. pieces ++ (piece ∷ []))

note_all-append :
    (before pieces : List (List ℕ))
    → note_all (λ l piece. l ++ (piece ∷ [])) before pieces ≡ before ++ pieces
note_all-append before [] = sym (append-nil before)
note_all-append before (piece ∷ pieces) =
    note_all-append (before ++ (piece ∷ [])) pieces ∙ append_assoc before (piece ∷ []) pieces

module _ {W : Type 0} (os : Os W) (fd : ℤ) (written incoming : W → List ℕ)
    (writes : Sends os fd written) (reads : Receives os fd incoming)
    (gives : (w : W) → (os.recv fd 1023 w).0 ≢ none)
    (takes_all : (bytes : List ℕ) (w : W) → (os.send fd bytes w).0 ≡ pos (length bytes))
    (others : W → ThreadPool ℤ → ThreadPool ℤ)
    (alone : (w : W) (pool : ThreadPool ℤ) → others w pool ≡ pool) where
  -- If no call fails, every response is taken whole and no other thread draws a number meanwhile, then a
  -- session ends after at most one round more than the client has bytes to send. The pieces that its calls
  -- of `recv` have given by then, each of 1 to 1023 bytes, make up these bytes in order, and what was
  -- written to the client is one response for each piece, in order and nothing else, to consecutive
  -- request numbers, which the counter has moved on by.
  pub process_client-replies :
      (log : W → List (List ℕ))
      → Log os fd log
      → (fuel : ℕ) (pool : ThreadPool ℤ) (w : W) → length (incoming w) < fuel
      → pool.request_counter < 2 ^ 32
      → (pieces : List (List ℕ)) × (pool' : ThreadPool ℤ) × (w' : W) × (process_client os others
            fuel fd pool w
          ≡ some (pool', w'))
        × (log w' ≡ log w ++ pieces)
        × All IsPiece pieces
        × (incoming w ≡ concat pieces)
        × (written w' ≡ written w ++ replies (length pieces) pool.request_counter)
        × (pool'.request_counter ≡ (pool.request_counter + length pieces) % 2 ^ 32)
  process_client-replies log logs fuel pool w enough fits =
      let (pieces, pool', w', same, noted, all, split, stream, counted) =
        process_client-pieces os fd written incoming writes reads gives takes_all others alone log
          (λ l piece. l ++ (piece ∷ [])) logs fuel pool w enough fits in
      (pieces, pool', w', same, noted ∙ note_all-append (log w) pieces, all, split, stream, counted)

  -- The number of rounds, where nothing is seen of the pieces.
  pub process_client-rounds :
      (fuel : ℕ) (pool : ThreadPool ℤ) (w : W)
      → length (incoming w) < fuel
      → pool.request_counter < 2 ^ 32
      → (rounds : ℕ) × (pool' : ThreadPool ℤ) × (w' : W) × (process_client os others fuel fd pool w
          ≡ some (pool', w'))
        × (written w' ≡ written w ++ replies rounds pool.request_counter)
        × (rounds ≤ length (incoming w))
        × (length (incoming w) ≤ 1023 * rounds)
  process_client-rounds fuel pool w enough fits =
      let blind : Notes {A = ℕ} os fd (λ (w : W). 0) (λ n piece. n) = record {
        by_piece = λ b bs w e. refl;
        by_end = λ w e. refl;
        by_send = λ bytes w. refl;
        by_close = λ w. refl;
      } in
      let (pieces, pool', w', same, _, all, split, stream, _) =
        process_client-pieces os fd written incoming writes reads gives takes_all others alone
          (λ (w : W). 0) (λ n piece. n) blind fuel pool w enough fits in
      let (most, least) = length-concat pieces all in
      let size = ap (λ (t : List ℕ). length t) split in
      (
        length pieces,
        pool',
        w',
        same,
        stream,
        omega (arith, most, size),
        omega (arith, least, size),
      )

-- A client that is accepted and put in the queue keeps its descriptor open; one that is refused is told
-- that the server is busy, and its descriptor is closed again.
pub accept_client-opened :
    {W : Type 0} (os : Os W) (d : ℤ) (opened : W → ℕ) (laws : Descriptors os d opened) {T : Type 0}
    (task : ℤ → T) (server_socket : ℤ) (pool : ThreadPool T) (w : W)
    → is_negative (os.accept server_socket w).0 ≡ false
    → let (accepted, pool', w') = accept_client os task server_socket pool w in
      ((accepted ≡ true)
        × (opened w' ≡ opened w + one_at (os.accept server_socket w).0 d)
        × (pool'.tasks ≡ pool.tasks ++ (task (os.accept server_socket w).0 ∷ [])))
      ⊎ ((accepted ≡ false) × (opened w' ≡ opened w) × (pool' ≡ pool) × (1000 ≤ length pool.tasks))
unfolding accept_client enqueue
accept_client-opened os d opened laws task server_socket pool w good =
    let fd = (os.accept server_socket w).0 in
    let w₁ = (os.accept server_socket w).1 in
    ground (
      arith,
      good,
      laws.by_accept server_socket w,
      laws.by_send fd busy w₁,
      laws.by_close fd (os.send fd busy w₁).1,
    )
