-- ===== src/EchoClient/Together.antt =====
-- Version_2/src/Client.cpp and processClient of Version_2/src/Server.cpp, each on a machine of its own.
use thread_pool.Base.{
  ℕ, zero, suc, ◌<◌, ◌≤◌, ◌^◌, ◌≡◌, ◌≢◌, sym, ap, ◌∙◌, List, [], ◌++◌, length, none, some, ℤ, pos,
  Bool, inl, inr, arith,
}
use thread_pool.Os.{Os, Sends, Receives}
use thread_pool.Transport.Reliable.{Reliable}
use thread_pool.ThreadPool.{ThreadPool}
use thread_pool.RequestServer.{process_client}
use thread_pool.RequestServer.Pieces.{replies}
use thread_pool.RequestServer.Session.{process_client-rounds}
use thread_pool.EchoClient.{message, prints, response_line, talk}
use thread_pool.EchoClient.Answered.{talk-prints}

replies-positive : (rounds counter : ℕ) → 0 < rounds → replies rounds counter ≢ []
replies-positive zero counter h same = absurd (omega (arith, h))
replies-positive (suc rounds) counter h same = absurd cc

module _ {S C : Type 0} (server_os : Os S) (client_os : Os C) (was_interrupted : C → Bool)
    (server_fd client_fd : ℤ) (served taken : S → List ℕ) (written incoming : C → List ℕ) where
  -- If no call fails on either side, the server's sends take every response whole, no other thread draws a
  -- request number meanwhile, the server reads what the client sends, and the client then reads what the
  -- server has sent: with 13 rounds of each loop both end, and the client prints a first piece, not
  -- empty, of the responses to the next request numbers, of which there are at least one and at most 12.
  pub talk-process_client :
      Sends server_os server_fd served
      → Receives server_os server_fd taken
      → ((s : S) → (server_os.recv server_fd 1023 s).0 ≢ none)
      → ((bytes : List ℕ) (s : S) → (server_os.send server_fd bytes s).0 ≡ pos (length bytes))
      → Sends client_os client_fd written
      → Receives client_os client_fd incoming
      → Reliable client_os client_fd
      → (others : S → ThreadPool ℤ → ThreadPool ℤ)
      → ((s : S) (pool : ThreadPool ℤ) → others s pool ≡ pool)
      → (pool : ThreadPool ℤ) (s : S) (w : C) → pool.request_counter < 2 ^ 32
      → served s ≡ []
      → taken s ≡ message
      → ((pool' : ThreadPool ℤ) (s' : S)
          → process_client server_os others 13 server_fd pool s ≡ some (pool', s')
          → incoming w ≡ served s')
      → (rounds : ℕ) × (bytes rest : List ℕ) × (w' : C) × (talk client_os was_interrupted 13
            client_fd w
          ≡ some (prints (response_line bytes), w'))
        × (bytes ++ rest ≡ replies rounds pool.request_counter)
        × (bytes ≢ [])
        × (1 ≤ rounds)
        × (rounds ≤ 12)
        × (written w' ≡ written w ++ message)
  talk-process_client s_sends s_receives s_gives s_takes c_sends c_receives c_laws others alone pool
        s w fits fresh there back =
      let size = ap (λ (t : List ℕ). length t) there in
      let (rounds, pool', s', ended, stream, most, least) =
        process_client-rounds server_os server_fd served taken s_sends s_receives s_gives s_takes
          others alone 13 pool s (omega (arith, size)) fits in
      let (bytes, rest, w', printed, split, end, sent) =
        talk-prints client_os was_interrupted client_fd written incoming c_sends c_receives c_laws
          13 w (omega arith) in
      let answer : incoming w ≡ replies rounds pool.request_counter =
        back pool' s' ended ∙ stream ∙ ap (λ x. x ++ replies rounds pool.request_counter) fresh in
      let some_rounds : 1 ≤ rounds = omega (arith, size, least) in
      (
        rounds,
        bytes,
        rest,
        w',
        printed,
        sym split ∙ answer,
        elim end [
          | inl some_bytes ↦ some_bytes
          | inr nothing ↦
              absurd
                (replies-positive rounds pool.request_counter some_rounds (sym answer ∙ nothing))
        ],
        some_rounds,
        omega (arith, size, most),
        sent,
      )
