-- ===== src/Tests/SessionTests.antt =====
-- Version_2/src/Server.cpp on the simulated system, and the configuration's integers.
use thread_pool.Base.{
  All, take, ℕ, ◌≡◌, ◌≤◌, ◌+◌, ◌%◌, ◌^◌, refl, ap, List, [], ◌∷◌, ◌++◌, ◌≢◌, Option, none, some, ℤ,
  false, pos, negsuc, length, arith,
}
use thread_pool.Decimal.{int_to_string}
use thread_pool.Config.{integer}
use thread_pool.Config.Loader.{parse_value, loads}
use thread_pool.Config.Decimals.{parse_value-int_to_string}
use thread_pool.Os.{Os, Sends, Receives}
use thread_pool.ThreadPool.{ThreadPool, new_pool}
use thread_pool.RequestServer.{process_client}
use thread_pool.RequestServer.Pieces.{replies, IsPiece, concat}
use thread_pool.RequestServer.Session.{process_client-returns, Log, process_client-replies}
use thread_pool.EchoClient.{message, prints, response_line, talk}
use thread_pool.EchoClient.Together.{talk-process_client}
use thread_pool.Tests.Sim.{
  with_piece, all_taken, Sim, sim, sim-Descriptors, sim-Sends, sim-Receives, sim-Reliable,
}

abbrev pool : ThreadPool ℤ
pool = new_pool 4

-- A client on descriptor 4 that sends seven bytes.
abbrev world : Sim
world = record {
  next = 5;
  descriptors = λ d. 1;
  inbox = 1 ∷ 2 ∷ 3 ∷ 4 ∷ 5 ∷ 6 ∷ 7 ∷ [];
  outbox = [];
  pieces = [];
  clients = [];
}

process_client-returns_example :
    (pool' : ThreadPool ℤ) × (w' : Sim) × (process_client sim (λ w p. p) 8 (pos 4) pool world
      ≡ some (pool', w'))
    × (w'.descriptors (pos 4) ≡ 0)
process_client-returns_example =
    process_client-returns sim (λ w p. p) (pos 4) (pos 4) (λ s. s.descriptors (pos 4))
      (sim-Descriptors (pos 4)) (λ s. s.inbox) (sim-Receives (pos 4)) 8 pool world (omega arith)

-- The simulated system, with a `send` that takes all bytes.
abbrev generous : Os Sim
generous = record sim {
  send = λ fd bytes s. (pos (length bytes), record s { outbox = s.outbox ++ bytes });
}

generous-Sends : Sends generous (pos 4) (λ s. s.outbox)
generous-Sends = record {
  takes = all_taken;
  fails = λ bytes w n e. cc;
  kept_by_recv = λ n w. refl;
  kept_by_shutdown_write = λ w. refl;
  kept_by_close = λ w. refl;
  kept_by_interrupted = λ w. refl;
  kept_by_wait_enter = λ w. refl;
}

generous-Receives : Receives generous (pos 4) (λ s. s.inbox)
generous-Receives =
    let laws = sim-Receives (pos 4) in
    record {
      gives = laws.gives;
      ends = laws.ends;
      fails = laws.fails;
      kept_by_send = λ bytes w. refl;
      kept_by_shutdown_write = λ w. refl;
    }

given_piece :
    (xs : List ℕ) (b : ℕ) (bs : List ℕ) (w : Sim)
    → some xs ≡ some (b ∷ bs)
    → with_piece xs w.pieces ≡ w.pieces ++ ((b ∷ bs) ∷ [])
given_piece xs b bs w e = let same : xs ≡ b ∷ bs = cc in ap (λ x. with_piece x w.pieces) same

nothing_given : (xs : List ℕ) (w : Sim) → some xs ≡ some [] → with_piece xs w.pieces ≡ w.pieces
nothing_given xs w e = let same : xs ≡ [] = cc in ap (λ x. with_piece x w.pieces) same

generous-Log : Log generous (pos 4) (λ s. s.pieces)
generous-Log = record {
  by_piece = λ b bs w e. given_piece (take 5 w.inbox) b bs w e;
  by_end = λ w e. nothing_given (take 5 w.inbox) w e;
  by_send = λ bytes w. refl;
  by_close = λ w. refl;
}

process_client-replies_example :
    (pieces : List (List ℕ)) × (pool' : ThreadPool ℤ) × (w' : Sim) × (process_client generous
        (λ w p. p)
        8
        (pos 4)
        pool
        world
      ≡ some (pool', w'))
    × (w'.pieces ≡ [] ++ pieces)
    × All IsPiece pieces
    × (world.inbox ≡ concat pieces)
    × (w'.outbox ≡ [] ++ replies (length pieces) 0)
    × (pool'.request_counter ≡ (0 + length pieces) % 2 ^ 32)
process_client-replies_example =
    process_client-replies generous (pos 4) (λ s. s.outbox) (λ s. s.inbox) generous-Sends
      generous-Receives (λ w e. cc) (λ bytes w. refl) (λ w p. p) (λ w p. refl) (λ s. s.pieces)
      generous-Log 8 pool world (omega arith) (omega arith)

parse_value-int_to_string_example :
    parse_value (int_to_string (negsuc 41)) ≡ loads (integer (negsuc 41))
parse_value-int_to_string_example = parse_value-int_to_string (negsuc 41) (omega arith)

-- What the server has sent when processClient returns.
sent_by : Option (ThreadPool ℤ × Sim) → List ℕ
sent_by none = []
sent_by (some (p, s)) = s.outbox

abbrev greeted : Sim
greeted = record world { inbox = message }

abbrev answered : Sim
answered = record world {
  inbox = sent_by (process_client generous (λ w p. p) 13 (pos 4) pool greeted);
}

answered_back :
    (p : ThreadPool ℤ) (s : Sim)
    → process_client generous (λ w p. p) 13 (pos 4) pool greeted ≡ some (p, s)
    → answered.inbox ≡ s.outbox
unfolding sent_by
answered_back p s e = ap sent_by e

talk-process_client_example :
    (rounds : ℕ) × (bytes rest : List ℕ) × (w' : Sim) × (talk sim (λ w. false) 13 (pos 4) answered
      ≡ some (prints (response_line bytes), w'))
    × (bytes ++ rest ≡ replies rounds 0)
    × (bytes ≢ [])
    × (1 ≤ rounds)
    × (rounds ≤ 12)
    × (w'.outbox ≡ [] ++ message)
talk-process_client_example =
    talk-process_client generous sim (λ w. false) (pos 4) (pos 4) (λ s. s.outbox) (λ s. s.inbox)
      (λ s. s.outbox) (λ s. s.inbox) generous-Sends generous-Receives (λ s e. cc) (λ bytes s. refl)
      (sim-Sends (pos 4)) (sim-Receives (pos 4)) (sim-Reliable (pos 4)) (λ s p. p) (λ s p. refl)
      pool greeted answered (omega arith) refl refl answered_back
