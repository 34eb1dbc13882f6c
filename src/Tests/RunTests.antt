-- ===== src/Tests/RunTests.antt =====
-- Version_2/src/Server.cpp: a run of the whole program on the simulated system.
use thread_pool.Base.{List, ℤ, ◌++◌, ◌≡◌, ◌≤◌, ◌+◌, refl, [], ◌∷◌, some, pos, arith}
use thread_pool.RequestServer.Program.Responses.{bytes_to, Runs-written}
use thread_pool.ThreadPool.{ThreadPool, new_pool, running, enqueue, worker_turn, get_request_number}
use thread_pool.ThreadPool.Steps.{History, no_history, takes_turn}
use thread_pool.ThreadPool.Crew.{count, running_count}
use thread_pool.RequestServer.{process_client, response}
use thread_pool.RequestServer.Program.{
  Session, session, new_session, reading, numbering, answering, accepting, enqueuing, Program,
  session_turn, main_turn, starts, main_moves, schedules, session_moves, Runs, begins, goes_on,
  responded,
}
use thread_pool.RequestServer.Program.Open.{Runs-open, is_open, main_holds}
use thread_pool.RequestServer.Program.Numbers.{Runs-distinct, is_answering, is_response, drawn}
use thread_pool.RequestServer.Program.Order.{Accepts, Interleaves, Runs-Interleaves}
use thread_pool.RequestServer.Program.Rounds.{process_client-Runs, IsOver}
use thread_pool.Tests.Sim.{Sim}
use thread_pool.Tests.Whole.{whole, whole-Descriptors, whole-Sends, whole-Apart}

-- A world in which the next client has descriptor 5 and sends seven bytes.
abbrev world : Sim
world = record {
  next = 5;
  descriptors = λ d. 1;
  inbox = 1 ∷ 2 ∷ 3 ∷ 4 ∷ 5 ∷ 6 ∷ 7 ∷ [];
  outbox = [];
  pieces = [];
  clients = [];
}

-- A client is accepted on descriptor 5 and queued, a worker takes it, receives its first request and
-- numbers it, while main's thread waits for the next client.
abbrev start : Program Sim
start = starts 1 world

abbrev accepted : Program Sim
accepted = record start { main = enqueuing (pos 5); world = (whole.accept (pos 3) world).1 }

abbrev one_accepted : History Session
one_accepted = record no_history { accepted = new_session (pos 5) ∷ [] }

abbrev one_started : History Session
one_started = record one_accepted { started = new_session (pos 5) ∷ [] }

abbrev queued : Program Sim
queued = record accepted {
  main = accepting;
  pool = record (new_pool 1) { tasks = new_session (pos 5) ∷ []; notifying = 1 };
  history = one_accepted;
}

abbrev served : Program Sim
served = record queued {
  pool = record queued.pool { tasks = []; workers = running (new_session (pos 5)) ∷ [] };
  history = one_started;
}

abbrev received : Program Sim
received = record served {
  pool = record served.pool { workers = running (session (pos 5) numbering) ∷ [] };
  world = (whole.recv (pos 5) 1023 served.world).1;
}

abbrev numbered : Program Sim
numbered = record received {
  pool = record received.pool {
    workers = running (session (pos 5) (answering 1)) ∷ [];
    request_counter = 1;
  };
  requests = 1;
}

accepted_run : Runs whole (pos 3) 1 world accepted
unfolding main_turn
accepted_run = goes_on begins (main_moves start)

queued_run : Runs whole (pos 3) 1 world queued
unfolding main_turn enqueue
queued_run = goes_on accepted_run (main_moves accepted)

served_run : Runs whole (pos 3) 1 world served
unfolding worker_turn
served_run = goes_on queued_run (
    schedules one_started served.pool queued
      (takes_turn [] [] one_accepted queued.pool refl, refl, refl, refl, refl))

received_run : Runs whole (pos 3) 1 world received
unfolding session_turn
received_run = goes_on served_run (session_moves [] [] (pos 5) reading served refl)

numbered_run : Runs whole (pos 3) 1 world numbered
unfolding session_turn get_request_number
numbered_run = goes_on received_run (session_moves [] [] (pos 5) numbering received refl)

abbrev answered : Program Sim
answered = record numbered {
  pool = record numbered.pool { workers = running (session (pos 5) reading) ∷ [] };
  world = (whole.send (pos 5) (response 1) numbered.world).1;
  outgoing = responded (pos 5) 1 ∷ [];
}

answered_run : Runs whole (pos 3) 1 world answered
unfolding session_turn
answered_run = goes_on numbered_run (session_moves [] [] (pos 5) (answering 1) numbered refl)

Runs-open_example :
    numbered.world.descriptors (pos 5)
    ≡ world.descriptors (pos 5)
      + (main_holds (pos 5) accepting
          + (running_count (is_open (pos 5)) numbered.pool.workers + count (is_open (pos 5)) []))
Runs-open_example =
    Runs-open whole (pos 3) 5 (λ s. s.descriptors (pos 5)) whole-Descriptors 1 world numbered
      numbered_run

Runs-distinct_example :
    count (is_response 1) answered.outgoing + running_count (is_answering 1) answered.pool.workers
    ≤ drawn 1 1
Runs-distinct_example = Runs-distinct whole (pos 3) 1 1 world answered answered_run (omega arith)

Runs-written_example : answered.world.outbox ≡ [] ++ bytes_to (pos 5) (responded (pos 5) 1 ∷ [])
Runs-written_example =
    Runs-written whole (pos 3) (pos 5) (λ s. s.outbox) whole-Sends whole-Apart (λ bytes w. refl) 1
      world answered answered_run

whole-Accepts : Accepts whole (pos 3) (λ s. s.clients)
whole-Accepts = record {
  by_accept = λ w. refl;
  by_recv = λ fd n w. refl;
  by_send = λ fd bytes w. refl;
  by_close = λ fd w. refl;
}

Runs-Interleaves_example :
    (earlier : List ℤ) × (answered.world.clients ≡ [] ++ (earlier ++ []))
    × Interleaves ((pos 5 ∷ []) ++ []) [] earlier
Runs-Interleaves_example =
    Runs-Interleaves whole (pos 3) (λ s. s.clients) whole-Accepts 1 world answered answered_run

abbrev world_received : Sim
world_received = (whole.recv (pos 5) 1023 served.world).1

abbrev world_answered : Sim
world_answered = (whole.send (pos 5) (response 1) world_received).1

abbrev world_answered_twice : Sim
world_answered_twice =
    (whole.send (pos 5) (response 2) (whole.recv (pos 5) 1023 world_answered).1).1

abbrev world_hung_up : Sim
world_hung_up = whole.close (pos 5) (whole.recv (pos 5) 1023 world_answered_twice).1

abbrev pool_over : ThreadPool Session
pool_over = record served.pool { request_counter = 2 }

two_answers :
    process_client whole (λ w p. p) 8 (pos 5) served.pool served.world
    ≡ some (pool_over, world_hung_up)
unfolding process_client get_request_number
two_answers = refl

process_client-Runs_example :
    (s' : Program Sim) × Runs whole (pos 3) 1 world s'
    × IsOver [] [] (pos 5) served pool_over world_hung_up s'
process_client-Runs_example =
    process_client-Runs whole (pos 3) 1 world [] [] (pos 5) 8 served pool_over world_hung_up
      served_run refl two_answers
