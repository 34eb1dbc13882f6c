-- ===== src/RequestServer/Program.antt =====
-- Version_2/src/Server.cpp: the whole program under every interleaving: the pool, main's thread and the
-- sessions that the workers run, where each system call and each locked block is a step of its own.

pub mod Rounds
pub mod Open
pub mod Numbers
pub mod Responses
pub mod Pool
pub mod Order
use thread_pool.Base.{
  ℕ, ◌+◌, ◌≡◌, List, [], ◌∷◌, ◌++◌, Bool, true, false, if◌then◌else◌, Option, none, some, ℤ,
}
use thread_pool.Os.{Os}
use thread_pool.ThreadPool.{
  ThreadPool, Worker, awake, running, new_pool, enqueue, get_request_number,
}
use thread_pool.ThreadPool.Steps.{History, Step, no_history, note_enqueue}
use thread_pool.RequestServer.{response, busy}

-- Where a session stands in processClient: at `recv`, at `getRequestNumber`, at `send`, at `close`, or past
-- it.
pub data Phase : Type 0 where
  reading numbering closing closed : Phase
  answering : ℕ → Phase

-- A task: the call of processClient on a descriptor, and how far it has come.
pub record Session : Type 0 where
  pub descriptor : ℤ
  pub phase : Phase

abbrev pub session : ℤ → Phase → Session
session fd phase = record { descriptor = fd; phase = phase }

abbrev pub new_session : ℤ → Session
new_session fd = session fd reading

-- Where main's thread stands in its loop: at `accept`, at `enqueue`, at the refusal's `send`, at its
-- `close`.
pub data Main : Type 0 where
  accepting : Main
  enqueuing refusing dropping : ℤ → Main

-- What has been handed to `send`: a response with its number, or a refusal.
pub data Outgoing : Type 0 where
  responded : ℤ → ℕ → Outgoing
  refused : ℤ → Outgoing

-- The threads, the pool and the world. The rest is in no variable of the program: `history`, `requests`,
-- the number of the calls of `getRequestNumber`, and `outgoing`, what has been sent, oldest first.
pub record Program (W : Type 0) : Type 0 where
  pub main : Main
  pub pool : ThreadPool Session
  pub world : W
  pub history : History Session
  pub requests : ℕ
  pub outgoing : List Outgoing

module _ {W : Type 0} (os : Os W) where
  -- The next action of a session.
  unfoldable pub session_turn : ℤ → Phase → ThreadPool Session → W → Phase × ThreadPool Session × W
  session_turn fd reading p w = elim (os.recv fd 1023 w).0 [
    | none ↦ (closing, p, (os.recv fd 1023 w).1)
    | some [] ↦ (closing, p, (os.recv fd 1023 w).1)
    | some (b ∷ bs) ↦ (numbering, p, (os.recv fd 1023 w).1)
  ]
  session_turn fd numbering p w = let (n, p') = get_request_number p in (answering n, p', w)
  session_turn fd (answering n) p w = (reading, p, (os.send fd (response n) w).1)
  session_turn fd closing p w = (closed, p, os.close fd w)
  session_turn fd closed p w = (closed, p, w)

  -- The next action of main's loop.
  unfoldable pub main_turn : ℤ → Main → ThreadPool Session → W → Main × ThreadPool Session × W
  main_turn server_socket accepting p w =
      let (fd, w') = os.accept server_socket w in (enqueuing fd, p, w')
  main_turn server_socket (enqueuing fd) p w =
      let (accepted, p') = enqueue (new_session fd) p in
      (if accepted then accepting else refusing fd, p', w)
  main_turn server_socket (refusing fd) p w = (dropping fd, p, (os.send fd busy w).1)
  main_turn server_socket (dropping fd) p w = (accepting, p, os.close fd w)

abbrev pub note_main : Main → ThreadPool Session → History Session → History Session
note_main accepting p h = h
note_main (enqueuing fd) p h = note_enqueue (new_session fd) (enqueue (new_session fd) p).0 h
note_main (refusing fd) p h = h
note_main (dropping fd) p h = h

abbrev pub note_request : Phase → ℕ → ℕ
note_request numbering n = n + 1
note_request reading n = n
note_request (answering _) n = n
note_request closing n = n
note_request closed n = n

abbrev pub note_refusal : Main → List Outgoing → List Outgoing
note_refusal (refusing fd) o = o ++ (refused fd ∷ [])
note_refusal accepting o = o
note_refusal (enqueuing fd) o = o
note_refusal (dropping fd) o = o

abbrev pub note_response : ℤ → Phase → List Outgoing → List Outgoing
note_response fd (answering n) o = o ++ (responded fd n ∷ [])
note_response fd reading o = o
note_response fd numbering o = o
note_response fd closing o = o
note_response fd closed o = o

-- A step inside the pool: any of ThreadPool/Steps that takes no task in, completes none, draws no number
-- and does not stop the pool, which no thread of the program does.
abbrev pub Scheduling :
    History Session → ThreadPool Session → History Session → ThreadPool Session → Type 0
Scheduling h p h' p' =
    Step h p h' p'
    × (h'.accepted ≡ h.accepted)
    × (h'.completed ≡ h.completed)
    × (p'.request_counter ≡ p.request_counter)
    × (p'.stop ≡ p.stop)

abbrev pub starts : {W : Type 0} → ℕ → W → Program W
starts threads w = record {
  main = accepting;
  pool = new_pool threads;
  world = w;
  history = no_history;
  requests = 0;
  outgoing = [];
}

module _ {W : Type 0} (os : Os W) (server_socket : ℤ) where
  pub data Move : Program W → Program W → Type 0 where
    main_moves :
        (s : Program W)
        → Move s (record s {
          main = (main_turn os server_socket s.main s.pool s.world).0;
          pool = (main_turn os server_socket s.main s.pool s.world).1;
          world = (main_turn os server_socket s.main s.pool s.world).2;
          history = note_main s.main s.pool s.history;
          outgoing = note_refusal s.main s.outgoing;
        })
    schedules :
        (h' : History Session) (p' : ThreadPool Session) (s : Program W)
        → Scheduling s.history s.pool h' p'
        → Move s (record s { pool = p'; history = h' })
    -- A worker's place among the workers is given by those before and those behind it.
    session_moves :
        (front back : List (Worker Session)) (fd : ℤ) (phase : Phase) (s : Program W)
        → s.pool.workers ≡ front ++ (running (session fd phase) ∷ back)
        → Move s (record s {
          pool = record (session_turn os fd phase s.pool s.world).1 {
            workers =
                front ++ (running (session fd (session_turn os fd phase s.pool s.world).0) ∷ back);
          };
          world = (session_turn os fd phase s.pool s.world).2;
          requests = note_request phase s.requests;
          outgoing = note_response fd phase s.outgoing;
        })
    completes :
        (front back : List (Worker Session)) (fd : ℤ) (s : Program W)
        → s.pool.workers ≡ front ++ (running (session fd closed) ∷ back)
        → Move s (record s {
          pool = record s.pool { workers = front ++ (awake ∷ back) };
          history = record s.history {
            completed = s.history.completed ++ (session fd closed ∷ []);
          };
        })

  -- What the program can reach from the world in which main's loop starts, with so many threads.
  pub data Runs (threads : ℕ) (start : W) : Program W → Type 0 where
    begins : Runs threads start (starts threads start)
    goes_on : {s s' : Program W} → Runs threads start s → Move s s' → Runs threads start s'
