-- ===== src/Tests/OneClient.antt =====
-- A third small operating system, where one client connects: the listener is descriptor 3 and the
-- client is descriptor 4.
use thread_pool.Base.{
  ℤ, sym, codes, ℕ, ◌-◌, ◌≡◌, refl, List, [], ◌∷◌, pos, min, length, take, ap, arith,
}
use thread_pool.Endian.{little}
use thread_pool.Codec.Wire.{wire}
use thread_pool.Os.{Os, Sends, Receives}
use thread_pool.Transport.Reliable.{Reliable}
use thread_pool.App.ServerMain.{main}
use thread_pool.App.ServerMain.Promise.{promised}
use thread_pool.App.ServerMain.Listening.{Listens, main-promised}
use thread_pool.Codec.Header.{parse}
use thread_pool.Codec.RoundTrip.{wire-All}
use thread_pool.Client.Exchange.{not_established}
use thread_pool.App.ClientMain
use thread_pool.App.ClientMain.{request, finishes}
use thread_pool.App.ClientMain.Greeting.{request-Fits}
use thread_pool.App.ClientMain.Connecting.{Connects, main-written}
use thread_pool.App.Together.{greeted}
use thread_pool.App.Together.Mains.{main-main}
use thread_pool.Tests.Sim.{Sim, sim, sim_takes, some_piece, sim_ends}
use thread_pool.Tests.CodecTests.{hello_bytes}

abbrev pub one_client : Os Sim
one_client = record sim { socket = λ s. (pos 3, s); accept = λ fd s. (pos 4, s) }

pub one_client-Sends : (fd : ℤ) → Sends one_client fd (λ s. s.outbox)
one_client-Sends fd = record {
  takes = sim_takes;
  fails = λ bytes w n e. cc;
  kept_by_recv = λ n w. refl;
  kept_by_shutdown_write = λ w. refl;
  kept_by_close = λ w. refl;
  kept_by_interrupted = λ w. refl;
  kept_by_wait_enter = λ w. refl;
}

pub one_client-Receives : (fd : ℤ) → Receives one_client fd (λ s. s.inbox)
one_client-Receives fd = record {
  gives = λ n w bytes e. some_piece (min 5 n) n w.inbox bytes (omega arith) e;
  ends = λ n w h e. sim_ends n w.inbox h e;
  fails = λ n w e. cc;
  kept_by_send = λ bytes w. refl;
  kept_by_shutdown_write = λ w. refl;
}

pub one_client-Reliable : (fd : ℤ) → Reliable one_client fd
one_client-Reliable fd = record {
  gives = λ n w e. ground (arith, e);
  takes_some = λ b bs w. (min 3 (length (b ∷ bs)) - 1, ap pos (omega arith));
}

pub one_client-Listens : Listens one_client 3 4 (λ s. s.inbox) (λ s. s.outbox)
one_client-Listens = record {
  opens = λ w. refl;
  reuses = λ w. refl;
  resolves = (0x7f000001, refl);
  binds = λ ip port w. refl;
  has_backlog = refl;
  listens = λ w. refl;
  names = λ w. (9090, refl);
  accepts = λ w. refl;
  read_by_socket = λ w. refl;
  read_by_reuse = λ w. refl;
  read_by_bind = λ ip port w. refl;
  read_by_listen = λ w. refl;
  read_by_getsockname = λ w. refl;
  read_by_accept = λ w. refl;
  read_by_interrupted = λ w. refl;
  written_by_socket = λ w. refl;
  written_by_reuse = λ w. refl;
  written_by_bind = λ ip port w. refl;
  written_by_listen = λ w. refl;
  written_by_getsockname = λ w. refl;
  written_by_accept = λ w. refl;
  written_by_close = λ fd w. refl;
}

abbrev pub arriving : List ℕ → Sim
arriving bytes = record {
  next = 5;
  descriptors = λ d. 0;
  inbox = bytes;
  outbox = [];
  pieces = [];
  clients = [];
}

pub one_client-Connects : Connects one_client 3 (λ s. s.inbox) (λ s. s.outbox)
one_client-Connects = record {
  opens = λ w. refl;
  resolves = (0x7f000001, refl);
  connects = λ ip port w. refl;
  read_by_socket = λ w. refl;
  read_by_connect = λ ip port w. refl;
  written_by_socket = λ w. refl;
  written_by_connect = λ ip port w. refl;
  written_by_close = λ fd w. refl;
}

request_written :
    (ClientMain.main one_client little (arriving (wire greeted))).1.outbox ≡ wire request
request_written =
    main-written one_client little 3 (λ s. s.inbox) (λ s. s.outbox) one_client-Connects
      (one_client-Sends (pos 3)) (one_client-Receives (pos 3)) (one_client-Reliable (pos 3))
      (arriving (wire greeted))

greeting_written : (main one_client little (arriving (wire request))).1.outbox ≡ wire greeted
unfolding promised parse
greeting_written =
    (main-promised one_client little 3 4 (λ s. s.inbox) (λ s. s.outbox) one_client-Listens
      (one_client-Sends (pos 4)) (one_client-Receives (pos 4)) (one_client-Reliable (pos 4))
      (λ w. refl) (arriving (wire request)) (wire-All request request-Fits.0)).1

main-main_example :
    ((main one_client little (arriving (wire request))).0 ≡ 0)
    × ((ClientMain.main one_client little (arriving (wire greeted))).0
        ≡ finishes
            (codes "  Payload: Hello from PacketForge Server\n")
            not_established
            not_established)
main-main_example =
    main-main one_client one_client little little (λ w. refl) 3 4 3 (λ s. s.inbox) (λ s. s.outbox)
      (λ s. s.inbox) (λ s. s.outbox) one_client-Listens (one_client-Sends (pos 4))
      (one_client-Receives (pos 4)) (one_client-Reliable (pos 4)) one_client-Connects
      (one_client-Sends (pos 3)) (one_client-Receives (pos 3)) (one_client-Reliable (pos 3))
      (arriving (wire request)) (arriving (wire greeted)) refl refl (sym request_written)
      (sym greeting_written)

-- A client that closes in the middle of a header, and one that closes in the middle of a payload.
cut_header : promised (take 9 hello_bytes) ≡ (0, [])
unfolding promised
cut_header = refl

cut_payload : promised (take 17 hello_bytes) ≡ (0, [])
unfolding promised
cut_payload = refl
