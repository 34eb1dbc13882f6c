-- ===== src/Tests/NetworkTests.antt =====
-- The network code and the server program on the simulated system.
use thread_pool.Base.{◌≡◌, ◌⊎◌, ◌||◌, refl, inr, [], ◌∷◌, ◌++◌, true, false, none, pos}
use thread_pool.Endian.{little, big}
use thread_pool.Error.{ok}
use thread_pool.Packet.{new_packet}
use thread_pool.Dispatch.{dispatch}
use thread_pool.Transport.{Transport, send, receive}
use thread_pool.Transport.Streams.{Sent, send-Sent, Receipt, receive-Receipt}
use thread_pool.PacketIo
use thread_pool.PacketIo.Framing.{Delivered, receive-Delivered}
use thread_pool.Os.{one_at}
use thread_pool.Server.{Server, new_server, start}
use thread_pool.Server.Lifecycle.{IsSound, start-IsSound}
use thread_pool.App.ServerMain.{main, serve}
use thread_pool.App.ServerMain.Cleanup.{main_closes_all}
use thread_pool.App.ServerMain.Answer.{Answered, serve-Answered}
use thread_pool.Tests.Sim.{Sim, sim, sim-Descriptors, sim-Sends, sim-Receives}
use thread_pool.Tests.CodecTests.{hello, hello_bytes, hello-Fits, hello_encoded}

-- The client's request and one more byte are on their way; descriptors 0 to 2 are in use.
abbrev world : Sim
world = record {
  next = 3;
  descriptors = λ d. 0;
  inbox = hello_bytes ++ (9 ∷ []);
  outbox = [];
  pieces = [];
  clients = [];
}

abbrev connected : Transport
connected = record {
  connection = record { socket = record { descriptor = pos 4 }; connected = true };
}

main_closes_all_example : (main sim little world).1.descriptors (pos 4) ≡ 0
main_closes_all_example =
    main_closes_all sim little (pos 4) (λ s. s.descriptors (pos 4)) (sim-Descriptors (pos 4)) world

serve-Answered_example :
    let (exit_code, t, w) = serve sim little connected world in
    Answered [] (dispatch hello new_packet).0 exit_code w.outbox
serve-Answered_example =
    serve-Answered sim little (λ s. s.outbox) (λ w. refl) big connected hello hello_bytes (9 ∷ [])
      world (λ s. s.inbox) (sim-Sends (pos 4)) (sim-Receives (pos 4)) refl hello-Fits hello_encoded
      refl

send-Sent_example :
    let (e, w) = send sim connected (1 ∷ 2 ∷ 3 ∷ 4 ∷ []) world in
    Sent [] (1 ∷ 2 ∷ 3 ∷ 4 ∷ []) w.outbox e
send-Sent_example =
    send-Sent sim connected (1 ∷ 2 ∷ 3 ∷ 4 ∷ []) world (λ s. s.outbox) (sim-Sends (pos 4)) refl

receive-Receipt_example :
    let (e, bytes, t, w) = receive sim connected [] 7 world in
    Receipt 7 (hello_bytes ++ (9 ∷ [])) connected e bytes t w.inbox
receive-Receipt_example =
    receive-Receipt sim connected [] 7 world (λ s. s.inbox) (sim-Receives (pos 4)) refl

start-IsSound_example :
    let (e, s, w) = start sim new_server "127.0.0.1" 9090 world in
    IsSound s × (s.running ≡ (false || ok e)) × ((false ≡ false) ⊎ (s ≡ new_server))
start-IsSound_example =
    start-IsSound sim new_server "127.0.0.1" 9090 world
      (record { running_open = refl; idle_port = inr refl })

receive-Delivered_example :
    let (e, packet, code, t, w) = PacketIo.receive sim little connected new_packet none world in
    Delivered connected hello (9 ∷ []) e packet t w.inbox
receive-Delivered_example =
    receive-Delivered sim little big connected hello new_packet none hello_bytes (9 ∷ []) world
      (λ s. s.inbox) (sim-Receives (pos 4)) refl hello-Fits hello_encoded refl

-- A world in which descriptor 4 is open.
abbrev opened_four : Sim
opened_four = record world { descriptors = λ d. one_at (pos 4) d }

abbrev listening : Server
listening = record { socket = record { descriptor = pos 4 }; running = true; port = 9090 }
