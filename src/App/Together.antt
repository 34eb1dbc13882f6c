-- ===== src/App/Together.antt =====
-- PacketForge_V1/apps/server_main.cpp and client_main.cpp, each on a machine of its own, over one stream
-- in each direction.
pub mod Probes
pub mod Mains
pub mod ProbeMains
use thread_pool.Base.{ℕ, ◌≡◌, ◌∙◌, ap, sym, refl, List, [], ◌++◌, append-nil, true, false, codes}
use thread_pool.Endian.{Endianness}
use thread_pool.Packet.{Packet, Fits, new_packet, is_valid}
use thread_pool.Dispatch.{dispatch}
use thread_pool.Dispatch.Answers.{dispatch-answers}
use thread_pool.Codec.Wire.{wire, encode-wire}
use thread_pool.Os.{Os, Sends, Receives}
use thread_pool.Transport
use thread_pool.Transport.{Transport}
use thread_pool.Transport.Reliable.{Reliable}
use thread_pool.Client
use thread_pool.Client.{Client}
use thread_pool.App.ServerMain.{serve}
use thread_pool.App.ServerMain.Success.{serve-succeeds}
use thread_pool.App.ClientMain.{request, print_payload, talk, finishes}
use thread_pool.App.ClientMain.Greeting.{request-Fits, talk-finishes}
use thread_pool.Client.Exchange.{not_established, send-wire}

-- The dispatcher's answer to the client's request, and what the client prints for it.
abbrev pub greeted : Packet
greeted = (dispatch request new_packet).0

pub greeted-printed : print_payload greeted ≡ codes "  Payload: Hello from PacketForge Server\n"
unfolding dispatch
greeted-printed = refl

module _ {S C : Type 0} (server_os : Os S) (client_os : Os C) (server_host client_host : Endianness)
    (calm : (s : S) → (server_os.interrupted s).0 ≡ false) where
  -- If no call fails on either side, no signal arrives at the server, nothing was sent before, the server
  -- reads what the client's request put on its stream, and the client then reads what the server has
  -- written: the server program exits with 0, and the client program prints the server's greeting, finds
  -- itself disconnected when it sends and receives once more, and exits with 0.
  pub serve-talk :
      (t : Transport) (c : Client) (served taken : S → List ℕ) (written incoming : C → List ℕ)
      → Sends server_os t.connection.socket.descriptor served
      → Receives server_os t.connection.socket.descriptor taken
      → Reliable server_os t.connection.socket.descriptor
      → Transport.is_connected t ≡ true
      → Sends client_os c.transport.connection.socket.descriptor written
      → Receives client_os c.transport.connection.socket.descriptor incoming
      → Reliable client_os c.transport.connection.socket.descriptor
      → Client.is_connected c ≡ true
      → (s : S) (w : C) → served s ≡ []
      → written w ≡ []
      → taken s ≡ written (Client.send client_os client_host c request w).1
      → incoming w ≡ served (serve server_os server_host t s).2
      → ((serve server_os server_host t s).0 ≡ 0)
        × ((talk client_os client_host c w).0
            ≡ finishes
                (codes "  Payload: Hello from PacketForge Server\n")
                not_established
                not_established)
  serve-talk t c served taken written incoming t_sends t_receives t_laws t_up c_sends c_receives
        c_laws c_up s w fresh_s fresh_w there back =
      let (f, v) = request-Fits in
      let (_, sent, _) =
        send-wire client_os client_host c written incoming c_sends c_receives c_laws c_up request w
          f v in
      let arrived : taken s ≡ wire request ++ [] =
        there ∙ sent ∙ ap (λ x. x ++ wire request) fresh_w ∙ sym (append-nil (wire request)) in
      let (exits, answered) =
        serve-succeeds server_os server_host calm served server_host t request (wire request) [] s
          taken t_sends t_receives t_laws t_up f (encode-wire server_host request f v) arrived in
      let (_, valid, fits, _, _) = dispatch-answers request new_packet f in
      let returned =
        back ∙ answered ∙ ap (λ x. x ++ wire greeted) fresh_s ∙ sym (append-nil (wire greeted)) in
      let (_, ended) =
        talk-finishes client_os client_host c written incoming c_sends c_receives c_laws c_up
          greeted [] w fits valid returned in
      (exits, ended ∙ ap (λ x. finishes x not_established not_established) greeted-printed)
