-- ===== src/App/ClientMain/Greeting.antt =====
-- PacketForge_V1/apps/client_main.cpp: what the client program ends with when it is answered.
use thread_pool.Base.{◌≡◌, refl, ◌∙◌, List, ℕ, ◌++◌, true, arith}
use thread_pool.Endian.{Endianness}
use thread_pool.Packet.{Packet, Fits, new_packet, is_valid}
use thread_pool.Codec.Wire.{wire}
use thread_pool.Os.{Os, Sends, Receives}
use thread_pool.Transport.Reliable.{Reliable}
use thread_pool.Client
use thread_pool.Client.{Client}
use thread_pool.Client.Exchange.{not_established, disconnect-new_client, send-wire, receive-wire}
use thread_pool.App.ClientMain.{request, print_payload, finishes, wind_up, talk}

pub request-Fits : Fits request × (is_valid request ≡ true)
unfolding is_valid
request-Fits = (ground arith, refl)

module _ {W : Type 0} (os : Os W) (host : Endianness) where
  wind_up-finishes :
      (c : Client) (response : Packet) (w : W)
      → (wind_up os host c response w).0
        ≡ finishes (print_payload response) not_established not_established
  unfolding wind_up Client.send Client.receive
  wind_up-finishes c response w = simp (disconnect-new_client os c (os.wait_enter w)) refl

  module _ (c : Client) (written incoming : W → List ℕ)
      (writes : Sends os c.transport.connection.socket.descriptor written)
      (reads : Receives os c.transport.connection.socket.descriptor incoming)
      (laws : Reliable os c.transport.connection.socket.descriptor)
      (up : Client.is_connected c ≡ true) where
    -- If no call fails, a connected client program sends its hello request and nothing else; and if a
    -- packet then stands at the front of the stream, it prints that packet, finds itself disconnected when
    -- it sends and receives once more, and exits with 0.
    pub talk-finishes :
        (answer : Packet) (rest : List ℕ) (w : W)
        → Fits answer
        → is_valid answer ≡ true
        → incoming w ≡ wire answer ++ rest
        → (written (Client.send os host c request w).1 ≡ written w ++ wire request)
          × ((talk os host c w).0 ≡ finishes (print_payload answer) not_established not_established)
    unfolding talk is_valid
    talk-finishes answer rest w f v stream =
        let (g, u) = request-Fits in
        let (good, sent, unread) =
          send-wire os host c written incoming writes reads laws up request w g u in
        let w₁ = (Client.send os host c request w).1 in
        let (arrived, same, _, _) =
          receive-wire os host c written incoming writes reads laws up answer new_packet rest w₁ f v
            (unread ∙ stream) in
        let (e, response, c₁, w₂) = Client.receive os host c new_packet w₁ in
        (sent, simp (good, arrived, same) (wind_up-finishes c₁ answer w₂))
