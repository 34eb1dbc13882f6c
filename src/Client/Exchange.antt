-- ===== src/Client/Exchange.antt =====
-- PacketForge_V1/src/client/client.cpp: a connected client when no call fails.
use thread_pool.Base.{
  ℕ, ◌≡◌, refl, sym, ◌∙◌, ap, List, [], ◌++◌, true, false, none, arith, length, length-append,
}
use thread_pool.Error.{Error, ok, error, no_error, connection_closed, connection_failed}
use thread_pool.Endian.{Endianness}
use thread_pool.Packet.{Packet, Fits, is_valid}
use thread_pool.Codec.Wire.{wire, encode-wire}
use thread_pool.Os.{Os, Sends, Receives}
use thread_pool.Connection.Lifecycle.{disconnect_twice}
use thread_pool.Transport
use thread_pool.Transport.{Transport, new_transport}
use thread_pool.Transport.Blocks.{Sent-all}
use thread_pool.Transport.Streams.{Receipt, block, peer_closed, broken, receive-Receipt}
use thread_pool.Transport.Reliable.{Reliable, is_socket_error, receive-is_socket_error}
use thread_pool.PacketIo
use thread_pool.PacketIo.Framing.{send-Sent_packet}
use thread_pool.PacketIo.Quiet.{send_packet-incoming}
use thread_pool.PacketIo.Reliable.{send_packet-ok, receive_packet}
use thread_pool.Client
use thread_pool.Client.{Client, new_client}

-- What sending and receiving come back with on a client that is not connected.
abbrev pub not_established : Error
not_established = error connection_failed "Connection not established"

pub disconnect-new_client :
    {W : Type 0} (os : Os W) (c : Client) (w : W) → (Client.disconnect os c w).0 ≡ new_client
unfolding Client.disconnect
disconnect-new_client os c w =
    ap (λ x. record { transport = record { connection = x } })
      (disconnect_twice os c.transport.connection w).0

module _ {W : Type 0} (os : Os W) (host : Endianness) (c : Client) (written incoming : W → List ℕ)
    (writes : Sends os c.transport.connection.socket.descriptor written)
    (reads : Receives os c.transport.connection.socket.descriptor incoming)
    (laws : Reliable os c.transport.connection.socket.descriptor)
    (up : Client.is_connected c ≡ true) where
  pub send-wire :
      (p : Packet) (w : W)
      → Fits p
      → is_valid p ≡ true
      → let (e, w₁) = Client.send os host c p w in
        (ok e ≡ true) × (written w₁ ≡ written w ++ wire p) × (incoming w₁ ≡ incoming w)
  unfolding Client.send
  send-wire p w f v =
      let good = send_packet-ok os host c.transport p w laws up f v in
      let (e, w₁) = PacketIo.send os host c.transport p w in
      let sent = send-Sent_packet os host c.transport p w written writes up f v in
      simp up (
        good,
        Sent-all (written w) (wire p) (written w₁) e sent good,
        send_packet-incoming os host c.transport p w incoming reads,
      )

  pub receive-wire :
      (p old : Packet) (rest : List ℕ) (w : W)
      → Fits p
      → is_valid p ≡ true
      → incoming w ≡ wire p ++ rest
      → let (e, packet, c', w') = Client.receive os host c old w in
        (e ≡ no_error) × (packet ≡ p) × (c' ≡ c) × (incoming w' ≡ rest)
  unfolding Client.receive
  receive-wire p old rest w f v stream =
      let (good, same, kept, behind) =
        receive_packet os host host c.transport p old none (wire p) rest w incoming reads laws up f
          (encode-wire host p f v) stream in
      simp up (good, same, ap (λ t. record { transport = t }) kept, behind)

  Receipt-closed :
      (e : Error) (bytes : List ℕ) (t' : Transport) (before after : List ℕ)
      → Receipt 16 before c.transport e bytes t' after
      → before ≡ []
      → is_socket_error e.code ≡ false
      → (e ≡ error connection_closed "Connection closed by peer") × (t' ≡ new_transport)
  Receipt-closed _ _ _ before _ (block bytes after split n) empty fine = absurd (
      omega
        (arith, n, ap (λ (t : List ℕ). length t) (sym split ∙ empty), length-append bytes after))
  Receipt-closed _ _ _ before _ (peer_closed after short) empty fine = (refl, refl)
  Receipt-closed _ _ _ before _ (broken read after split n) empty fine =
      absurd (ground (arith, fine))

  -- At the end of the peer's stream the client is told so, and is as a new one.
  pub receive_at_end :
      (old : Packet) (w : W)
      → incoming w ≡ []
      → let (e, packet, c', w') = Client.receive os host c old w in
        (e ≡ error connection_closed "Connection closed by peer") × (c' ≡ new_client)
  unfolding Client.receive PacketIo.receive
  receive_at_end old w empty =
      let (e, header, t', w') = Transport.receive os c.transport [] 16 w in
      let (closed, fresh) =
        Receipt-closed e header t' (incoming w) (incoming w')
          (receive-Receipt os c.transport [] 16 w incoming reads up) empty
          (receive-is_socket_error os c.transport [] 16 w laws) in
      simp (up, closed) (refl, ap (λ t. record { transport = t }) fresh)

-- A new client neither sends nor receives.
pub send-new_client :
    {W : Type 0} (os : Os W) (host : Endianness) (p : Packet) (w : W)
    → Client.send os host new_client p w ≡ (not_established, w)
unfolding Client.send
send-new_client os host p w = refl

pub receive-new_client :
    {W : Type 0} (os : Os W) (host : Endianness) (old : Packet) (w : W)
    → Client.receive os host new_client old w ≡ (not_established, old, new_client, w)
unfolding Client.receive
receive-new_client os host old w = refl
