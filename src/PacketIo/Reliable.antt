-- ===== src/PacketIo/Reliable.antt =====
-- PacketForge_V1/src/protocol/packet_io.cpp on a descriptor whose calls do not fail.
use thread_pool.Base.{
  length, ◌≢◌, ℕ, ◌≡◌, List, [], true, false, Option, take, drop, ◌++◌, Bool-cases, inl, inr, arith,
}
use thread_pool.Endian.{Endianness, uint32, network_to_host, object_value}
use thread_pool.Error.{Error, ok, no_error, error, socket_error}
use thread_pool.Exception.{Outcome, returns}
use thread_pool.Opcode.{ProtocolError, invalid_packet}
use thread_pool.Packet.{Packet, Fits, is_valid}
use thread_pool.Codec.{encode, decode}
use thread_pool.Codec.Wire.{wire, encode-wire}
use thread_pool.Os.{Os, Receives}
use thread_pool.PacketIo.Framing.{receive-Framed, receive-Delivered}
use thread_pool.Transport
use thread_pool.Transport.{Transport}
use thread_pool.Transport.Quiet.{receive-ok}
use thread_pool.Transport.Reliable.{Reliable, is_socket_error, send-ok, receive-is_socket_error}
use thread_pool.PacketIo.{send, receive, receive_payload, received, store}

module _ {W : Type 0} (os : Os W) (host : Endianness) where
  pub send_packet-ok :
      (t : Transport) (p : Packet) (w : W)
      → Reliable os t.connection.socket.descriptor
      → Transport.is_connected t ≡ true
      → Fits p
      → is_valid p ≡ true
      → ok (send os host t p w).0 ≡ true
  unfolding send
  send_packet-ok t p w laws up f v =
      rw (encode-wire host p f v, send) (send-ok os t (wire p) w laws up)

  received-is_socket_error :
      (o : Outcome Packet) (old : Packet) (code : Option ProtocolError)
      → is_socket_error (received o old code).0.code ≡ false
  unfolding received
  received-is_socket_error o old code = ground arith

  receive_payload-is_socket_error :
      (t : Transport) (header : List ℕ) (old : Packet) (code : Option ProtocolError) (w : W)
      → Reliable os t.connection.socket.descriptor
      → is_socket_error (receive_payload os host t header old code w).0.code ≡ false
  unfolding receive_payload
  receive_payload-is_socket_error t header old code w laws =
      let n = network_to_host uint32 host (object_value host (take 4 (drop 12 header))) in
      let payload = (Transport.receive os t [] n w).1 in
      ground (
        arith,
        receive-is_socket_error os t [] n w laws,
        received-is_socket_error (decode host (header ++ [])) old code,
        received-is_socket_error (decode host (header ++ payload)) old code,
      )

  pub receive_packet-is_socket_error :
      (t : Transport) (old : Packet) (code : Option ProtocolError) (w : W)
      → Reliable os t.connection.socket.descriptor
      → is_socket_error (receive os host t old code w).0.code ≡ false
  unfolding receive
  receive_packet-is_socket_error t old code w laws =
      let (e, header, t', w') = Transport.receive os t [] 16 w in
      elim (Bool-cases (ok e)) [
        | inl good ↦
            simp (good, receive-ok os t [] 16 w good)
              (receive_payload-is_socket_error t header old (store invalid_packet code) w' laws)
        | inr bad ↦ simp bad (receive-is_socket_error os t [] 16 w laws)
      ]

  not_broken :
      (e : Error) → is_socket_error e.code ≡ false → e ≢ error socket_error "Receive failed"
  not_broken e fine broken = absurd (ground (arith, fine, broken))

  -- When no call fails, 16 bytes and the payload that they announce come out as the decoder reads them.
  pub receive_frame :
      (t : Transport) (incoming : W → List ℕ)
      → Receives os t.connection.socket.descriptor incoming
      → Reliable os t.connection.socket.descriptor
      → Transport.is_connected t ≡ true
      → (front payload : List ℕ)
      → network_to_host uint32 host (object_value host (take 4 (drop 12 front))) ≡ length payload
      → length front ≡ 16
      → (old : Packet) (code : Option ProtocolError) (rest : List ℕ) (w : W)
      → incoming w ≡ front ++ (payload ++ rest)
      → let o = decode host (front ++ payload) in
        let code₀ = store invalid_packet code in
        let (e, packet, code', t', w') = receive os host t old code w in
        (e ≡ (received o old code₀).0)
        × (packet ≡ (received o old code₀).1)
        × (code' ≡ (received o old code₀).2)
        × (t' ≡ t)
        × (incoming w' ≡ rest)
  receive_frame t incoming reads laws up front payload announces size old code rest w stream =
      elim (receive-Framed os host t incoming reads up front payload announces old code rest w size
        stream) [
          | inl arrived ↦ arrived
          | inr broken ↦
              absurd (not_broken _ (receive_packet-is_socket_error t old code w laws) broken)
        ]

  -- When no call fails, an encoded packet arrives.
  pub receive_packet :
      (sender : Endianness) (t : Transport) (p old : Packet) (code : Option ProtocolError)
      (bytes rest : List ℕ) (w : W) (incoming : W → List ℕ)
      → Receives os t.connection.socket.descriptor incoming
      → Reliable os t.connection.socket.descriptor
      → Transport.is_connected t ≡ true
      → Fits p
      → encode sender p ≡ returns bytes
      → incoming w ≡ bytes ++ rest
      → let (e, packet, code', t', w') = receive os host t old code w in
        (e ≡ no_error) × (packet ≡ p) × (t' ≡ t) × (incoming w' ≡ rest)
  receive_packet sender t p old code bytes rest w incoming reads laws up f enc stream =
      elim (receive-Delivered os host sender t p old code bytes rest w incoming reads up f enc
        stream) [
          | inl arrived ↦ arrived
          | inr broken ↦
              absurd (not_broken _ (receive_packet-is_socket_error t old code w laws) broken)
        ]
