-- ===== src/PacketIo/Quiet.antt =====
-- PacketForge_V1/src/protocol/packet_io.cpp: sending reads nothing, and receiving writes nothing.
use thread_pool.Base.{ℕ, ◌≡◌, refl, ◌∙◌, inl, inr, List, [], take, drop, Option, arith, Bool-cases}
use thread_pool.Error.{ok}
use thread_pool.Endian.{Endianness, uint32, network_to_host, object_value}
use thread_pool.Exception.{Outcome-cases}
use thread_pool.Transport.Blocks.{send-incoming}
use thread_pool.Opcode.{ProtocolError, invalid_packet}
use thread_pool.Packet.{Packet}
use thread_pool.Codec.{encode}
use thread_pool.Os.{Os, Sends, Receives}
use thread_pool.Transport
use thread_pool.Transport.{Transport}
use thread_pool.Transport.Quiet.{receive-seen, receive-ok}
use thread_pool.PacketIo.{send, receive, receive_payload, store}

module _ {W : Type 0} (os : Os W) (host : Endianness) where
  pub send_packet-incoming :
      (t : Transport) (p : Packet) (w : W) (incoming : W → List ℕ)
      → Receives os t.connection.socket.descriptor incoming
      → incoming (send os host t p w).1 ≡ incoming w
  unfolding send
  send_packet-incoming t p w incoming reads = elim (Outcome-cases (encode host p)) [
    | inl (bytes, e) ↦ rw (e, send) (send-incoming os t incoming reads bytes w)
    | inr (x, e) ↦ rw (e, send) refl
  ]

  receive_payload-written :
      (t : Transport) (header : List ℕ) (old : Packet) (code : Option ProtocolError) (w : W)
      (written : W → List ℕ)
      → Sends os t.connection.socket.descriptor written
      → written (receive_payload os host t header old code w).4 ≡ written w
  unfolding receive_payload
  receive_payload-written t header old code w written laws =
      let n = network_to_host uint32 host (object_value host (take 4 (drop 12 header))) in
      ground (
        arith,
        receive-seen os t.connection.socket.descriptor written laws.kept_by_recv laws.kept_by_close
            t [] n w refl,
      )

  pub receive_packet-written :
      (t : Transport) (old : Packet) (code : Option ProtocolError) (w : W) (written : W → List ℕ)
      → Sends os t.connection.socket.descriptor written
      → written (receive os host t old code w).4 ≡ written w
  unfolding receive
  receive_packet-written t old code w written laws =
      let (e, header, t', w') = Transport.receive os t [] 16 w in
      let kept =
        receive-seen os t.connection.socket.descriptor written laws.kept_by_recv laws.kept_by_close
          t [] 16 w refl in
      elim (Bool-cases (ok e)) [
        | inl good ↦
            simp (good, receive-ok os t [] 16 w good)
              (receive_payload-written t header old (store invalid_packet code) w' written laws
                ∙ kept)
        | inr bad ↦ simp bad kept
      ]
