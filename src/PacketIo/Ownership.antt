-- ===== src/PacketIo/Ownership.antt =====
-- PacketForge_V1/src/protocol/packet_io.cpp: the descriptors that packet traffic opens or closes.
use thread_pool.Base.{
  ℕ, ◌+◌, ◌≤◌, ◌≡◌, List, [], Option, ℤ, Bool-cases, refl, inl, inr, arith, take, drop,
}
use thread_pool.Error.{ok}
use thread_pool.Endian.{Endianness, uint32, network_to_host, object_value}
use thread_pool.Opcode.{ProtocolError, invalid_packet}
use thread_pool.Packet.{Packet}
use thread_pool.Codec.{encode}
use thread_pool.Exception.{Outcome-cases}
use thread_pool.Os.{Os, Descriptors}
use thread_pool.Socket.Ownership.{holds}
use thread_pool.Transport
use thread_pool.Transport.{Transport}
use thread_pool.Transport.Ownership.{send-opened, receive-Balanced}
use thread_pool.PacketIo.{send, receive, receive_payload, store}

module _ {W : Type 0} (os : Os W) (host : Endianness) (d : ℤ) (opened : W → ℕ)
    (laws : Descriptors os d opened) where
  pub send-kept : (t : Transport) (p : Packet) (w : W) → opened (send os host t p w).1 ≡ opened w
  unfolding send
  send-kept t p w = elim (Outcome-cases (encode host p)) [
    | inl (bytes, e) ↦ rw (e, send) (send-opened os d opened laws t bytes w)
    | inr (x, e) ↦ rw (e, send) refl
  ]

  receive_payload-Balanced :
      (t : Transport) (header : List ℕ) (old : Packet) (code : Option ProtocolError) (w : W)
      → holds t.connection.socket d ≤ opened w
      → let (e, packet, code', t', w') = receive_payload os host t header old code w in
        opened w' + holds t.connection.socket d ≡ opened w + holds t'.connection.socket d
  unfolding receive_payload
  receive_payload-Balanced t header old code w h =
      let n = network_to_host uint32 host (object_value host (take 4 (drop 12 header))) in
      ground (arith, receive-Balanced os d opened laws t [] n w h)

  pub receive_packet-Balanced :
      (t : Transport) (old : Packet) (code : Option ProtocolError) (w : W)
      → holds t.connection.socket d ≤ opened w
      → let (e, packet, code', t', w') = receive os host t old code w in
        opened w' + holds t.connection.socket d ≡ opened w + holds t'.connection.socket d
  unfolding receive
  receive_packet-Balanced t old code w h =
      let (e, header, t', w') = Transport.receive os t [] 16 w in
      let got = receive-Balanced os d opened laws t [] 16 w h in
      elim (Bool-cases (ok e)) [
        | inl good ↦ simp good (
            omega (
              arith,
              got,
              receive_payload-Balanced t' header old (store invalid_packet code) w'
                  (omega (arith, got)),
            ))
        | inr bad ↦ simp bad got
      ]
