-- ===== src/PacketIo.antt =====
-- PacketForge_V1/src/protocol/packet_io.cpp: whole packets over a transport. The reference to the
-- transport, the packet that is filled in and the optional error code are arguments with their new
-- values in the result; a null pointer for the code is `none`.
pub mod Framing
pub mod Quiet
pub mod Truncated
pub mod Ownership
pub mod Reliable
pub mod Sequence
use thread_pool.Base.{
  ℕ, List, [], ◌++◌, Bool, not, Option, none, some, ltb, if◌then◌else◌, take, drop, String,
}
use thread_pool.Error.{
  Error, no_error, error, ok, protocol_error, serialization_error, deserialization_error,
  unknown_error,
}
use thread_pool.Endian.{Endianness, uint32, network_to_host, object_value}
use thread_pool.Exception.{
  Exception, Outcome, returns, throws, invalid_argument, protocol_decode_error, runtime_error,
}
use thread_pool.Opcode.{ProtocolError, invalid_packet}
use thread_pool.Packet.{Packet, header_size}
use thread_pool.Codec.{encode, decode}
use thread_pool.Os.{Os}
use thread_pool.Transport
use thread_pool.Transport.{Transport}

-- The two `catch` clauses of `send`.
send_failed : Exception → Error
send_failed (invalid_argument what) = error serialization_error what
send_failed (protocol_decode_error e what) = error unknown_error what
send_failed (runtime_error what) = error unknown_error what

-- The pointer is written through where there is one.
abbrev pub store : ProtocolError → Option ProtocolError → Option ProtocolError
store e none = none
store e (some _) = some e

-- The two `catch` clauses of `receive`, and its end where nothing was thrown.
unfoldable pub received :
    Outcome Packet → Packet → Option ProtocolError → Error × Packet × Option ProtocolError
received (returns p) old code = (no_error, p, code)
received (throws (protocol_decode_error e what)) old code =
    (error protocol_error what, old, store e code)
received (throws (invalid_argument what)) old code = (error deserialization_error what, old, code)
received (throws (runtime_error what)) old code = (error deserialization_error what, old, code)

module _ {W : Type 0} (os : Os W) (host : Endianness) where
  unfoldable pub send : Transport → Packet → W → Error × W
  unfolding send_failed
  send t packet w = elim (encode host packet) [
    | returns bytes ↦ Transport.send os t bytes w
    | throws e ↦ (send_failed e, w)
  ]

  -- `receive` once the header has arrived.
  receive_payload :
      Transport
      → List ℕ
      → Packet
      → Option ProtocolError
      → W
      → Error × Packet × Option ProtocolError × Transport × W
  receive_payload t header packet code w =
      let payload_length =
        network_to_host uint32 host (object_value host (take 4 (drop 12 header))) in
      let (e, payload, t', w') =
        (if ltb 0 payload_length
          then Transport.receive os t [] payload_length w
          else (no_error, [], t, w)) in
      if not (ok e)
      then (e, packet, code, t', w')
      else (let (e', packet', code') = received (decode host (header ++ payload)) packet code in
          (e', packet', code', t', w'))

  unfoldable pub receive :
      Transport
      → Packet
      → Option ProtocolError
      → W
      → Error × Packet × Option ProtocolError × Transport × W
  unfolding receive_payload received
  receive t packet code w =
      let code' = store invalid_packet code in
      let (e, header, t', w') = Transport.receive os t [] header_size w in
      if not (ok e) then (e, packet, code', t', w') else receive_payload t' header packet code' w'
