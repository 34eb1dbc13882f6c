-- ===== src/Codec.antt =====
-- PacketForge_V1/src/protocol/encoder.cpp and decoder.cpp: packets to bytes and back.
pub mod Wire
pub mod Header
pub mod RoundTrip
use thread_pool.Base.{
  ℕ, ◌+◌, ◌<◌, List, [], ◌∷◌, ◌++◌, not, ltb, ◌==◌, if◌then◌else◌, length, get_or, take, drop,
}
use thread_pool.Endian.{
  Endianness, Width, uint16, uint32, size_of, host_to_network, network_to_host, object_bytes,
  object_value,
}
use thread_pool.Opcode.{ProtocolError, invalid_packet, unsupported_version, invalid_payload}
use thread_pool.Exception.{
  Exception, Outcome, returns, throws, invalid_argument, protocol_decode_error,
}
use thread_pool.Packet.{
  Packet, header_size, magic_number, current_version, payload_length, is_valid, new_packet,
  set_version, set_flags, set_opcode, set_sequence_id, set_payload,
}

-- Every operation runs on a host with its own byte order.
module _ (host : Endianness) where
  -- The bytes of the object `value`, as they stand in memory.
  pub append_value : Width → List ℕ → ℕ → List ℕ
  append_value width buffer value = buffer ++ object_bytes host (size_of width) value

  unfoldable pub encode : Packet → Outcome (List ℕ)
  unfolding append_value
  encode packet =
      if not (is_valid packet)
      then throws (invalid_argument "Cannot encode invalid packet")
      else (let magic = append_value uint32 [] (host_to_network uint32 host packet.magic) in
          let version = magic ++ (packet.version ∷ []) in
          let flags = version ++ (packet.flags ∷ []) in
          let opcode = append_value uint16 flags (host_to_network uint16 host packet.opcode) in
          let sequence_id =
            append_value uint32 opcode (host_to_network uint32 host packet.sequence_id) in
          let payload_size =
            append_value uint32 sequence_id (host_to_network uint32 host (payload_length packet)) in
          returns (payload_size ++ packet.payload))

  pub read_uint32 : List ℕ → ℕ → ℕ
  read_uint32 bytes offset =
      network_to_host uint32 host (object_value host (take 4 (drop offset bytes)))

  pub read_uint16 : List ℕ → ℕ → ℕ
  read_uint16 bytes offset =
      network_to_host uint16 host (object_value host (take 2 (drop offset bytes)))

  -- The end of `decode`: the packet from the header's fields and the rest of the bytes.
  construct_packet : List ℕ → ℕ → ℕ → ℕ → ℕ → ℕ → Packet
  construct_packet bytes version flags opcode sequence_id payload_size =
      let packet =
        set_sequence_id sequence_id
          (set_opcode opcode (set_flags flags (set_version version new_packet))) in
      if ltb 0 payload_size then set_payload (drop header_size bytes) packet else packet

  unfoldable pub decode : List ℕ → Outcome Packet
  unfolding read_uint32 read_uint16 construct_packet
  decode bytes =
      if ltb (length bytes) header_size
      then throws (protocol_decode_error invalid_packet "Invalid packet size")
      else if not (read_uint32 bytes 0 == magic_number)
      then throws (protocol_decode_error invalid_packet "Invalid magic number")
      else if not (get_or bytes 4 0 == current_version)
      then throws (protocol_decode_error unsupported_version "Unsupported protocol version")
      else if not (length bytes == header_size + read_uint32 bytes 12)
      then throws (protocol_decode_error invalid_payload "Payload size mismatch")
      else returns (
          construct_packet bytes (get_or bytes 4 0) (get_or bytes 5 0) (read_uint16 bytes 6)
            (read_uint32 bytes 8) (read_uint32 bytes 12))
