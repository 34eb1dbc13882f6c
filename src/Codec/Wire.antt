-- ===== src/Codec/Wire.antt =====
-- PacketForge_V1/src/protocol/encoder.cpp against the wire format, byte by byte.
use thread_pool.Base.{ℕ, ◌^◌, ◌<◌, ◌≡◌, List, ◌∷◌, ◌++◌, length, true, arith}
use thread_pool.Endian.{Endianness, uint16, uint32, network_bytes}
use thread_pool.Endian.Order.{object_bytes-host_to_network}
use thread_pool.Exception.{returns}
use thread_pool.Packet.{Packet, Fits, payload_length, is_valid, magic_number}
use thread_pool.Codec.{encode}

-- A packet on the wire: magic number, version, flags, opcode, sequence id and payload length, most
-- significant byte first, then the payload.
abbrev pub wire : Packet → List ℕ
wire p =
    network_bytes 4 p.magic
    ++ (p.version ∷ p.flags ∷ network_bytes 2 p.opcode
        ++ (network_bytes 4 p.sequence_id ++ (network_bytes 4 (length p.payload) ++ p.payload)))

pub is_valid_parts :
    (p : Packet)
    → is_valid p ≡ true
    → (p.magic ≡ magic_number) × (p.version ≡ 1) × (length p.payload < 2 ^ 32)
unfolding is_valid
is_valid_parts p v = ground arith

payload_length-eq : (p : Packet) → length p.payload < 2 ^ 32 → payload_length p ≡ length p.payload
unfolding payload_length
payload_length-eq p h = omega arith

-- On every host, a valid packet whose fields fit their types is encoded in the wire format.
pub encode-wire :
    (host : Endianness) (p : Packet) → Fits p → is_valid p ≡ true → encode host p ≡ returns (wire p)
unfolding encode
encode-wire host p f v =
    let (magic, version, short) = is_valid_parts p v in
    rw (
      v,
      payload_length-eq p short,
      object_bytes-host_to_network uint32 host p.magic (omega arith),
      object_bytes-host_to_network uint16 host p.opcode (omega arith),
      object_bytes-host_to_network uint32 host p.sequence_id (omega arith),
      object_bytes-host_to_network uint32 host (length p.payload) (omega arith),
    )
