-- ===== src/Packet.antt =====
-- PacketForge_V1/include/protocol/packet.hpp and src/protocol/packet.cpp: a packet and its checks.
use thread_pool.Base.{
  ℕ, ◌%◌, ◌-◌, ◌^◌, ◌<◌, List, [], Bool, true, false, not, ltb, ◌==◌, if◌then◌else◌, length, All,
}
use thread_pool.Endian.{IsByte}

abbrev pub header_size : ℕ
header_size = 16

-- The constants `Packet::MagicNumber` and `Packet::VERSION`.
abbrev pub magic_number : ℕ
magic_number = 0x50464B54

abbrev pub current_version : ℕ
current_version = 1

pub record Packet : Type 0 where
  pub magic : ℕ  -- uint32
  pub version : ℕ  -- uint8
  pub flags : ℕ  -- uint8
  pub opcode : ℕ  -- uint16
  pub sequence_id : ℕ  -- uint32
  pub payload : List ℕ

-- `Packet::Packet`.
abbrev pub new_packet : Packet
new_packet = record {
  magic = magic_number;
  version = current_version;
  flags = 0;
  opcode = 0;
  sequence_id = 0;
  payload = [];
}

abbrev pub set_version : ℕ → Packet → Packet
set_version v p = record p { version = v }

abbrev pub set_flags : ℕ → Packet → Packet
set_flags v p = record p { flags = v }

abbrev pub set_opcode : ℕ → Packet → Packet
set_opcode v p = record p { opcode = v }

abbrev pub set_sequence_id : ℕ → Packet → Packet
set_sequence_id v p = record p { sequence_id = v }

abbrev pub set_payload : List ℕ → Packet → Packet
set_payload v p = record p { payload = v }

-- The size of the payload, cast to 32 bits.
unfoldable pub payload_length : Packet → ℕ
payload_length p = length p.payload % 2 ^ 32

unfoldable pub is_valid : Packet → Bool
is_valid p =
    if not (p.magic == magic_number)
    then false
    else if not (p.version == current_version)
    then false
    else if ltb (2 ^ 32 - 1) (length p.payload)
    then false
    else true

-- What the C++ types of the fields give.
pub record Fits (p : Packet) : Type 0 where
  pub version_fits : p.version < 2 ^ 8
  pub flags_fit : p.flags < 2 ^ 8
  pub opcode_fits : p.opcode < 2 ^ 16
  pub sequence_id_fits : p.sequence_id < 2 ^ 32
  pub payload_bytes : All IsByte p.payload
