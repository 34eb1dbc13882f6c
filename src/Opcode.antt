-- ===== src/Opcode.antt =====
-- PacketForge_V1/include/protocol/opcode.hpp: opcodes and protocol error codes on the wire.
use thread_pool.Base.{ℕ, Bool, ◌||◌, ◌==◌}

pub data Opcode : Type 0 where
  hello_request hello_response error_response : Opcode

pub data ProtocolError : Type 0 where
  invalid_packet unsupported_opcode unsupported_version invalid_payload : ProtocolError

-- The numbers of the two `enum class`es.
abbrev pub opcode_value : Opcode → ℕ
opcode_value hello_request = 1
opcode_value hello_response = 2
opcode_value error_response = 100

abbrev pub protocol_error_value : ProtocolError → ℕ
protocol_error_value invalid_packet = 1
protocol_error_value unsupported_opcode = 2
protocol_error_value unsupported_version = 3
protocol_error_value invalid_payload = 4

unfoldable pub is_valid_opcode : ℕ → Bool
is_valid_opcode v =
    v == opcode_value hello_request
    || v == opcode_value hello_response
    || v == opcode_value error_response

unfoldable pub is_valid_protocol_error : ℕ → Bool
is_valid_protocol_error v =
    v == protocol_error_value invalid_packet
    || v == protocol_error_value unsupported_opcode
    || v == protocol_error_value unsupported_version
    || v == protocol_error_value invalid_payload
