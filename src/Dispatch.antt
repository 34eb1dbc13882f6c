-- ===== src/Dispatch.antt =====
-- PacketForge_V1/src/protocol/opcode_dispatcher.cpp and handler.cpp: the answer to a request. The
-- reference `response` is an argument with its new value in the result.
pub mod Answers
use thread_pool.Base.{ℕ, List, [], ◌∷◌, not, ◌==◌, if◌then◌else◌, ◌%◌, ◌^◌}
use thread_pool.Error.{Error, no_error}
use thread_pool.Opcode.{
  Opcode, hello_request, hello_response, error_response, opcode_value, ProtocolError,
  unsupported_opcode, unsupported_version, protocol_error_value,
}
use thread_pool.Packet.{
  Packet, current_version, new_packet, set_version, set_flags, set_opcode, set_sequence_id,
  set_payload,
}

-- "Hello from PacketForge Server".
abbrev pub greeting : List ℕ
greeting =
    b'H' ∷ b'e' ∷ b'l' ∷ b'l' ∷ b'o' ∷ 0x20 ∷ b'f' ∷ b'r' ∷ b'o' ∷ b'm' ∷ 0x20 ∷ b'P' ∷ b'a' ∷ b'c'
    ∷ b'k' ∷ b'e' ∷ b't' ∷ b'F' ∷ b'o' ∷ b'r' ∷ b'g' ∷ b'e' ∷ 0x20 ∷ b'S' ∷ b'e' ∷ b'r' ∷ b'v'
    ∷ b'e' ∷ b'r' ∷ []

-- `OpcodeDispatcher::handleHello`; what `response` held before is lost.
handle_hello : Packet → Packet → Packet × Error
handle_hello request response =
    let cleared = set_flags 0 (set_version current_version new_packet) in
    let answer =
      set_sequence_id request.sequence_id (set_opcode (opcode_value hello_response) cleared) in
    (set_payload greeting answer, no_error)

-- `OpcodeDispatcher::makeErrorResponse`; the error's number is cast to a byte.
make_error_response : Packet → ProtocolError → Packet → Packet × Error
make_error_response request e response =
    let cleared = set_flags 0 (set_version current_version new_packet) in
    let answer =
      set_sequence_id request.sequence_id (set_opcode (opcode_value error_response) cleared) in
    (set_payload (protocol_error_value e % 2 ^ 8 ∷ []) answer, no_error)

unfoldable pub dispatch : Packet → Packet → Packet × Error
unfolding handle_hello make_error_response
dispatch request response =
    if not (request.version == current_version)
    then make_error_response request unsupported_version response
    else if request.opcode == opcode_value hello_request
    then handle_hello request response
    else make_error_response request unsupported_opcode response

-- `Handler::handleHello` of handler.cpp, a second copy of the dispatcher's handler.
unfoldable pub handler_hello : Packet → Packet → Packet × Error
handler_hello request response =
    let cleared = set_flags 0 (set_version current_version new_packet) in
    let answer =
      set_sequence_id request.sequence_id (set_opcode (opcode_value hello_response) cleared) in
    (set_payload greeting answer, no_error)
