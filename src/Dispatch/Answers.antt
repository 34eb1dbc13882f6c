-- ===== src/Dispatch/Answers.antt =====
-- PacketForge_V1/src/protocol/opcode_dispatcher.cpp and handler.cpp: the answers to all requests.
use thread_pool.Base.{◌≡◌, ◌≢◌, ◌⊎◌, [], ◌∷◌, true, arith}
use thread_pool.Error.{no_error}
use thread_pool.Opcode.{
  hello_request, hello_response, error_response, opcode_value, unsupported_opcode,
  unsupported_version, protocol_error_value, is_valid_opcode,
}
use thread_pool.Packet.{Packet, Fits, is_valid}
use thread_pool.Dispatch.{dispatch, handler_hello, greeting}

-- Dispatching never fails: it answers every request with a packet that the encoder accepts, that
-- carries the request's sequence id and one of the protocol's opcodes.
pub dispatch-answers :
    (request response : Packet)
    → Fits request
    → let (answer, e) = dispatch request response in
      (e ≡ no_error)
      × (is_valid answer ≡ true)
      × Fits answer
      × (answer.sequence_id ≡ request.sequence_id)
      × (is_valid_opcode answer.opcode ≡ true)
unfolding dispatch is_valid is_valid_opcode
dispatch-answers request response f = ground arith

-- The greeting goes to a hello request of the current version and to nothing else; any other
-- request gets an error response whose payload is one byte, the code of what was wrong with it.
pub dispatch_cases :
    (request response : Packet)
    → let answer = (dispatch request response).0 in
      ((request.version ≡ 1)
        × (request.opcode ≡ opcode_value hello_request)
        × (answer.opcode ≡ opcode_value hello_response)
        × (answer.payload ≡ greeting))
      ⊎ ((answer.opcode ≡ opcode_value error_response)
          × (request.version ≢ 1)
          × (answer.payload ≡ protocol_error_value unsupported_version ∷ []))
      ⊎ ((answer.opcode ≡ opcode_value error_response)
          × (request.version ≡ 1)
          × (request.opcode ≢ opcode_value hello_request)
          × (answer.payload ≡ protocol_error_value unsupported_opcode ∷ []))
unfolding dispatch
dispatch_cases request response = ground arith

-- The two copies of the hello handler agree: on a hello request of the current version the
-- dispatcher answers what `Handler::handleHello` answers.
pub dispatch-handler_hello :
    (request response : Packet)
    → request.version ≡ 1
    → request.opcode ≡ opcode_value hello_request
    → dispatch request response ≡ handler_hello request response
unfolding dispatch handler_hello
dispatch-handler_hello request response version opcode = ground arith
