-- ===== src/App/ServerMain.antt =====
-- PacketForge_V1/apps/server_main.cpp: one client, one request, one answer. Console output is left
-- out. Each `break` of the one-pass loop is a result that goes on to the cleanup at the end of
-- `main`; the flag that the signal handler sets is read off the world at each check.
pub mod Cleanup
pub mod Promise
pub mod Listening
pub mod Answer
pub mod Success
pub mod Refusal
use thread_pool.Base.{
  ℕ, List, [], ◌∷◌, Bool, true, false, not, Option, none, some, if◌then◌else◌, ◌%◌, ◌^◌, String,
}
use thread_pool.Error.{Error, ErrorCode, ok, connection_closed, protocol_error}
use thread_pool.Endian.{Endianness}
use thread_pool.Opcode.{
  ProtocolError, invalid_packet, error_response, opcode_value, protocol_error_value,
}
use thread_pool.Packet.{Packet, new_packet, set_opcode, set_sequence_id, set_payload}
use thread_pool.Dispatch.{dispatch}
use thread_pool.Os.{Os}
use thread_pool.Connection
use thread_pool.Connection.{Connection, new_connection, disconnect}
use thread_pool.Transport.{Transport, of_connection}
use thread_pool.PacketIo
use thread_pool.Server
use thread_pool.Server.{Server, new_server, start, accept, stop}

abbrev pub is_connection_closed : ErrorCode → Bool
is_connection_closed connection_closed = true
is_connection_closed _ = false

abbrev pub is_protocol_error : ErrorCode → Bool
is_protocol_error protocol_error = true
is_protocol_error _ = false

abbrev pub server_address : String
server_address = "127.0.0.1"

abbrev pub server_port : ℕ
server_port = 9090

-- The answer to bytes that are no packet.
abbrev pub protocol_error_response : ProtocolError → Packet
protocol_error_response e =
    set_payload (protocol_error_value e % 2 ^ 8 ∷ [])
      (set_sequence_id 0 (set_opcode (opcode_value error_response) new_packet))

-- The local variable that `receive` was given a pointer to.
abbrev pub code_or : Option ProtocolError → ProtocolError
code_or none = invalid_packet
code_or (some e) = e

module _ {W : Type 0} (os : Os W) (host : Endianness) where
  -- After a protocol error: report it to the peer. The result is the exit code.
  report_error : Transport → ProtocolError → W → ℕ × W
  report_error t e w =
      let (sent, w₁) = PacketIo.send os host t (protocol_error_response e) w in
      if not (ok sent)
      then (1, w₁)
      else (let (shutdown, w₂) = os.interrupted w₁ in if shutdown then (0, w₂) else (1, w₂))

  -- After a packet was received: dispatch it, send the answer and wait for the operator.
  answer_request : Transport → Packet → W → ℕ × W
  answer_request t request w =
      let (response, dispatched) = dispatch request new_packet in
      let (shutdown₁, w₁) = os.interrupted w in
      if shutdown₁
      then (0, w₁)
      else if not (ok dispatched)
      then (1, w₁)
      else (let (sent, w₂) = PacketIo.send os host t response w₁ in
          if not (ok sent)
          then (1, w₂)
          else (let (shutdown₂, w₃) = os.interrupted w₂ in
              if shutdown₂ then (0, w₃) else (0, os.wait_enter w₃)))

  -- What follows the first receive, by the error it came back with.
  respond : Transport → Error → Packet → Option ProtocolError → W → ℕ × W
  respond t e request code w =
      if not (ok e)
      then (if is_connection_closed e.code
          then (0, w)
          else if is_protocol_error e.code
          then report_error t (code_or code) w
          else (1, w))
      else answer_request t request w

  -- From the first receive on; the transport comes back as it then is.
  pub serve : Transport → W → ℕ × Transport × W
  serve t w =
      let (e, request, code, t', w₁) =
        PacketIo.receive os host t new_packet (some invalid_packet) w in
      let (shutdown, w₂) = os.interrupted w₁ in
      if shutdown
      then (0, t', w₂)
      else (let (exit_code, w₃) = respond t' e request code w₂ in (exit_code, t', w₃))

  -- The execution scope: the exit code, the transport if one was made, and the server. A connection
  -- that was not handed to a transport is destroyed at the end of the scope.
  session : Server → W → ℕ × Option Transport × Server × W
  session server w =
      let (started, server₁, w₁) = start os server server_address server_port w in
      if not (ok started)
      then (1, none, server₁, w₁)
      else (let (shutdown₁, w₂) = os.interrupted w₁ in
          if shutdown₁
          then (0, none, server₁, Connection.destroy os new_connection w₂)
          else (let (accepted, c, w₃) = accept os server₁ new_connection w₂ in
              let (shutdown₂, w₄) = os.interrupted w₃ in
              if shutdown₂
              then (0, none, server₁, Connection.destroy os c w₄)
              else if not (ok accepted)
              then (1, none, server₁, Connection.destroy os c w₄)
              else (let (t, left) = of_connection c in
                  let (exit_code, t', w₅) = serve t w₄ in
                  (exit_code, some t', server₁, Connection.destroy os left w₅))))

  -- The cleanup disconnects and destroys the transport, if there is one.
  close_transport : Option Transport → W → W
  close_transport none w = w
  close_transport (some t) w =
      let (c, w') = disconnect os t.connection w in Connection.destroy os c w'

  -- `main`: the exit code. The server's destructor runs last.
  pub main : W → ℕ × W
  unfolding session close_transport
  main w =
      let (exit_code, transport, server, w₁) = session new_server w in
      let w₂ = close_transport transport w₁ in
      let (server', w₃) = (if server.running then stop os server w₂ else (server, w₂)) in
      (exit_code, Server.destroy os server' w₃)
