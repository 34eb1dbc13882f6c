-- ===== src/App/ServerMain/Refusal.antt =====
-- PacketForge_V1/apps/server_main.cpp: what a client gets for bytes that are no packet.
use thread_pool.Base.{ℕ, ◌≡◌, ◌∙◌, ap, List, ◌++◌, some, true, false, arith, String}
use thread_pool.Error.{error, protocol_error}
use thread_pool.Endian.{Endianness}
use thread_pool.Exception.{throws, protocol_decode_error}
use thread_pool.Opcode.{ProtocolError, invalid_packet}
use thread_pool.Packet.{Fits, new_packet, is_valid}
use thread_pool.Codec.{decode}
use thread_pool.Codec.Wire.{wire}
use thread_pool.Codec.Header.{IsFrame, IsFrame-announces}
use thread_pool.Os.{Os, Sends, Receives}
use thread_pool.Transport
use thread_pool.Transport.{Transport}
use thread_pool.Transport.Reliable.{Reliable}
use thread_pool.Transport.Blocks.{Sent-all}
use thread_pool.PacketIo
use thread_pool.PacketIo.{received, store}
use thread_pool.PacketIo.Framing.{send-Sent_packet}
use thread_pool.PacketIo.Quiet.{receive_packet-written}
use thread_pool.PacketIo.Reliable.{send_packet-ok, receive_frame}
use thread_pool.App.ServerMain.{serve, respond, report_error, protocol_error_response}

protocol_error_response-Fits :
    (e : ProtocolError)
    → Fits (protocol_error_response e) × (is_valid (protocol_error_response e) ≡ true)
unfolding is_valid
protocol_error_response-Fits e = ground arith

module _ {W : Type 0} (os : Os W) (host : Endianness) (written : W → List ℕ)
    (calm : (w : W) → (os.interrupted w).0 ≡ false) where
  report_error-written :
      (t : Transport) (e : ProtocolError) (w : W)
      → Sends os t.connection.socket.descriptor written
      → Reliable os t.connection.socket.descriptor
      → Transport.is_connected t ≡ true
      → let (exit_code, w') = report_error os host t e w in
        (exit_code ≡ 1) × (written w' ≡ written w ++ wire (protocol_error_response e))
  unfolding report_error
  report_error-written t e w writes laws up =
      let answer = protocol_error_response e in
      let (f, v) = protocol_error_response-Fits e in
      let good = send_packet-ok os host t answer w laws up f v in
      let (sent, w₁) = PacketIo.send os host t answer w in
      let stream =
        Sent-all (written w) (wire answer) (written w₁) sent
          (send-Sent_packet os host t answer w written writes up f v) good in
      simp good (ground (arith, calm w₁, stream, writes.kept_by_interrupted w₁))

  -- If no call fails, no signal arrives and the client's stream starts with header bytes and the payload
  -- that they announce, and the decoder refuses these, then the server program writes the error response
  -- with the decoder's code and nothing else, and exits with 1.
  pub serve-refuses :
      (t : Transport) (incoming : W → List ℕ)
      → Sends os t.connection.socket.descriptor written
      → Receives os t.connection.socket.descriptor incoming
      → Reliable os t.connection.socket.descriptor
      → Transport.is_connected t ≡ true
      → (front payload rest : List ℕ) (e : ProtocolError) (what : String) (w : W)
      → IsFrame front payload
      → decode host (front ++ payload) ≡ throws (protocol_decode_error e what)
      → incoming w ≡ front ++ (payload ++ rest)
      → let (exit_code, t', w') = serve os host t w in
        (exit_code ≡ 1) × (written w' ≡ written w ++ wire (protocol_error_response e))
  unfolding serve respond received
  serve-refuses t incoming writes reads laws up front payload rest e what w frame refused stream =
      let (failed, packet, code, t', w₁) =
        PacketIo.receive os host t new_packet (some invalid_packet) w in
      let (error_is, _, code_is, same_t, _) =
        receive_frame os host t incoming reads laws up front payload
          (IsFrame-announces host front payload frame) frame.front_size new_packet
          (some invalid_packet) rest w stream in
      let named : failed ≡ error protocol_error what =
        error_is ∙ ap (λ o. (received o new_packet (some invalid_packet)).0) refused in
      let coded : code ≡ some e =
        code_is ∙ ap (λ o. (received o new_packet (some invalid_packet)).2) refused in
      let w₂ = (os.interrupted w₁).1 in
      let silent =
        receive_packet-written os host t new_packet (some invalid_packet) w written writes in
      let kept = writes.kept_by_interrupted w₁ ∙ silent in
      let (exits, answered) = report_error-written t e w₂ writes laws up in
      simp (calm w₁, named, coded, same_t)
        (exits, answered ∙ ap (λ x. x ++ wire (protocol_error_response e)) kept)
