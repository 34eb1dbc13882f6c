-- ===== src/App/ServerMain/Success.antt =====
-- PacketForge_V1/apps/server_main.cpp when no call on the client's descriptor fails.
use thread_pool.Base.{
  ℕ, ◌≡◌, ◌∙◌, ap, sym, List, [], ◌++◌, append-nil, some, true, false, inl, inr, arith,
}
use thread_pool.Endian.{Endianness}
use thread_pool.Exception.{returns}
use thread_pool.Opcode.{invalid_packet}
use thread_pool.Packet.{Packet, Fits, new_packet}
use thread_pool.Codec.{encode}
use thread_pool.Codec.Wire.{wire}
use thread_pool.Dispatch.{dispatch}
use thread_pool.Dispatch.Answers.{dispatch-answers}
use thread_pool.Os.{Os, Sends, Receives}
use thread_pool.Transport
use thread_pool.Transport.{Transport}
use thread_pool.Transport.Reliable.{Reliable}
use thread_pool.PacketIo
use thread_pool.PacketIo.Framing.{receive-Delivered}
use thread_pool.PacketIo.Reliable.{send_packet-ok, receive_packet-is_socket_error}
use thread_pool.App.ServerMain.{serve, respond, answer_request}
use thread_pool.App.ServerMain.Answer.{serve-Answered}

module _ {W : Type 0} (os : Os W) (host : Endianness)
    (calm : (w : W) → (os.interrupted w).0 ≡ false) where
  answer_request-exit :
      (t : Transport) (request : Packet) (w : W)
      → Reliable os t.connection.socket.descriptor
      → Transport.is_connected t ≡ true
      → Fits request
      → (answer_request os host t request w).0 ≡ 0
  unfolding answer_request
  answer_request-exit t request w laws up f =
      let (fine, v, fits, _, _) = dispatch-answers request new_packet f in
      let answer = (dispatch request new_packet).0 in
      let w₁ = (os.interrupted w).1 in
      let w₂ = (PacketIo.send os host t answer w₁).1 in
      ground (arith, calm w, calm w₂, fine, send_packet-ok os host t answer w₁ laws up fits v)

  module _ (written : W → List ℕ) where
    -- If no receive fails, every send takes at least one byte and no signal arrives, then a client
    -- whose stream starts with a packet that some host encoded gets the whole encoding of the
    -- dispatcher's answer to it and nothing else, and the exit code is 0.
    pub serve-succeeds :
        (sender : Endianness) (t : Transport) (request : Packet) (bytes rest : List ℕ) (w : W)
        (incoming : W → List ℕ)
        → Sends os t.connection.socket.descriptor written
        → Receives os t.connection.socket.descriptor incoming
        → Reliable os t.connection.socket.descriptor
        → Transport.is_connected t ≡ true
        → Fits request
        → encode sender request ≡ returns bytes
        → incoming w ≡ bytes ++ rest
        → let (exit_code, t', w') = serve os host t w in
          (exit_code ≡ 0) × (written w' ≡ written w ++ wire (dispatch request new_packet).0)
    unfolding serve respond answer_request
    serve-succeeds sender t request bytes rest w incoming writes reads laws up f enc stream =
        let (exit_code, t', w') = serve os host t w in
        let (e, packet, code, t₁, w₁) =
          PacketIo.receive os host t new_packet (some invalid_packet) w in
        let w₂ = (os.interrupted w₁).1 in
        let succeeded : exit_code ≡ 0 =
          elim (receive-Delivered os host sender t request new_packet (some invalid_packet) bytes
            rest w incoming reads up f enc stream) [
              | inl (good, same, same_t, after) ↦
                  simp (calm w₁, good, same, same_t) (answer_request-exit t request w₂ laws up f)
              | inr bad ↦
                  let reliable =
                    receive_packet-is_socket_error os host t new_packet (some invalid_packet) w
                      laws in
                  absurd (ground (arith, bad, reliable))
            ] in
        let (front, back, split, stream', end) =
          serve-Answered os host written calm sender t request bytes rest w incoming writes reads up
            f enc stream in
        let none_left : back ≡ [] = elim end [
          | inl (_, empty) ↦ empty
          | inr (one, _) ↦ absurd (omega (arith, sym succeeded ∙ one))
        ] in
        let whole : front ≡ wire (dispatch request new_packet).0 =
          sym (append-nil front) ∙ ap (λ b. front ++ b) (sym none_left) ∙ split in
        (succeeded, stream' ∙ ap (λ b. written w ++ b) whole)
