-- ===== src/App/ServerMain/Answer.antt =====
-- PacketForge_V1/apps/server_main.cpp: what the server program writes to a client that sends a packet.
use thread_pool.Base.{
  ℕ, ◌≡◌, ◌≢◌, ◌⊎◌, refl, ◌∙◌, subst, sym, List, [], ◌++◌, append-nil, some, true, false, inl, inr,
  arith,
}
use thread_pool.Error.{no_error}
use thread_pool.Endian.{Endianness}
use thread_pool.Exception.{returns}
use thread_pool.Opcode.{invalid_packet}
use thread_pool.Packet.{Packet, Fits, new_packet}
use thread_pool.Codec.{encode}
use thread_pool.Codec.Wire.{wire}
use thread_pool.Dispatch.{dispatch}
use thread_pool.Dispatch.Answers.{dispatch-answers}
use thread_pool.Os.{Os, Sends, Receives}
use thread_pool.Transport
use thread_pool.Transport.{Transport}
use thread_pool.PacketIo
use thread_pool.PacketIo.Framing.{receive-Delivered, send-Sent_packet}
use thread_pool.PacketIo.Quiet.{receive_packet-written}
use thread_pool.App.ServerMain.{serve, respond, answer_request}

-- A front part of the answer went out, and the exit code says whether it was all of it.
abbrev pub Answered : List ℕ → Packet → ℕ → List ℕ → Type 0
Answered before answer exit_code after =
    (front back : List ℕ) × (front ++ back ≡ wire answer)
    × (after ≡ before ++ front)
    × (((exit_code ≡ 0) × (back ≡ [])) ⊎ ((exit_code ≡ 1) × (back ≢ [])))

module _ {W : Type 0} (os : Os W) (host : Endianness) where
  module _ (written : W → List ℕ) (calm : (w : W) → (os.interrupted w).0 ≡ false) where
    answer_request-Answered :
        (t : Transport) (request : Packet) (w : W)
        → Sends os t.connection.socket.descriptor written
        → Transport.is_connected t ≡ true
        → Fits request
        → let (exit_code, w') = answer_request os host t request w in
          Answered (written w) (dispatch request new_packet).0 exit_code (written w')
    unfolding answer_request
    answer_request-Answered t request w laws up f =
        let (fine, v, fits, _, _) = dispatch-answers request new_packet f in
        let answer = (dispatch request new_packet).0 in
        let w₁ = (os.interrupted w).1 in
        let (e, w₂) = PacketIo.send os host t answer w₁ in
        let (front, back, split, stream, end) =
          send-Sent_packet os host t answer w₁ written laws up fits v in
        (
          front,
          back,
          split,
          ground (
            arith,
            calm w,
            calm w₂,
            fine,
            stream,
            laws.kept_by_interrupted w,
            laws.kept_by_interrupted w₂,
            laws.kept_by_wait_enter (os.interrupted w₂).1,
          ),
          ground (arith, calm w, calm w₂, fine, end),
        )

    -- If no signal arrives and the client's stream starts with a packet that some host encoded, then
    -- what the server program writes to it is a front part of the encoding of the dispatcher's answer
    -- to that very packet. The exit code is 0 if all of it was written, and 1 if some of it was not.
    pub serve-Answered :
        (sender : Endianness) (t : Transport) (request : Packet) (bytes rest : List ℕ) (w : W)
        (incoming : W → List ℕ)
        → Sends os t.connection.socket.descriptor written
        → Receives os t.connection.socket.descriptor incoming
        → Transport.is_connected t ≡ true
        → Fits request
        → encode sender request ≡ returns bytes
        → incoming w ≡ bytes ++ rest
        → let (exit_code, t', w') = serve os host t w in
          Answered (written w) (dispatch request new_packet).0 exit_code (written w')
    unfolding serve respond answer_request
    serve-Answered sender t request bytes rest w incoming writes reads up f enc stream =
        let (e, packet, code, t', w₁) =
          PacketIo.receive os host t new_packet (some invalid_packet) w in
        let w₂ = (os.interrupted w₁).1 in
        let silent =
          receive_packet-written os host t new_packet (some invalid_packet) w written writes in
        let kept = writes.kept_by_interrupted w₁ ∙ silent in
        elim (receive-Delivered os host sender t request new_packet (some invalid_packet) bytes rest
          w incoming reads up f enc stream) [
            | inl (good, same, same_t, after) ↦
                simp (calm w₁, good, same, same_t)
                  (subst
                    (λ x.
                      Answered x (dispatch request new_packet).0
                        (respond os host t no_error request code w₂).0
                        (written (respond os host t no_error request code w₂).1))
                    kept (answer_request-Answered t request w₂ writes up f))
            | inr bad ↦
                simp (calm w₁, bad)
                  (
                    [],
                    wire (dispatch request new_packet).0,
                    refl,
                    kept ∙ sym (append-nil (written w)),
                    inr (refl, λ same. cc),
                  )
          ]
