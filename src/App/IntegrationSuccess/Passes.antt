-- ===== src/App/IntegrationSuccess/Passes.antt =====
-- PacketForge_V1/apps/PacketForge_integration_success_client.cpp: exactly one answer is right.
use thread_pool.Base.{ℕ, ◌≡◌, refl, ap, ◌∙◌, List, ◌++◌, true, Bool-cases, inl, inr, arith, ◌↔◌}
use thread_pool.Endian.{Endianness}
use thread_pool.Packet.{Packet, Fits, new_packet, is_valid, payload_length, magic_number}
use thread_pool.Dispatch.{dispatch}
use thread_pool.Codec.Wire.{wire}
use thread_pool.Os.{Os, Sends, Receives}
use thread_pool.Transport.Reliable.{Reliable}
use thread_pool.Client
use thread_pool.Client.{Client}
use thread_pool.Client.Exchange.{disconnect-new_client, send-wire, receive-wire}
use thread_pool.Config.{same_text}
use thread_pool.Config.Map.{same_text-≡}
use thread_pool.App.ClientMain.Greeting.{request-Fits}
use thread_pool.App.IntegrationSuccess.{
  fail, request, expected_response_payload, response_is_right, finish, converse,
}

-- The dispatcher's answer to the request.
abbrev pub greeting_packet : Packet
greeting_packet = (dispatch request new_packet).0

response_is_right-greeting : response_is_right greeting_packet ≡ true
unfolding response_is_right dispatch payload_length is_valid
response_is_right-greeting = refl

response_is_right_unique : (p : Packet) → response_is_right p ≡ true → p ≡ greeting_packet
unfolding response_is_right dispatch
response_is_right_unique p right =
    let parts : (p.magic ≡ magic_number)
        × (p.version ≡ 1)
        × (p.opcode ≡ 2)
        × (p.flags ≡ 0)
        × (p.sequence_id ≡ 1)
        × (same_text p.payload expected_response_payload ≡ true) =
      ground (arith, right) in
    let (magic, version, opcode, flags, number, text) = parts in
    let payload = same_text-≡ p.payload expected_response_payload text in cc

module _ {W : Type 0} (os : Os W) (host : Endianness) where
  finish_iff :
      (c : Client) (response : Packet) (w : W)
      → ((finish os host c response w).0 ≡ 0) ↔ (response ≡ greeting_packet)
  unfolding finish fail
  finish_iff c response w = elim (Bool-cases (response_is_right response)) [
    | inl right ↦
        let exits : (finish os host c response w).0 ≡ 0 =
          simp (right, disconnect-new_client os c w) refl in
        (λ e. response_is_right_unique response right, λ same. exits)
    | inr wrong ↦
        let fails : (finish os host c response w).0 ≡ 1 = simp wrong refl in
        (
          λ e. absurd (omega (arith, e, fails)),
          λ same.
              absurd
                (ground (arith, wrong, ap response_is_right same ∙ response_is_right-greeting)),
        )
  ]

  -- If no call fails and a packet stands at the front of the stream, a connected client exits with 0
  -- exactly if that packet is the one that the dispatcher answers its request with.
  pub converse_iff :
      (c : Client) (written incoming : W → List ℕ)
      → Sends os c.transport.connection.socket.descriptor written
      → Receives os c.transport.connection.socket.descriptor incoming
      → Reliable os c.transport.connection.socket.descriptor
      → Client.is_connected c ≡ true
      → (answer : Packet) (rest : List ℕ) (w : W) → Fits answer
      → is_valid answer ≡ true
      → incoming w ≡ wire answer ++ rest
      → ((converse os host c w).0 ≡ 0) ↔ (answer ≡ greeting_packet)
  unfolding converse is_valid
  converse_iff c written incoming writes reads laws up answer rest w f v stream =
      let (g, u) = request-Fits in
      let (good, sent, unread) =
        send-wire os host c written incoming writes reads laws up request w g u in
      let w₁ = (Client.send os host c request w).1 in
      let (arrived, same, kept, _) =
        receive-wire os host c written incoming writes reads laws up answer new_packet rest w₁ f v
          (unread ∙ stream) in
      let (e, response, c₁, w₂) = Client.receive os host c new_packet w₁ in
      simp (good, arrived, same) (finish_iff c₁ answer w₂)
