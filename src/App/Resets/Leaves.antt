-- ===== src/App/Resets/Leaves.antt =====
-- PacketForge_V1/apps/packetforge_receive_failure_client.cpp, packetforge_response_send_failure_client.cpp
-- and packetforge_gap035_client.cpp: what they send, and what becomes of their descriptors.
use thread_pool.Base.{
  ℕ, ◌+◌, ◌-◌, ◌≤◌, ◌≡◌, refl, ℤ, false, is_negative, is_minus_one, Option-cases, Bool-cases, inl,
  inr, arith, List,
}
use thread_pool.Error.{ok}
use thread_pool.Endian.{Endianness}
use thread_pool.Exception.{Outcome, returns, throws}
use thread_pool.Codec.{encode}
use thread_pool.Codec.Wire.{wire}
use thread_pool.Packet.{is_valid}
use thread_pool.Os.{Os, Descriptors, one_at}
use thread_pool.Socket.Ownership.{holds}
use thread_pool.Connection
use thread_pool.Connection.{new_connection}
use thread_pool.Connection.Lifecycle
use thread_pool.Transport
use thread_pool.Transport.{Transport, of_connection}
use thread_pool.Transport.Ownership.{send-opened}
use thread_pool.App.ClientMain.{request}
use thread_pool.App.MalformedPacket.{close_socket}
use thread_pool.App.Resets.{
  packet_bytes, receive_failure_client, send_and_reset, response_send_failure_client,
  wait_and_reset, send_and_wait, gap035_client,
}

-- The bytes that packetforge_response_send_failure_client.cpp writes down are the client program's request.
pub packet_bytes-wire : packet_bytes ≡ wire request
packet_bytes-wire = refl

module _ {W : Type 0} (os : Os W) (d : ℤ) (opened : W → ℕ) (laws : Descriptors os d opened) where
  pub receive_failure_client-closes : (w : W) → opened (receive_failure_client os w).1 ≡ opened w
  unfolding receive_failure_client
  receive_failure_client-closes w =
      let (connected, c, w₁) = Connection.connect os new_connection "127.0.0.1" 9090 w in
      let made = Lifecycle.connect-Balanced os d opened laws new_connection "127.0.0.1" 9090 w in
      let w₂ = (os.set_linger c.socket.descriptor w₁).1 in
      let kept = laws.by_set_linger c.socket.descriptor w₁ in
      let (c', w₃) = Connection.disconnect os c w₂ in
      let closed =
        Lifecycle.disconnect-Balanced os d opened laws c w₂ (omega (arith, made, kept)) in
      let dropped = Lifecycle.destroy_closes os d opened laws c w₁ (omega (arith, made)) in
      let gone =
        Lifecycle.destroy_closes os d opened laws c' w₃ (omega (arith, made, kept, closed)) in
      ground (arith, made, kept, closed, dropped, gone)

  send_and_reset-closes :
      (fd : ℤ) (ip : ℕ) (w : W)
      → is_negative fd ≡ false
      → opened (send_and_reset os fd ip w).1 ≡ opened w - one_at fd d
  unfolding send_and_reset close_socket
  send_and_reset-closes fd ip w good =
      let w₁ = (os.connect fd ip 9090 w).1 in
      let w₂ = (os.send fd packet_bytes w₁).1 in
      let w₃ = (os.set_linger fd w₂).1 in
      ground (
        arith,
        good,
        laws.by_connect fd ip 9090 w,
        laws.by_send fd packet_bytes w₁,
        laws.by_set_linger fd w₂,
        laws.by_close fd w₁,
        laws.by_close fd w₂,
        laws.by_close fd w₃,
      )

  pub response_send_failure_client-closes :
      ((w : W) → is_negative (os.socket w).0 ≡ is_minus_one (os.socket w).0)
      → (w : W) → opened (response_send_failure_client os w).1 ≡ opened w
  unfolding response_send_failure_client close_socket
  response_send_failure_client-closes fails_so w =
      let (fd, w₁) = os.socket w in
      elim (Option-cases (os.inet_pton "127.0.0.1")) [
        | inl e ↦ ground (arith, e, fails_so w, laws.by_socket w, laws.by_close fd w₁)
        | inr (ip, e) ↦
            ground (arith, e, fails_so w, laws.by_socket w, send_and_reset-closes fd ip w₁)
      ]

  module _ (host : Endianness) where
    wait_and_reset-Balanced :
        (t : Transport) (w : W)
        → holds t.connection.socket d ≤ opened w
        → let (exit_code, t', w') = wait_and_reset os host t w in
          opened w' + holds t.connection.socket d ≡ opened w + holds t'.connection.socket d
    unfolding wait_and_reset
    wait_and_reset-Balanced t w h =
        let w₀ = os.wait_enter w in
        let w₁ = (os.set_linger t.connection.socket.descriptor w₀).1 in
        let kept₀ = laws.by_wait_enter w in
        let kept₁ = laws.by_set_linger t.connection.socket.descriptor w₀ in
        ground (
          arith,
          kept₀,
          kept₁,
          Lifecycle.disconnect-Balanced os d opened laws t.connection w₁
              (omega (arith, kept₀, kept₁)),
        )

    send_and_wait-Balanced :
        (o : Outcome (List ℕ)) (t : Transport) (w : W)
        → holds t.connection.socket d ≤ opened w
        → let (exit_code, t', w') = send_and_wait os host o t w in
          opened w' + holds t.connection.socket d ≡ opened w + holds t'.connection.socket d
    unfolding send_and_wait
    send_and_wait-Balanced (throws e) t w h = refl
    send_and_wait-Balanced (returns bytes) t w h =
        let (sent, w') = Transport.send os t bytes w in
        let kept = send-opened os d opened laws t bytes w in
        ground (arith, kept, wait_and_reset-Balanced t w' (omega (arith, kept)))

    pub gap035_client-closes : (w : W) → opened (gap035_client os host w).1 ≡ opened w
    unfolding gap035_client is_valid
    gap035_client-closes w =
        let (connected, c, w₁) = Connection.connect os new_connection "127.0.0.1" 9090 w in
        let made = Lifecycle.connect-Balanced os d opened laws new_connection "127.0.0.1" 9090 w in
        let dropped = Lifecycle.destroy_closes os d opened laws c w₁ (omega (arith, made)) in
        let (t, left) = of_connection c in
        let (exit_code, t', w₂) = send_and_wait os host (encode host request) t w₁ in
        let ran = send_and_wait-Balanced (encode host request) t w₁ (omega (arith, made)) in
        let gone =
          Lifecycle.destroy_closes os d opened laws t'.connection w₂ (omega (arith, made, ran)) in
        let w₃ = Connection.destroy os t'.connection w₂ in
        let emptied =
          Lifecycle.destroy_closes os d opened laws left w₃ (omega (arith, made, ran, gone)) in
        elim (Bool-cases (ok connected)) [
          | inr bad ↦ simp bad (omega (arith, made, dropped))
          | inl good ↦ simp good (omega (arith, made, ran, gone, emptied))
        ]
