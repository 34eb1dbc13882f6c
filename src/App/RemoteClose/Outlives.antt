-- ===== src/App/RemoteClose/Outlives.antt =====
-- PacketForge_V1/apps/remote_close_client_main.cpp: a client whose server has closed the connection; and
-- the descriptors of this client and of shutdown_client_main.cpp.
use thread_pool.Base.{ℕ, ◌≡◌, ◌≤◌, refl, ◌∙◌, List, [], ◌++◌, true, ℤ, Bool-cases, inl, inr, arith}
use thread_pool.Error.{ok, error, connection_closed}
use thread_pool.Endian.{Endianness}
use thread_pool.Packet.{Packet, Fits, new_packet, is_valid}
use thread_pool.Codec.Wire.{wire}
use thread_pool.Os.{Os, Sends, Receives, Descriptors}
use thread_pool.Connection
use thread_pool.Connection.Lifecycle
use thread_pool.Connection.{new_connection}
use thread_pool.Transport.Reliable.{Reliable}
use thread_pool.Client
use thread_pool.Client.{Client, new_client}
use thread_pool.Client.Exchange.{
  not_established, send-wire, receive-wire, receive_at_end, send-new_client, receive-new_client,
}
use thread_pool.Client.Ownership.{
  held_by, Kept, disconnect_client-Kept, send_client-opened, receive_client-Kept,
  destroy_client-closes, connect_client-Kept,
}
use thread_pool.App.RemoteClose.{
  hello, Ending, outlives, wait_for_close, converse, main, shutdown_client,
}

hello-Fits : Fits (hello 1) × (is_valid (hello 1) ≡ true)
unfolding is_valid
hello-Fits = (ground arith, refl)

module _ {W : Type 0} (os : Os W) (host : Endianness) where
  abbrev outlived : Ending
  outlived =
      outlives (error connection_closed "Connection closed by peer") not_established not_established

  wait_for_close-outlives :
      (c : Client) (w : W)
      → (Client.receive os host c new_packet w).0
        ≡ error connection_closed "Connection closed by peer"
      → (Client.receive os host c new_packet w).2 ≡ new_client
      → (wait_for_close os host c w).0 ≡ outlived
  unfolding wait_for_close
  wait_for_close-outlives c w closed fresh =
      let w₁ = (Client.receive os host c new_packet w).3 in
      simp
        (
          closed,
          fresh,
          send-new_client os host (hello 2) w₁,
          receive-new_client os host new_packet w₁,
        )
        refl

  -- If no call fails and the stream holds one packet and then ends, a connected client reports that the
  -- peer has closed the connection, and after that refuses to send and to receive for want of one.
  pub converse-outlives :
      (c : Client) (written incoming : W → List ℕ)
      → Sends os c.transport.connection.socket.descriptor written
      → Receives os c.transport.connection.socket.descriptor incoming
      → Reliable os c.transport.connection.socket.descriptor
      → Client.is_connected c ≡ true
      → (answer : Packet) (w : W) → Fits answer
      → is_valid answer ≡ true
      → incoming w ≡ wire answer ++ []
      → (converse os host c w).0
        ≡ outlives
            (error connection_closed "Connection closed by peer")
            not_established
            not_established
  unfolding converse
  converse-outlives c written incoming writes reads laws up answer w f v stream =
      let (g, u) = hello-Fits in
      let (good, _, unread) =
        send-wire os host c written incoming writes reads laws up (hello 1) w g u in
      let w₁ = (Client.send os host c (hello 1) w).1 in
      let (arrived, _, kept, behind) =
        receive-wire os host c written incoming writes reads laws up answer new_packet [] w₁ f v
          (unread ∙ stream) in
      let w₂ = (Client.receive os host c new_packet w₁).3 in
      let (closed, fresh) =
        receive_at_end os host c written incoming writes reads laws up new_packet w₂ behind in
      simp (good, arrived, kept) (wait_for_close-outlives c w₂ closed fresh)

  module _ (d : ℤ) (opened : W → ℕ) (laws : Descriptors os d opened) where
    wait_for_close-Kept :
        (c : Client) (w : W)
        → held_by os host d opened laws c ≤ opened w
        → let (ending, c', w') = wait_for_close os host c w in Kept os host d opened laws c w c' w'
    unfolding wait_for_close
    wait_for_close-Kept c w h =
        let (closed, second, c₁, w₁) = Client.receive os host c new_packet w in
        let first = receive_client-Kept os host d opened laws c new_packet w h in
        let w₂ = (Client.send os host c₁ (hello 2) w₁).1 in
        let kept = send_client-opened os host d opened laws c₁ (hello 2) w₁ in
        let (received, third, c₂, w₃) = Client.receive os host c₁ new_packet w₂ in
        let next =
          receive_client-Kept os host d opened laws c₁ new_packet w₂ (omega (arith, first, kept)) in
        omega (
          arith,
          first,
          kept,
          next,
          disconnect_client-Kept os host d opened laws c₂ w₃ (omega (arith, first, kept, next)),
        )

    converse-Kept :
        (c : Client) (w : W)
        → held_by os host d opened laws c ≤ opened w
        → let (ending, c', w') = converse os host c w in Kept os host d opened laws c w c' w'
    unfolding converse
    converse-Kept c w h =
        let (sent, w₁) = Client.send os host c (hello 1) w in
        let kept = send_client-opened os host d opened laws c (hello 1) w in
        let (received, response, c₁, w₂) = Client.receive os host c new_packet w₁ in
        let got = receive_client-Kept os host d opened laws c new_packet w₁ (omega (arith, kept)) in
        elim (Bool-cases (ok sent)) [
          | inr bad ↦ simp bad (omega (arith, kept))
          | inl good ↦ simp good (elim (Bool-cases (ok received)) [
            | inr bad ↦ simp bad (omega (arith, kept, got))
            | inl fine ↦
                simp fine
                  (omega (arith, kept, got, wait_for_close-Kept c₁ w₂ (omega (arith, kept, got))))
          ])
        ]

    pub remote_close_main-closes : (w : W) → opened (main os host w).1 ≡ opened w
    unfolding main
    remote_close_main-closes w =
        let (connected, c, w₁) = Client.connect os new_client "127.0.0.1" 9090 w in
        let made = connect_client-Kept os host d opened laws new_client "127.0.0.1" 9090 w in
        let (ending, c', w₂) = converse os host c w₁ in
        let talked = converse-Kept c w₁ (omega (arith, made)) in
        elim (Bool-cases (ok connected)) [
          | inr bad ↦ simp bad (
              omega (
                arith,
                made,
                destroy_client-closes os host d opened laws c w₁ (omega (arith, made)),
              ))
          | inl good ↦ simp good (
              omega (
                arith,
                made,
                talked,
                destroy_client-closes os host d opened laws c' w₂ (omega (arith, made, talked)),
              ))
        ]

    pub shutdown_client-closes : (w : W) → opened (shutdown_client os w).1 ≡ opened w
    unfolding shutdown_client
    shutdown_client-closes w =
        let (connected, c, w₁) = Connection.connect os new_connection "127.0.0.1" 9090 w in
        let made = Lifecycle.connect-Balanced os d opened laws new_connection "127.0.0.1" 9090 w in
        let kept = laws.by_wait_enter w₁ in
        let (c', w₂) = Connection.disconnect os c (os.wait_enter w₁) in
        let closed =
          Lifecycle.disconnect-Balanced os d opened laws c (os.wait_enter w₁)
            (omega (arith, made, kept)) in
        elim (Bool-cases (ok connected)) [
          | inr bad ↦ simp bad (
              omega
                (arith, made, Lifecycle.destroy_closes os d opened laws c w₁ (omega (arith, made))))
          | inl good ↦ simp good (
              omega (
                arith,
                made,
                kept,
                closed,
                Lifecycle.destroy_closes os d opened laws c' w₂ (omega (arith, made, kept, closed)),
              ))
        ]
