-- ===== src/App/SendFailure/Cleanup.antt =====
-- PacketForge_V1/apps/packetforge_transport_send_failure_client.cpp and
-- packetforge_packetio_send_failure_client.cpp: what becomes of the descriptors.
use thread_pool.Base.{
  ℕ, ◌+◌, ◌≤◌, ◌≡◌, ◌&&◌, ℤ, false, is_negative, is_minus_one, Option-cases, Bool-cases, inl, inr,
  arith,
}
use thread_pool.Error.{ok}
use thread_pool.Endian.{Endianness}
use thread_pool.Packet.{is_valid}
use thread_pool.Os.{Os, Descriptors, one_at}
use thread_pool.Socket.Ownership.{holds}
use thread_pool.Connection
use thread_pool.Connection.{Connection, new_connection}
use thread_pool.Connection.Lifecycle
use thread_pool.Transport.{Transport, of_connection}
use thread_pool.Transport.Ownership.{send-opened}
use thread_pool.PacketIo.Ownership.{send-kept}
use thread_pool.App.ClientMain.{request}
use thread_pool.App.MalformedPacket.{close_socket, create_listener}
use thread_pool.App.MalformedPacket.Listener.{create_listener-opened, close_socket-opened}
use thread_pool.App.MalformedPacket.Cleanup.{peer}
use thread_pool.App.SendFailure.{
  Sender, by_transport, by_packet_io, test_data, attempt, judge, observe, inject,
  connect_and_inject, main, expect_connection_reset, configure_abortive_close,
}

attempt-opened :
    {W : Type 0} (os : Os W) (host : Endianness) (d : ℤ) (opened : W → ℕ)
    (laws : Descriptors os d opened) (sender : Sender) (t : Transport) (w : W)
    → opened (attempt os host sender t w).1 ≡ opened w
attempt-opened os host d opened laws by_transport t w = send-opened os d opened laws t test_data w
attempt-opened os host d opened laws by_packet_io t w = send-kept os host d opened laws t request w

module _ {W : Type 0} (os : Os W) (d : ℤ) (opened : W → ℕ) (laws : Descriptors os d opened)
    (fails_so : (w : W) → is_negative (os.socket w).0 ≡ is_minus_one (os.socket w).0)
    (host : Endianness) (sender : Sender) where
  judge-Balanced :
      (t : Transport) (w : W)
      → holds t.connection.socket d ≤ opened w
      → let (exit_code, t', w') = judge os host sender t w in
        opened w' + holds t.connection.socket d ≡ opened w + holds t'.connection.socket d
  unfolding judge
  judge-Balanced t w h =
      let w₁ = (attempt os host sender t w).1 in
      let kept = attempt-opened os host d opened laws sender t w in
      ground (
        arith,
        kept,
        Lifecycle.disconnect-Balanced os d opened laws t.connection w₁ (omega (arith, h, kept)),
      )

  expect_connection_reset-opened :
      (c : Connection) (w : W) → opened (expect_connection_reset os c w).1 ≡ opened w
  unfolding expect_connection_reset
  expect_connection_reset-opened c w = elim (Option-cases (os.recv c.socket.descriptor 1 w).0) [
    | inl e ↦ rw (e, expect_connection_reset) (laws.by_recv c.socket.descriptor 1 w)
    | inr (bytes, e) ↦ rw (e, expect_connection_reset) (laws.by_recv c.socket.descriptor 1 w)
  ]

  observe-closes :
      (c : Connection) (w : W)
      → holds c.socket d ≤ opened w
      → opened (observe os host sender c w).1 + holds c.socket d ≡ opened w
  unfolding observe
  observe-closes c w h =
      let (seen, w₁) = expect_connection_reset os c w in
      let kept = expect_connection_reset-opened c w in
      let (c', w₂) = Connection.disconnect os c w₁ in
      let closed = Lifecycle.disconnect-Balanced os d opened laws c w₁ (omega (arith, h, kept)) in
      let dropped =
        Lifecycle.destroy_closes os d opened laws c' w₂ (omega (arith, h, kept, closed)) in
      let (t, left) = of_connection c in
      let (exit_code, t', w₃) = judge os host sender t w₁ in
      let ran = judge-Balanced t w₁ (omega (arith, h, kept)) in
      let ended =
        Lifecycle.destroy_closes os d opened laws t'.connection w₃ (omega (arith, h, kept, ran)) in
      let w₄ = Connection.destroy os t'.connection w₃ in
      let emptied = Lifecycle.destroy_closes os d opened laws left w₄ (omega arith) in
      elim (Bool-cases seen) [
        | inr unseen ↦ simp unseen (omega (arith, h, kept, closed, dropped))
        | inl reset ↦ simp reset (elim (Bool-cases (c.connected && is_valid request)) [
          | inr down ↦ simp down (omega (arith, h, kept, closed, dropped))
          | inl up ↦ simp up (omega (arith, h, kept, ran, ended, emptied))
        ])
      ]

  inject-closes :
      (fd peer_fd : ℤ) (c : Connection) (w : W)
      → is_negative fd ≡ false
      → holds c.socket d + one_at fd d + peer os d opened laws fails_so peer_fd ≤ opened w
      → opened (inject os host sender fd peer_fd c w).1
          + holds c.socket d
          + one_at fd d
          + peer os d opened laws fails_so peer_fd
        ≡ opened w
  unfolding inject
  inject-closes fd peer_fd c w good room = elim (Bool-cases (is_negative peer_fd)) [
    | inl bad ↦
        let (c', w') = Connection.disconnect os c w in
        let closed = Lifecycle.disconnect-Balanced os d opened laws c w (omega (arith, room)) in
        let shut = close_socket-opened os d opened laws fails_so fd w' good in
        simp bad (
          omega (
            arith,
            room,
            closed,
            shut,
            Lifecycle.destroy_closes os d opened laws c' (close_socket os fd w')
                (omega (arith, room, closed, shut)),
          ))
    | inr fine ↦
        let whole : holds c.socket d + one_at fd d + one_at peer_fd d ≤ opened w =
          ground (arith, fine, room) in
        let w₀ = close_socket os fd w in
        let shut = close_socket-opened os d opened laws fails_so fd w good in
        let (configured, w₁) = configure_abortive_close os peer_fd w₀ in
        let kept = laws.by_set_linger peer_fd w₀ in
        let w₂ = close_socket os peer_fd w₁ in
        let gone = close_socket-opened os d opened laws fails_so peer_fd w₁ fine in
        let (c', w₃) = Connection.disconnect os c w₂ in
        let closed =
          Lifecycle.disconnect-Balanced os d opened laws c w₂
            (omega (arith, whole, shut, kept, gone)) in
        let dropped =
          Lifecycle.destroy_closes os d opened laws c' w₃
            (omega (arith, whole, shut, kept, gone, closed)) in
        let seen = observe-closes c w₂ (omega (arith, whole, shut, kept, gone)) in
        simp fine (elim (Bool-cases configured) [
          | inr bad ↦ simp bad (omega (arith, whole, shut, kept, gone, closed, dropped))
          | inl set ↦ simp set (omega (arith, whole, shut, kept, gone, seen))
        ])
  ]

  connect_and_inject-closes :
      (fd : ℤ) (port : ℕ) (w : W)
      → is_negative fd ≡ false
      → one_at fd d ≤ opened w
      → opened (connect_and_inject os host sender fd port w).1 + one_at fd d ≡ opened w
  unfolding connect_and_inject
  connect_and_inject-closes fd port w good room =
      let (connected, c, w₁) = Connection.connect os new_connection "127.0.0.1" port w in
      let made = Lifecycle.connect-Balanced os d opened laws new_connection "127.0.0.1" port w in
      let shut = close_socket-opened os d opened laws fails_so fd w₁ good in
      let dropped =
        Lifecycle.destroy_closes os d opened laws c (close_socket os fd w₁)
          (omega (arith, room, made, shut)) in
      let (c', w') = Connection.disconnect os c w₁ in
      let closed =
        Lifecycle.disconnect-Balanced os d opened laws c w₁ (omega (arith, room, made)) in
      let shut' = close_socket-opened os d opened laws fails_so fd w' good in
      let dropped' =
        Lifecycle.destroy_closes os d opened laws c' (close_socket os fd w')
          (omega (arith, room, made, closed, shut')) in
      let (peer_fd, w₂) = os.accept fd w₁ in
      let got = laws.by_accept fd w₁ in
      let ran = inject-closes fd peer_fd c w₂ good (omega (arith, room, made, got)) in
      elim (Bool-cases (ok connected)) [
        | inr bad ↦ simp bad (omega (arith, room, made, shut, dropped))
        | inl fine ↦ simp fine (elim (Bool-cases c.connected) [
          | inr down ↦ simp down (omega (arith, room, made, closed, shut', dropped'))
          | inl up ↦ simp up (omega (arith, made, got, ran))
        ])
      ]

  pub send_failure_main-closes : (w : W) → opened (main os host sender w).1 ≡ opened w
  unfolding main
  send_failure_main-closes w =
      let (ignored, w₁) = os.ignore_sigpipe w in
      let kept = laws.by_ignore_sigpipe w in
      let w₂ = (create_listener os w₁).1 in
      elim (Bool-cases ignored) [
        | inr bad ↦ simp bad kept
        | inl good ↦ simp good (elim (create_listener-opened os d opened laws fails_so w₁) [
          | inl (failed, same) ↦ simp failed (omega (arith, kept, same))
          | inr (fd, port, made, fine, more) ↦ simp made (
              omega (
                arith,
                kept,
                more,
                connect_and_inject-closes fd port w₂ fine (omega (arith, more)),
              ))
        ])
      ]
