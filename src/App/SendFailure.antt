-- ===== src/App/SendFailure.antt =====
-- PacketForge_V1/apps/packetforge_transport_send_failure_client.cpp and
-- packetforge_packetio_send_failure_client.cpp: two programs that connect to a listener of their own,
-- have the peer reset the connection, and check the error that Transport or PacketIO sends with. Their
-- `main`s differ in what they send. Console output is left out. The listener is that of
-- App/MalformedPacket, which the first program has inside its `main`.
pub mod Verdict
pub mod Cleanup
use thread_pool.Base.{
  ℕ, List, [], ◌∷◌, Bool, true, false, not, ◌&&◌, if◌then◌else◌, Option, none, some, codes, ℤ, pos,
  negsuc, zero, suc, is_negative,
}
use thread_pool.Error.{Error, ok}
use thread_pool.Endian.{Endianness}
use thread_pool.Packet.{is_valid}
use thread_pool.Config.{same_text}
use thread_pool.Os.{Os}
use thread_pool.Connection
use thread_pool.Connection.{Connection, new_connection, disconnect}
use thread_pool.Transport
use thread_pool.Transport.{Transport, of_connection}
use thread_pool.Transport.Reliable.{is_socket_error}
use thread_pool.PacketIo
use thread_pool.App.ClientMain.{request}
use thread_pool.App.MalformedPacket.{close_socket, create_listener}

-- The two programs.
pub data Sender : Type 0 where
  by_transport by_packet_io : Sender

abbrev pub test_data : List ℕ
test_data = 0x50 ∷ 0x46 ∷ 0x4B ∷ 0x54 ∷ []

-- The three checks of the error.
abbrev pub is_send_failure : Error → Bool
is_send_failure e =
    not (ok e) && is_socket_error e.code && same_text (codes e.message) (codes "Send failed")

abbrev is_zero : ℤ → Bool
is_zero (pos zero) = true
is_zero (pos (suc n)) = false
is_zero (negsuc n) = false

module _ {W : Type 0} (os : Os W) where
  abbrev pub configure_abortive_close : ℤ → W → Bool × W
  configure_abortive_close fd w = let (r, w') = os.set_linger fd w in (is_zero r, w')

  unfoldable pub expect_connection_reset : Connection → W → Bool × W
  expect_connection_reset c w = elim (os.recv c.socket.descriptor 1 w).0 [
    | some bytes ↦ (false, (os.recv c.socket.descriptor 1 w).1)
    | none ↦ (let w' = (os.recv c.socket.descriptor 1 w).1 in (os.reset_reported w', w'))
  ]

  module _ (host : Endianness) (sender : Sender) where
    -- What the program sends: four bytes, or the hello request of App/ClientMain.
    abbrev pub attempt : Transport → W → Error × W
    attempt t w = elim sender [
      | by_transport ↦ Transport.send os t test_data w
      | by_packet_io ↦ PacketIo.send os host t request w
    ]

    -- From the transport on: the exit code.
    unfoldable pub judge : Transport → W → ℕ × Transport × W
    judge t w =
        let (e, w₁) = attempt t w in
        let (c, w₂) = disconnect os t.connection w₁ in
        let t' : Transport = record { connection = c } in
        if not (is_send_failure e)
        then (1, t', w₂)
        else if Transport.is_connected t'
        then (1, t', w₂)
        else (0, t', w₂)

    -- `main` once the reset is injected. The check of the packet, which the second program makes before the
    -- transport takes the connection over, is part of the last test.
    unfoldable pub observe : Connection → W → ℕ × W
    observe c w =
        let (seen, w₁) = expect_connection_reset c w in
        if not seen
        then (let (c', w') = disconnect os c w₁ in (1, Connection.destroy os c' w'))
        else if not (Connection.is_connected c && is_valid request)
        then (let (c', w') = disconnect os c w₁ in (1, Connection.destroy os c' w'))
        else (let (t, left) = of_connection c in
            let (exit_code, t', w₂) = judge t w₁ in
            (exit_code, Connection.destroy os left (Connection.destroy os t'.connection w₂)))

    -- `main` on the accepted peer.
    unfoldable pub inject : ℤ → ℤ → Connection → W → ℕ × W
    inject listening_fd peer_fd c w =
        if is_negative peer_fd
        then (let (c', w') = disconnect os c w in
            (1, Connection.destroy os c' (close_socket os listening_fd w')))
        else (let (configured, w₁) =
              configure_abortive_close peer_fd (close_socket os listening_fd w) in
            let w₂ = close_socket os peer_fd w₁ in
            if not configured
            then (let (c', w') = disconnect os c w₂ in (1, Connection.destroy os c' w'))
            else observe c w₂)

    unfoldable pub connect_and_inject : ℤ → ℕ → W → ℕ × W
    connect_and_inject listening_fd port w =
        let (connected, c, w₁) = Connection.connect os new_connection "127.0.0.1" port w in
        if not (ok connected)
        then (1, Connection.destroy os c (close_socket os listening_fd w₁))
        else if not (Connection.is_connected c)
        then (let (c', w') = disconnect os c w₁ in
            (1, Connection.destroy os c' (close_socket os listening_fd w')))
        else (let (peer_fd, w₂) = os.accept listening_fd w₁ in inject listening_fd peer_fd c w₂)

    unfoldable pub main : W → ℕ × W
    main w =
        let (ignored, w₁) = os.ignore_sigpipe w in
        if not ignored
        then (1, w₁)
        else (let (listener, w₂) = create_listener os w₁ in
            elim listener [ none ↦ (1, w₂) | some (fd, port) ↦ connect_and_inject fd port w₂ ])

  -- The two programs.
  module _ (host : Endianness) where
    abbrev pub transport_send_failure_client : W → ℕ × W
    transport_send_failure_client w = main host by_transport w

    abbrev pub packet_io_send_failure_client : W → ℕ × W
    packet_io_send_failure_client w = main host by_packet_io w
