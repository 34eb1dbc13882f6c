-- ===== src/App/MalformedPacket/Cleanup.antt =====
-- PacketForge_V1/apps/packetforge_malformed_packet_client.cpp: what becomes of the descriptors, those of
-- the listener and of the accepted peer included.
use thread_pool.Base.{
  if◌then◌else◌, ℕ, ◌+◌, ◌≤◌, ◌≡◌, ℤ, List, some, false, is_negative, is_minus_one, Bool-cases, inl,
  inr, arith, all_shorter,
}
use thread_pool.Error.{ok}
use thread_pool.Endian.{Endianness}
use thread_pool.Opcode.{invalid_packet}
use thread_pool.Packet.{new_packet}
use thread_pool.Os.{Os, Descriptors, one_at}
use thread_pool.Socket.Ownership.{holds}
use thread_pool.Connection
use thread_pool.Connection.{Connection, new_connection}
use thread_pool.Connection.Lifecycle
use thread_pool.Transport.{Transport, of_connection}
use thread_pool.PacketIo
use thread_pool.PacketIo.Ownership.{receive_packet-Balanced}
use thread_pool.App.Probe.{Conversions, send_all}
use thread_pool.App.Probe.Loops.{send_all-opened}
use thread_pool.App.MalformedPacket.Listener.{create_listener-opened, close_socket-opened}
use thread_pool.App.MalformedPacket.{
  close_socket, create_listener, receives_error, feed_peer, connect_and_feed,
  test_packet_io_propagation, main, make_invalid_magic_packet,
}

module _ {W : Type 0} (os : Os W) (d : ℤ) (opened : W → ℕ) (laws : Descriptors os d opened)
    (fails_so : (w : W) → is_negative (os.socket w).0 ≡ is_minus_one (os.socket w).0) where
  -- How often an accepted descriptor holds `d`.
  abbrev pub peer : ℤ → ℕ
  peer fd = if is_negative fd then 0 else one_at fd d

  module _ (host : Endianness) where
    receives_error-Balanced :
        (t : Transport) (w : W)
        → holds t.connection.socket d ≤ opened w
        → let (passed, t', w') = receives_error os host t w in
          opened w' + holds t.connection.socket d ≡ opened w + holds t'.connection.socket d
    unfolding receives_error
    receives_error-Balanced t w h =
        let (e, packet, code, t₁, w₁) =
          PacketIo.receive os host t new_packet (some invalid_packet) w in
        let got =
          receive_packet-Balanced os host d opened laws t new_packet (some invalid_packet) w h in
        ground (
          arith,
          got,
          Lifecycle.disconnect-Balanced os d opened laws t₁.connection w₁ (omega (arith, got)),
        )

    feed_peer-closes :
        (bytes : List ℕ) (fd peer_fd : ℤ) (c : Connection) (w : W)
        → is_negative fd ≡ false
        → holds c.socket d + one_at fd d + peer peer_fd ≤ opened w
        → opened (feed_peer os host bytes fd peer_fd c w).1
            + holds c.socket d
            + one_at fd d
            + peer peer_fd
          ≡ opened w
    unfolding feed_peer
    feed_peer-closes bytes fd peer_fd c w good room = elim (Bool-cases (is_negative peer_fd)) [
      | inl bad ↦
          let (c', w') = Connection.disconnect os c w in
          let closed = Lifecycle.disconnect-Balanced os d opened laws c w (omega (arith, room)) in
          let shut = close_socket-opened os d opened laws fails_so fd w' good in
          simp bad (
            omega (
              arith,
              room,
              closed,
              shut,
              Lifecycle.destroy_closes os d opened laws c' (close_socket os fd w')
                  (omega (arith, room, closed, shut)),
            ))
      | inr fine ↦
          let whole : holds c.socket d + one_at fd d + one_at peer_fd d ≤ opened w =
            ground (arith, fine, room) in
          let w₀ = close_socket os fd w in
          let shut = close_socket-opened os d opened laws fails_so fd w good in
          let (sent, w₁) = send_all os peer_fd bytes (all_shorter bytes) w₀ in
          let kept = send_all-opened os peer_fd d opened laws bytes w₀ in
          let w₂ = close_socket os peer_fd w₁ in
          let gone = close_socket-opened os d opened laws fails_so peer_fd w₁ fine in
          let (c', w₃) = Connection.disconnect os c w₂ in
          let closed =
            Lifecycle.disconnect-Balanced os d opened laws c w₂
              (omega (arith, whole, shut, kept, gone)) in
          let dropped =
            Lifecycle.destroy_closes os d opened laws c' w₃
              (omega (arith, whole, shut, kept, gone, closed)) in
          let (t, left) = of_connection c in
          let (passed, t', w₄) = receives_error os host t w₂ in
          let ran = receives_error-Balanced t w₂ (omega (arith, whole, shut, kept, gone)) in
          let ended =
            Lifecycle.destroy_closes os d opened laws t'.connection w₄
              (omega (arith, whole, shut, kept, gone, ran)) in
          let w₅ = Connection.destroy os t'.connection w₄ in
          let emptied = Lifecycle.destroy_closes os d opened laws left w₅ (omega arith) in
          simp fine (elim (Bool-cases sent) [
            | inr bad ↦ simp bad (omega (arith, whole, shut, kept, gone, closed, dropped))
            | inl all ↦ simp all (omega (arith, whole, shut, kept, gone, ran, ended, emptied))
          ])
    ]

    connect_and_feed-closes :
        (bytes : List ℕ) (fd : ℤ) (port : ℕ) (w : W)
        → is_negative fd ≡ false
        → one_at fd d ≤ opened w
        → opened (connect_and_feed os host bytes fd port w).1 + one_at fd d ≡ opened w
    unfolding connect_and_feed
    connect_and_feed-closes bytes fd port w good room =
        let (connected, c, w₁) = Connection.connect os new_connection "127.0.0.1" port w in
        let made = Lifecycle.connect-Balanced os d opened laws new_connection "127.0.0.1" port w in
        let shut = close_socket-opened os d opened laws fails_so fd w₁ good in
        let dropped =
          Lifecycle.destroy_closes os d opened laws c (close_socket os fd w₁)
            (omega (arith, room, made, shut)) in
        let (peer_fd, w₂) = os.accept fd w₁ in
        let got = laws.by_accept fd w₁ in
        let fed = feed_peer-closes bytes fd peer_fd c w₂ good (omega (arith, room, made, got)) in
        elim (Bool-cases (ok connected)) [
          | inr bad ↦ simp bad (omega (arith, room, made, shut, dropped))
          | inl fine ↦ simp fine (omega (arith, made, got, fed))
        ]

    pub test_packet_io_propagation-closes :
        (bytes : List ℕ) (w : W) → opened (test_packet_io_propagation os host bytes w).1 ≡ opened w
    unfolding test_packet_io_propagation
    test_packet_io_propagation-closes bytes w =
        let w₁ = (create_listener os w).1 in
        elim (create_listener-opened os d opened laws fails_so w) [
          | inl (failed, same) ↦ rw (failed, test_packet_io_propagation) same
          | inr (fd, port, made, good, more) ↦
              rw (made, test_packet_io_propagation)
                (omega (
                  arith,
                  more,
                  connect_and_feed-closes bytes fd port w₁ good (omega (arith, more)),
                ))
        ]

    pub malformed_main-closes :
        (calls : Conversions) (w : W) → opened (main os host calls w).1 ≡ opened w
    unfolding main
    malformed_main-closes calls w =
        ground (arith, test_packet_io_propagation-closes (make_invalid_magic_packet host calls) w)
