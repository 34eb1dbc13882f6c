-- ===== src/App/MalformedPacket.antt =====
-- PacketForge_V1/apps/packetforge_malformed_packet_client.cpp: a program that checks what the decoder and
-- PacketIO make of malformed packets, the latter over a connection to a listener of its own. Console
-- output is left out. Its `sendAll` is the loop of App/Probe.
pub mod Rejects
pub mod Listener
pub mod Cleanup
use thread_pool.Base.{
  ℕ, List, [], ◌∷◌, Bool, true, false, not, ◌&&◌, ◌==◌, if◌then◌else◌, Option, none, some, String,
  codes, ℤ, pos, is_negative, all_shorter,
}
use thread_pool.Error.{Error, ErrorCode, ok, protocol_error}
use thread_pool.Endian.{Endianness}
use thread_pool.Exception.{
  Outcome, returns, throws, protocol_decode_error, invalid_argument, runtime_error,
}
use thread_pool.Opcode.{
  ProtocolError, invalid_packet, invalid_payload, protocol_error_value, opcode_value, hello_request,
}
use thread_pool.Packet.{Packet, magic_number, current_version, new_packet}
use thread_pool.Codec.{decode}
use thread_pool.Config.{same_text}
use thread_pool.Os.{Os}
use thread_pool.Connection
use thread_pool.Connection.{Connection, new_connection, disconnect}
use thread_pool.Transport.{Transport, of_connection}
use thread_pool.PacketIo
use thread_pool.App.ServerMain.{is_protocol_error, code_or}
use thread_pool.App.Probe.{Conversions, write_at, write_uint16, write_uint32, zeroes, send_all}

module _ (host : Endianness) where
  -- What the `try` block of `expectProtocolDecodeError` ends with.
  abbrev is_expected : Outcome Packet → ProtocolError → String → Bool
  is_expected (returns packet) e message = false
  is_expected (throws (protocol_decode_error e' what)) e message =
      (protocol_error_value e' == protocol_error_value e) && same_text (codes what) (codes message)
  is_expected (throws (invalid_argument what)) e message = false
  is_expected (throws (runtime_error what)) e message = false

  unfoldable pub expect_protocol_decode_error : List ℕ → ProtocolError → String → Bool
  expect_protocol_decode_error bytes e message = is_expected (decode host bytes) e message

  module _ (calls : Conversions) where
    unfoldable pub make_invalid_magic_packet : List ℕ
    unfolding write_uint16 write_uint32
    make_invalid_magic_packet =
        let packet = write_uint32 calls host zeroes 0 0xDEADBEEF in
        let packet₁ = write_at (write_at packet 4 (current_version ∷ [])) 5 (0 ∷ []) in
        let packet₂ = write_uint16 calls host packet₁ 6 (opcode_value hello_request) in
        write_uint32 calls host (write_uint32 calls host packet₂ 8 1) 12 0

    -- The header announces four bytes that are not there.
    unfoldable pub make_payload_mismatch_packet : List ℕ
    unfolding write_uint16 write_uint32
    make_payload_mismatch_packet =
        let packet = write_uint32 calls host zeroes 0 magic_number in
        let packet₁ = write_at (write_at packet 4 (current_version ∷ [])) 5 (0 ∷ []) in
        let packet₂ = write_uint16 calls host packet₁ 6 (opcode_value hello_request) in
        write_uint32 calls host (write_uint32 calls host packet₂ 8 1) 12 4

abbrev pub truncated_header : List ℕ
truncated_header = 0x50 ∷ 0x46 ∷ 0x4B ∷ 0x54 ∷ 0x01 ∷ 0x00 ∷ 0x00 ∷ 0x01 ∷ []

module _ {W : Type 0} (os : Os W) where
  unfoldable pub close_socket : ℤ → W → W
  close_socket fd w = if is_negative fd then w else os.close fd w

  -- `createListener`: the descriptor and its port, or `none` for false, where the descriptor is closed.
  unfoldable pub create_listener : W → Option (ℤ × ℕ) × W
  create_listener w =
      let (fd, w₁) = os.socket w in
      if is_negative fd
      then (none, w₁)
      else (let (reuse, w₂) = os.set_reuse_address fd w₁ in
          if is_negative reuse
          then (none, close_socket fd w₂)
          else (let (bound, w₃) = os.bind fd 0x7F000001 0 w₂ in
              if is_negative bound
              then (none, close_socket fd w₃)
              else (let (listening, w₄) = os.listen fd (pos 1) w₃ in
                  if is_negative listening
                  then (none, close_socket fd w₄)
                  else (let (port, w₅) = os.getsockname fd w₄ in
                      elim port [
                        | none ↦ (none, close_socket fd w₅)
                        | some p ↦ (some (fd, p), w₅)
                      ]))))

  module _ (host : Endianness) where
    -- From the transport on: PacketIO has to report a protocol error, an invalid packet.
    unfoldable pub receives_error : Transport → W → Bool × Transport × W
    receives_error t w =
        let (e, packet, code, t₁, w₁) =
          PacketIo.receive os host t new_packet (some invalid_packet) w in
        let (c, w₂) = disconnect os t₁.connection w₁ in
        if ok e
        then (false, record { connection = c }, w₂)
        else if not (is_protocol_error e.code)
        then (false, record { connection = c }, w₂)
        else if not (protocol_error_value (code_or code) == protocol_error_value invalid_packet)
        then (false, record { connection = c }, w₂)
        else (true, record { connection = c }, w₂)

    -- From the accepted peer on; the transport and what is left of the connection are destroyed.
    unfoldable pub feed_peer : List ℕ → ℤ → ℤ → Connection → W → Bool × W
    feed_peer bytes listening_fd peer_fd c w =
        if is_negative peer_fd
        then (let (c', w') = disconnect os c w in
            (false, Connection.destroy os c' (close_socket listening_fd w')))
        else (let (sent, w₁) =
              send_all os peer_fd bytes (all_shorter bytes) (close_socket listening_fd w) in
            if not sent
            then (let (c', w') = disconnect os c (close_socket peer_fd w₁) in
                (false, Connection.destroy os c' w'))
            else (let (t, left) = of_connection c in
                let (passed, t', w₂) = receives_error t (close_socket peer_fd w₁) in
                (passed, Connection.destroy os left (Connection.destroy os t'.connection w₂))))

    -- `testPacketIODecodeFailurePropagation` with a listener.
    unfoldable pub connect_and_feed : List ℕ → ℤ → ℕ → W → Bool × W
    connect_and_feed bytes listening_fd port w =
        let (connected, c, w₁) = Connection.connect os new_connection "127.0.0.1" port w in
        if not (ok connected)
        then (false, Connection.destroy os c (close_socket listening_fd w₁))
        else (let (peer_fd, w₂) = os.accept listening_fd w₁ in
            feed_peer bytes listening_fd peer_fd c w₂)

    unfoldable pub test_packet_io_propagation : List ℕ → W → Bool × W
    test_packet_io_propagation bytes w =
        let (listener, w₁) = create_listener w in
        elim listener [ none ↦ (false, w₁) | some (fd, port) ↦ connect_and_feed bytes fd port w₁ ]

    -- `main`: the exit code.
    unfoldable pub main : Conversions → W → ℕ × W
    main calls w =
        if not
          (expect_protocol_decode_error host truncated_header invalid_packet "Invalid packet size")
        then (1, w)
        else if not (
            expect_protocol_decode_error host (make_invalid_magic_packet host calls) invalid_packet
              "Invalid magic number")
        then (1, w)
        else if not (
            expect_protocol_decode_error host (make_payload_mismatch_packet host calls)
              invalid_payload "Payload size mismatch")
        then (1, w)
        else (let (passed, w') =
              test_packet_io_propagation (make_invalid_magic_packet host calls) w in
            if not passed then (1, w') else (0, w'))
