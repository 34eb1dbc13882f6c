-- ===== src/App/MalformedPacket/Rejects.antt =====
-- PacketForge_V1/apps/packetforge_malformed_packet_client.cpp: its checks of the decoder pass, and its
-- check of PacketIO passes when the malformed packet arrives.
use thread_pool.Base.{
  ℕ, ◌≡◌, refl, ap, ◌∙◌, List, [], ◌∷◌, ◌++◌, true, some, arith, Bool-cases, inl, inr,
  if◌then◌else◌,
}
use thread_pool.Error.{error, protocol_error}
use thread_pool.Endian.{Endianness, network_bytes}
use thread_pool.Exception.{throws, protocol_decode_error}
use thread_pool.Opcode.{invalid_packet, invalid_payload}
use thread_pool.Packet.{magic_number, new_packet}
use thread_pool.Codec.{decode}
use thread_pool.Codec.Header.{decode-parse, parse, IsFrame, IsFrame-announces}
use thread_pool.Os.{Os, Receives}
use thread_pool.Transport
use thread_pool.Transport.{Transport}
use thread_pool.Transport.Reliable.{Reliable}
use thread_pool.PacketIo
use thread_pool.PacketIo.{received}
use thread_pool.PacketIo.Reliable.{receive_frame}
use thread_pool.App.Probe.{Conversions}
use thread_pool.App.Probe.Verdict.{NetworkOrder}
use thread_pool.App.MalformedPacket.{
  expect_protocol_decode_error, make_invalid_magic_packet, make_payload_mismatch_packet,
  truncated_header, receives_error, test_packet_io_propagation, main,
}

-- A header with this magic number and this length, on the wire.
abbrev pub header_of : ℕ → ℕ → List ℕ
header_of magic size =
    network_bytes 4 magic
    ++ (1 ∷ 0 ∷ network_bytes 2 1 ++ (network_bytes 4 1 ++ network_bytes 4 size))

module _ (host : Endianness) where
  truncated-refused :
      expect_protocol_decode_error host truncated_header invalid_packet "Invalid packet size" ≡ true
  unfolding expect_protocol_decode_error parse
  truncated-refused = rw (decode-parse host truncated_header (ground arith)) refl

  pub magic-refused :
      decode host (header_of 0xDEADBEEF 0)
      ≡ throws (protocol_decode_error invalid_packet "Invalid magic number")
  unfolding parse
  magic-refused = decode-parse host (header_of 0xDEADBEEF 0) (ground arith) ∙ refl

  size-refused :
      decode host (header_of magic_number 4)
      ≡ throws (protocol_decode_error invalid_payload "Payload size mismatch")
  unfolding parse
  size-refused = decode-parse host (header_of magic_number 4) (ground arith) ∙ refl

  module _ (calls : Conversions) (order : NetworkOrder calls host) where
    pub make_invalid_magic_packet-header :
        make_invalid_magic_packet host calls ≡ header_of 0xDEADBEEF 0
    unfolding make_invalid_magic_packet
    make_invalid_magic_packet-header = rw (
      order.stores_long 0xDEADBEEF (omega arith),
      order.stores_short 1 (omega arith),
      order.stores_long 1 (omega arith),
      order.stores_long 0 (omega arith),
    )

    make_payload_mismatch_packet-header :
        make_payload_mismatch_packet host calls ≡ header_of magic_number 4
    unfolding make_payload_mismatch_packet
    make_payload_mismatch_packet-header = rw (
      order.stores_long magic_number (omega arith),
      order.stores_short 1 (omega arith),
      order.stores_long 1 (omega arith),
      order.stores_long 4 (omega arith),
    )

    magic-expected :
        expect_protocol_decode_error host
          (make_invalid_magic_packet host calls)
          invalid_packet
          "Invalid magic number"
        ≡ true
    unfolding expect_protocol_decode_error
    magic-expected = rw (make_invalid_magic_packet-header, magic-refused) refl

    size-expected :
        expect_protocol_decode_error host
          (make_payload_mismatch_packet host calls)
          invalid_payload
          "Payload size mismatch"
        ≡ true
    unfolding expect_protocol_decode_error
    size-expected = rw (make_payload_mismatch_packet-header, size-refused) refl

    -- Whatever the operating system does, the program's three checks of the decoder pass on every host, so
    -- that it exits with 0 exactly where its check of PacketIO passes on the packet with the wrong magic
    -- number.
    pub main-test_packet_io_propagation :
        {W : Type 0} (os : Os W) (w : W)
        → let (passed, w') = test_packet_io_propagation os host (header_of 0xDEADBEEF 0) w in
          main os host calls w ≡ ((if passed then 0 else 1), w')
    unfolding main
    main-test_packet_io_propagation os w =
        elim (Bool-cases (test_packet_io_propagation os host (header_of 0xDEADBEEF 0) w).0) [
          | inl passed ↦
              rw
                (
                  truncated-refused, magic-expected, size-expected,
                  make_invalid_magic_packet-header, passed,
                )
                refl
          | inr not_passed ↦
              rw
                (
                  truncated-refused, magic-expected, size-expected,
                  make_invalid_magic_packet-header, not_passed,
                )
                refl
        ]

magic-IsFrame : IsFrame (header_of 0xDEADBEEF 0) []
magic-IsFrame = record { front_bytes = ground arith; front_size = refl; announced = refl }

-- If no call fails and the packet with the wrong magic number is what the stream starts with, PacketIO
-- reports what the program waits for, so its check of PacketIO passes.
pub receives_error-magic :
    {W : Type 0} (os : Os W) (host : Endianness) (t : Transport) (incoming : W → List ℕ)
    → Receives os t.connection.socket.descriptor incoming
    → Reliable os t.connection.socket.descriptor
    → Transport.is_connected t ≡ true
    → (rest : List ℕ) (w : W) → incoming w ≡ header_of 0xDEADBEEF 0 ++ rest
    → (receives_error os host t w).0 ≡ true
unfolding receives_error received
receives_error-magic os host t incoming reads laws up rest w stream =
    let (e, packet, code, t', w₁) = PacketIo.receive os host t new_packet (some invalid_packet) w in
    let (error_is, _, code_is, _, _) =
      receive_frame os host t incoming reads laws up (header_of 0xDEADBEEF 0) []
        (IsFrame-announces host (header_of 0xDEADBEEF 0) [] magic-IsFrame) refl new_packet
        (some invalid_packet) rest w stream in
    let refused = magic-refused host in
    let named : e ≡ error protocol_error "Invalid magic number" =
      error_is ∙ ap (λ o. (received o new_packet (some invalid_packet)).0) refused in
    let coded : code ≡ some invalid_packet =
      code_is ∙ ap (λ o. (received o new_packet (some invalid_packet)).2) refused in
    simp (named, coded) refl
