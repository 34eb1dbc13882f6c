-- ===== src/App/Probe/Verdict.antt =====
-- PacketForge_V1/apps/packetforge_protocol_error_client.cpp and packetforge_dispatch_failure_client.cpp:
-- what they send, and which answers they pass.
use thread_pool.Base.{
  if◌then◌else◌, ℕ, ◌+◌, ◌≤◌, ◌<◌, ◌^◌, ◌≡◌, refl, ap, ◌∙◌, List, [], ◌∷◌, ◌++◌, true, ℤ, some,
  length, take, drop, All, arith, length-take, length-drop, all_below, all_shorter,
}
use thread_pool.Endian.{
  Endianness, IsByte, object_bytes, object_value, network_bytes, network_value,
}
use thread_pool.Packet.{Packet, magic_number}
use thread_pool.Codec.Wire.{wire}
use thread_pool.Codec.Header.{field, All-take, All-drop}
use thread_pool.Os.{Os, Sends, Receives}
use thread_pool.Transport.Reliable.{Reliable}
use thread_pool.App.Probe.{
  Conversions, Probe, make_header, read_uint16, read_uint32, passed, send_all, receive_all, judge,
  check_answer, converse,
}
use thread_pool.App.Probe.Loops.{send_all-incoming, send_all-whole, receive_all-block}

-- Documented: the C library's functions convert between the host's byte order and the network's.
pub record NetworkOrder (calls : Conversions) (host : Endianness) : Type 0 where
  pub stores_short : (v : ℕ) → v < 2 ^ 16 → object_bytes host 2 (calls.htons v) ≡ network_bytes 2 v
  pub stores_long : (v : ℕ) → v < 2 ^ 32 → object_bytes host 4 (calls.htonl v) ≡ network_bytes 4 v
  pub reads_short :
      (bytes : List ℕ)
      → length bytes ≡ 2
      → All IsByte bytes
      → calls.ntohs (object_value host bytes) ≡ network_value bytes
  pub reads_long :
      (bytes : List ℕ)
      → length bytes ≡ 4
      → All IsByte bytes
      → calls.ntohl (object_value host bytes) ≡ network_value bytes

-- The packet that a probe's header stands for.
abbrev pub probe_packet : Probe → Packet
probe_packet p = record {
  magic = magic_number;
  version = p.version;
  flags = 0;
  opcode = p.opcode;
  sequence_id = 1;
  payload = [];
}

module _ (calls : Conversions) (host : Endianness) (order : NetworkOrder calls host) where
  pub make_header-wire :
      (p : Probe) → p.opcode < 2 ^ 16 → make_header calls host p ≡ wire (probe_packet p)
  unfolding make_header
  make_header-wire p h = rw (
    order.stores_long magic_number (omega arith),
    order.stores_short p.opcode h,
    order.stores_long 1 (omega arith),
    order.stores_long 0 (omega arith),
  )

  probe_uint32-field :
      (bytes : List ℕ) (offset : ℕ)
      → All IsByte bytes
      → offset + 4 ≤ length bytes
      → read_uint32 calls host bytes offset ≡ field bytes offset 4
  unfolding read_uint32
  probe_uint32-field bytes offset h fits =
      order.reads_long (take 4 (drop offset bytes))
        (omega (arith, length-take 4 (drop offset bytes), length-drop offset bytes))
        (All-take 4 (drop offset bytes) (All-drop offset bytes h))

  probe_uint16-field :
      (bytes : List ℕ) (offset : ℕ)
      → All IsByte bytes
      → offset + 2 ≤ length bytes
      → read_uint16 calls host bytes offset ≡ field bytes offset 2
  unfolding read_uint16
  probe_uint16-field bytes offset h fits =
      order.reads_short (take 2 (drop offset bytes))
        (omega (arith, length-take 2 (drop offset bytes), length-drop offset bytes))
        (All-take 2 (drop offset bytes) (All-drop offset bytes h))

-- The header of the error response that a probe waits for; its payload is the one byte behind it.
abbrev pub expected_header : Probe → List ℕ
expected_header p =
    network_bytes 4 magic_number
    ++ (1 ∷ 0 ∷ network_bytes 2 100
        ++ (network_bytes 4 p.expected_sequence_id ++ network_bytes 4 1))

network_value-bytes : (v : ℕ) → v < 2 ^ 32 → network_value (network_bytes 4 v) ≡ v
network_value-bytes v h = omega arith

expected_header-bytes : (p : Probe) → All IsByte (expected_header p)
expected_header-bytes p = ground arith

module _ (calls : Conversions) (host : Endianness) (order : NetworkOrder calls host) (p : Probe)
    (small : p.expected_sequence_id < 2 ^ 32) where
  passed-expected :
      (passed calls host p (expected_header p) p.expected_error ≡ true)
      × (read_uint32 calls host (expected_header p) 12 ≡ 1)
  unfolding passed
  passed-expected =
      let bytes = expected_header-bytes p in
      let at = λ (offset : ℕ) (fits : offset + 4 ≤ 16).
        probe_uint32-field calls host order (expected_header p) offset bytes fits in
      ground (
        arith,
        at 0 (omega arith),
        at 8 (omega arith),
        at 12 (omega arith),
        probe_uint16-field calls host order (expected_header p) 6 bytes (omega arith),
        network_value-bytes p.expected_sequence_id small,
      )

  module _ {W : Type 0} (os : Os W) (fd : ℤ) (laws : Reliable os fd) where
    check_answer-passes :
        (incoming : W → List ℕ)
        → Receives os fd incoming
        → (rest : List ℕ) (w : W) → incoming w ≡ p.expected_error ∷ rest
        → (check_answer os calls host p fd (some (expected_header p)) w).0 ≡ 0
    unfolding check_answer judge
    check_answer-passes incoming reads rest w stream =
        let (good, one) = passed-expected in
        let (whole, behind) =
          receive_all-block os fd laws incoming reads (p.expected_error ∷ []) rest w stream in
        rw (one, whole, good) refl

    pub send_all-header :
        (written : W → List ℕ)
        → Sends os fd written
        → p.opcode < 2 ^ 16
        → (w : W)
        → let header = make_header calls host p in
          let (sent, w₁) = send_all os fd header (all_shorter header) w in
          (sent ≡ true) × (written w₁ ≡ written w ++ wire (probe_packet p))
    send_all-header written writes opcode_fits w =
        let (good, taken) = send_all-whole os fd laws written writes (make_header calls host p) w in
        (good, taken ∙ ap (λ x. written w ++ x) (make_header-wire calls host order p opcode_fits))

    -- If the error response that a probe waits for is what its stream starts with, it exits with 0.
    pub converse-passes :
        (written incoming : W → List ℕ)
        → Sends os fd written
        → Receives os fd incoming
        → p.opcode < 2 ^ 16
        → (rest : List ℕ) (w : W) → incoming w ≡ expected_header p ++ (p.expected_error ∷ rest)
        → (converse os calls host p fd w).0 ≡ 0
    unfolding converse
    converse-passes written incoming writes reads opcode_fits rest w stream =
        let header = make_header calls host p in
        let (sent, w₁) = send_all os fd header (all_shorter header) w in
        let (good, taken) = send_all-header written writes opcode_fits w in
        let w₂ = (if p.half_closes then os.shutdown_write fd w₁ else w₁) in
        let still : incoming w₂ ≡ incoming w₁ = ground (arith, reads.kept_by_shutdown_write w₁) in
        let unread = send_all-incoming os fd incoming reads header w in
        let (answer, w₃) = receive_all os fd 16 (all_below 16) [] w₂ in
        let (whole, behind) =
          receive_all-block os fd laws incoming reads (expected_header p) (p.expected_error ∷ rest)
            w₂ (still ∙ unread ∙ stream) in
        rw (good, whole) (check_answer-passes incoming reads rest w₃ behind)
