-- ===== src/App/Together/Probes.antt =====
-- PacketForge_V1/apps/packetforge_protocol_error_client.cpp and packetforge_dispatch_failure_client.cpp
-- against server_main.cpp, each on a machine of its own.
use thread_pool.Base.{
  ℕ, ◌<◌, ◌^◌, ◌≡◌, ◌∙◌, ap, sym, refl, List, [], ◌∷◌, ◌++◌, append-nil, true, false, ℤ, arith,
  all_shorter,
}
use thread_pool.Endian.{Endianness}
use thread_pool.Exception.{throws, protocol_decode_error}
use thread_pool.Opcode.{unsupported_version}
use thread_pool.Packet.{Fits, new_packet, is_valid}
use thread_pool.Dispatch.{dispatch}
use thread_pool.Codec.{decode}
use thread_pool.Codec.Wire.{wire, encode-wire}
use thread_pool.Codec.Header.{IsFrame, decode-parse, parse}
use thread_pool.Os.{Os, Sends, Receives}
use thread_pool.Transport
use thread_pool.Transport.{Transport}
use thread_pool.Transport.Reliable.{Reliable}
use thread_pool.App.ServerMain.{serve, protocol_error_response}
use thread_pool.App.ServerMain.Success.{serve-succeeds}
use thread_pool.App.ServerMain.Refusal.{serve-refuses}
use thread_pool.App.Probe.{
  Conversions, Probe, protocol_error_probe, dispatch_failure_probe, make_header, send_all, converse,
}
use thread_pool.App.Probe.Verdict.{
  NetworkOrder, probe_packet, expected_header, send_all-header, converse-passes,
}

-- The two programs, each with the exit code that the server program ends with for it.
pub data Planned : Probe → ℕ → Type 0 where
  wrong_version : Planned protocol_error_probe 1
  wrong_opcode : Planned dispatch_failure_probe 0

pub Planned-fits :
    (p : Probe) (exit_code : ℕ)
    → Planned p exit_code
    → (p.opcode < 2 ^ 16) × (p.expected_sequence_id < 2 ^ 32)
Planned-fits _ _ wrong_version = omega arith
Planned-fits _ _ wrong_opcode = omega arith

-- What each probe sends and waits for, in numbers.
pub refused-IsFrame : IsFrame (wire (probe_packet protocol_error_probe)) []
refused-IsFrame = record { front_bytes = ground arith; front_size = refl; announced = refl }

pub refused_version :
    (host : Endianness)
    → decode host (wire (probe_packet protocol_error_probe) ++ [])
      ≡ throws (protocol_decode_error unsupported_version "Unsupported protocol version")
unfolding parse
refused_version host =
    decode-parse host (wire (probe_packet protocol_error_probe) ++ []) (ground arith) ∙ refl

pub dispatched-Fits :
    Fits (probe_packet dispatch_failure_probe)
    × (is_valid (probe_packet dispatch_failure_probe) ≡ true)
unfolding is_valid
dispatched-Fits = (ground arith, refl)

dispatched-expected :
    wire (dispatch (probe_packet dispatch_failure_probe) new_packet).0
    ≡ expected_header dispatch_failure_probe ++ (2 ∷ [])
unfolding dispatch
dispatched-expected = refl

module _ {S : Type 0} (os : Os S) (host : Endianness)
    (calm : (s : S) → (os.interrupted s).0 ≡ false) (t : Transport) (served taken : S → List ℕ)
    (writes : Sends os t.connection.socket.descriptor served)
    (reads : Receives os t.connection.socket.descriptor taken)
    (laws : Reliable os t.connection.socket.descriptor) (up : Transport.is_connected t ≡ true) where
  pub serve-expected :
      (p : Probe) (exit_code : ℕ)
      → Planned p exit_code
      → (s : S) → served s ≡ []
      → taken s ≡ wire (probe_packet p)
      → ((serve os host t s).0 ≡ exit_code)
        × (served (serve os host t s).2 ≡ expected_header p ++ (p.expected_error ∷ []))
  serve-expected _ _ wrong_version s fresh stream =
      let (exits, answered) =
        serve-refuses os host served calm t taken writes reads laws up
          (wire (probe_packet protocol_error_probe)) [] [] unsupported_version
          "Unsupported protocol version" s refused-IsFrame (refused_version host) stream in
      (exits, answered ∙ ap (λ x. x ++ wire (protocol_error_response unsupported_version)) fresh)
  serve-expected _ _ wrong_opcode s fresh stream =
      let (f, v) = dispatched-Fits in
      let request = probe_packet dispatch_failure_probe in
      let (exits, answered) =
        serve-succeeds os host calm served host t request (wire request) [] s taken writes reads
          laws up f (encode-wire host request f v) (stream ∙ sym (append-nil (wire request))) in
      (
        exits,
        answered ∙ ap (λ x. x ++ wire (dispatch request new_packet).0) fresh ∙ dispatched-expected,
      )

  module _ {C : Type 0} (client_os : Os C) (client_host : Endianness) (calls : Conversions)
      (order : NetworkOrder calls client_host) (fd : ℤ) where
    -- If no call fails on either side, no signal arrives at the server, nothing was sent before, the server
    -- reads what the probe's header put on its stream, and the probe then reads what the server has
    -- written: the probe exits with 0, and the server program with 1 for the wrong version and with 0 for
    -- the wrong opcode.
    pub serve-converse :
        (written incoming : C → List ℕ)
        → Sends client_os fd written
        → Receives client_os fd incoming
        → Reliable client_os fd
        → (p : Probe) (exit_code : ℕ) → Planned p exit_code
        → (s : S) (w : C) → served s ≡ []
        → written w ≡ []
        → let header = make_header calls client_host p in
          let w₁ = (send_all client_os fd header (all_shorter header) w).1 in
          taken s ≡ written w₁
          → incoming w ≡ served (serve os host t s).2
          → ((serve os host t s).0 ≡ exit_code)
            × ((converse client_os calls client_host p fd w).0 ≡ 0)
    serve-converse written incoming sends receives reliable p exit_code planned s w fresh_s fresh_w
          there back =
        let (opcode_fits, number_fits) = Planned-fits p exit_code planned in
        let (_, sent) =
          send_all-header calls client_host order p number_fits client_os fd reliable written sends
            opcode_fits w in
        let (exits, answered) =
          serve-expected p exit_code planned s fresh_s
            (there ∙ sent ∙ ap (λ x. x ++ wire (probe_packet p)) fresh_w) in
        (
          exits,
          converse-passes calls client_host order p number_fits client_os fd reliable written
              incoming sends receives opcode_fits [] w (back ∙ answered),
        )
