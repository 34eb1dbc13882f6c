-- ===== src/App/Probe/Connecting.antt =====
-- PacketForge_V1/apps/packetforge_protocol_error_client.cpp and packetforge_dispatch_failure_client.cpp
-- from the connection to the end, when no call fails.
use thread_pool.Base.{
  ℕ, ◌<◌, ◌^◌, ◌≡◌, refl, ◌∙◌, ap, List, [], ◌∷◌, ◌++◌, Option, none, some, if◌then◌else◌, pos,
  arith, all_below, all_shorter,
}
use thread_pool.Endian.{Endianness}
use thread_pool.Codec.Wire.{wire}
use thread_pool.Os.{Os, Sends, Receives}
use thread_pool.Transport.Reliable.{Reliable}
use thread_pool.Transport.Quiet.{receive_loop-seen}
use thread_pool.App.ClientMain.Connecting.{Connects}
use thread_pool.App.Probe.{
  Conversions, Probe, make_header, send_all, receive_all, judge, check_answer, converse, attach,
  main,
}
use thread_pool.App.Probe.Loops.{receive_all-receive_loop}
use thread_pool.App.Probe.Verdict.{
  NetworkOrder, probe_packet, expected_header, send_all-header, converse-passes,
}

module _ {W : Type 0} (os : Os W) (calls : Conversions) (host : Endianness)
    (order : NetworkOrder calls host) (p : Probe) (fd : ℕ) (incoming written : W → List ℕ)
    (laws : Connects os fd incoming written) (writes : Sends os (pos fd) written)
    (reads : Receives os (pos fd) incoming) (reliable : Reliable os (pos fd))
    (opcode_fits : p.opcode < 2 ^ 16) (number_fits : p.expected_sequence_id < 2 ^ 32) where
  attach-connects :
      (w : W)
      → attach os calls host p (pos fd) w
        ≡ converse os calls host p (pos fd) (os.connect (pos fd) laws.resolves.0 9090 w).1
  unfolding attach
  attach-connects w =
      let (ip, found) = laws.resolves in rw (found, attach) (simp (laws.connects ip 9090 w) refl)

  receive_all-written :
      (n : ℕ) (w : W) → written (receive_all os (pos fd) n (all_below n) [] w).1 ≡ written w
  receive_all-written n w = rw (receive_all-receive_loop os (pos fd) n (all_below n) [] w) (
      receive_loop-seen os (pos fd) written writes.kept_by_recv writes.kept_by_close n (all_below n)
        [] w)

  judge-written :
      (header : List ℕ) (payload : Option (List ℕ)) (w : W)
      → written (judge os calls host p (pos fd) header payload w).1 ≡ written w
  unfolding judge
  judge-written header none w = writes.kept_by_close w
  judge-written header (some payload) w = ground (arith, writes.kept_by_close w)

  check_answer-written :
      (answer : Option (List ℕ)) (w : W)
      → written (check_answer os calls host p (pos fd) answer w).1 ≡ written w
  unfolding check_answer
  check_answer-written none w = writes.kept_by_close w
  check_answer-written (some header) w =
      let (payload, w') = receive_all os (pos fd) 1 (all_below 1) [] w in
      ground
        (arith, writes.kept_by_close w, judge-written header payload w', receive_all-written 1 w)

  converse-written :
      (w : W) → written (converse os calls host p (pos fd) w).1 ≡ written w ++ wire (probe_packet p)
  unfolding converse
  converse-written w =
      let header = make_header calls host p in
      let (sent, w₁) = send_all os (pos fd) header (all_shorter header) w in
      let (good, whole) =
        send_all-header calls host order p number_fits os (pos fd) reliable written writes
          opcode_fits w in
      let w₂ = (if p.half_closes then os.shutdown_write (pos fd) w₁ else w₁) in
      let (answer, w₃) = receive_all os (pos fd) 16 (all_below 16) [] w₂ in
      let still : written w₂ ≡ written w₁ = ground (arith, writes.kept_by_shutdown_write w₁) in
      rw good (check_answer-written answer w₃ ∙ receive_all-written 16 w₂ ∙ still ∙ whole)

  -- Whatever arrives, the probe writes its header and nothing else.
  pub probe_main-written :
      (w : W) → written (main os calls host p w).1 ≡ written w ++ wire (probe_packet p)
  unfolding main
  probe_main-written w =
      let w₁ = (os.socket w).1 in
      let ip = laws.resolves.0 in
      let w₂ = (os.connect (pos fd) ip 9090 w₁).1 in
      simp (laws.opens w, attach-connects w₁)
        (converse-written w₂
          ∙ ap (λ x. x ++ wire (probe_packet p))
              (laws.written_by_connect ip 9090 w₁ ∙ laws.written_by_socket w))

  -- The answer that the probe waits for makes it exit with 0.
  pub probe_main-passes :
      (rest : List ℕ) (w : W)
      → incoming w ≡ expected_header p ++ (p.expected_error ∷ rest)
      → (main os calls host p w).0 ≡ 0
  unfolding main
  probe_main-passes rest w stream =
      let w₁ = (os.socket w).1 in
      let ip = laws.resolves.0 in
      let w₂ = (os.connect (pos fd) ip 9090 w₁).1 in
      simp (laws.opens w, attach-connects w₁)
        (converse-passes calls host order p number_fits os (pos fd) reliable written incoming writes
          reads opcode_fits rest w₂
          (laws.read_by_connect ip 9090 w₁ ∙ laws.read_by_socket w ∙ stream))
