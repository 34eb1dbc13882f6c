-- ===== src/App/Probe/Cleanup.antt =====
-- PacketForge_V1/apps/packetforge_protocol_error_client.cpp and packetforge_dispatch_failure_client.cpp:
-- the descriptor that `main` opens.
use thread_pool.Base.{
  if◌then◌else◌, ℕ, ◌-◌, ◌≡◌, List, [], Option, none, some, ℤ, Option-cases, is_negative,
  is_minus_one, arith, all_shorter, all_below, inl, inr,
}
use thread_pool.Endian.{Endianness}
use thread_pool.Os.{Os, Descriptors, one_at}
use thread_pool.App.Probe.{
  Conversions, Probe, make_header, send_all, receive_all, judge, check_answer, converse, attach,
  main,
}
use thread_pool.App.Probe.Loops.{send_all-opened, receive_all-opened}

module _ {W : Type 0} (os : Os W) (calls : Conversions) (host : Endianness) (p : Probe) (d : ℤ)
    (opened : W → ℕ) (laws : Descriptors os d opened) where
  judge-closes :
      (fd : ℤ) (header : List ℕ) (payload : Option (List ℕ)) (w : W)
      → opened (judge os calls host p fd header payload w).1 ≡ opened w - one_at fd d
  unfolding judge
  judge-closes fd header none w = laws.by_close fd w
  judge-closes fd header (some payload) w = ground (arith, laws.by_close fd w)

  check_answer-closes :
      (fd : ℤ) (answer : Option (List ℕ)) (w : W)
      → opened (check_answer os calls host p fd answer w).1 ≡ opened w - one_at fd d
  unfolding check_answer
  check_answer-closes fd none w = laws.by_close fd w
  check_answer-closes fd (some header) w =
      let (payload, w') = receive_all os fd 1 (all_below 1) [] w in
      ground (
        arith,
        laws.by_close fd w,
        judge-closes fd header payload w',
        receive_all-opened os fd d opened laws 1 w,
      )

  converse-closes :
      (fd : ℤ) (w : W) → opened (converse os calls host p fd w).1 ≡ opened w - one_at fd d
  unfolding converse
  converse-closes fd w =
      let header = make_header calls host p in
      let (sent, w₁) = send_all os fd header (all_shorter header) w in
      let w₂ = (if p.half_closes then os.shutdown_write fd w₁ else w₁) in
      let (answer, w₃) = receive_all os fd 16 (all_below 16) [] w₂ in
      ground (
        arith,
        send_all-opened os fd d opened laws header w,
        laws.by_close fd w₁,
        laws.by_shutdown_write fd w₁,
        receive_all-opened os fd d opened laws 16 w₂,
        check_answer-closes fd answer w₃,
      )

  attach-closes : (fd : ℤ) (w : W) → opened (attach os calls host p fd w).1 ≡ opened w - one_at fd d
  unfolding attach
  attach-closes fd w = elim (Option-cases (os.inet_pton "127.0.0.1")) [
    | inl e ↦ rw (e, attach) (laws.by_close fd w)
    | inr (ip, e) ↦
        let w' = (os.connect fd ip 9090 w).1 in
        ground (arith, e, laws.by_connect fd ip 9090 w, laws.by_close fd w', converse-closes fd w')
  ]

  -- Whatever the operating system answers, where a call of `socket` that fails returns -1, both probes
  -- leave every descriptor open exactly as often as they found it, on each way out.
  pub probe_main-closes :
      ((w : W) → is_negative (os.socket w).0 ≡ is_minus_one (os.socket w).0)
      → (w : W) → opened (main os calls host p w).1 ≡ opened w
  unfolding main
  probe_main-closes fails_so w =
      let (fd, w') = os.socket w in
      ground (arith, fails_so w, laws.by_socket w, attach-closes fd w')
