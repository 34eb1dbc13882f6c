-- ===== src/App/ClientMain/Connecting.antt =====
-- PacketForge_V1/apps/client_main.cpp: `main` from the connection to its end, when no call fails.
use thread_pool.Base.{
  ℕ, ◌≡◌, refl, ◌∙◌, ap, List, ◌++◌, some, none, true, false, ℤ, pos, is_negative, arith,
  Bool-cases, inl, inr,
}
use thread_pool.Error.{ok, no_error}
use thread_pool.Endian.{Endianness}
use thread_pool.Packet.{Packet, Fits, new_packet, is_valid}
use thread_pool.Codec.Wire.{wire}
use thread_pool.Os.{Os, Sends, Receives}
use thread_pool.Socket
use thread_pool.Connection
use thread_pool.Connection.{connect_open}
use thread_pool.Transport
use thread_pool.Transport.Reliable.{Reliable}
use thread_pool.PacketIo.Quiet.{receive_packet-written}
use thread_pool.Client
use thread_pool.Client.{Client, new_client}
use thread_pool.Client.Exchange.{not_established, disconnect-new_client, send-wire}
use thread_pool.App.ClientMain.{request, print_payload, finishes, wind_up, talk, main}
use thread_pool.App.ClientMain.Greeting.{request-Fits, talk-finishes}

-- A machine where the program gets a descriptor and its connection is established: neither call
-- fails, and they do not touch the two streams.
pub record Connects {W : Type 0} (os : Os W) (fd : ℕ) (incoming written : W → List ℕ) : Type 0 where
  pub opens : (w : W) → (os.socket w).0 ≡ pos fd
  pub resolves : (ip : ℕ) × (os.inet_pton "127.0.0.1" ≡ some ip)
  pub connects : (ip port : ℕ) (w : W) → is_negative (os.connect (pos fd) ip port w).0 ≡ false
  pub read_by_socket : (w : W) → incoming (os.socket w).1 ≡ incoming w
  pub read_by_connect :
      (ip port : ℕ) (w : W) → incoming (os.connect (pos fd) ip port w).1 ≡ incoming w
  pub written_by_socket : (w : W) → written (os.socket w).1 ≡ written w
  pub written_by_connect :
      (ip port : ℕ) (w : W) → written (os.connect (pos fd) ip port w).1 ≡ written w
  pub written_by_close : (d : ℤ) (w : W) → written (os.close d w) ≡ written w

module _ {W : Type 0} (os : Os W) (host : Endianness) (fd : ℕ) (incoming written : W → List ℕ)
    (laws : Connects os fd incoming written) where
  abbrev established : Client
  established = record {
    transport = record {
      connection = record { socket = record { descriptor = pos fd }; connected = true };
    };
  }

  connect_open-connects :
      (w : W)
      → connect_open os
          (record { socket = record { descriptor = pos fd }; connected = false })
          "127.0.0.1"
          9090
          w
        ≡ (
          no_error,
          established.transport.connection,
          (os.connect (pos fd) laws.resolves.0 9090 w).1,
        )
  unfolding connect_open
  connect_open-connects w =
      let (ip, found) = laws.resolves in
      rw (found, connect_open) (simp (laws.connects ip 9090 w) refl)

  connect_establishes :
      (w : W)
      → let (e, c, w') = Client.connect os new_client "127.0.0.1" 9090 w in
        (e ≡ no_error) × (c ≡ established) × (incoming w' ≡ incoming w) × (written w' ≡ written w)
  unfolding Client.connect Connection.connect Socket.create
  connect_establishes w =
      let w₁ = (os.socket w).1 in
      let ip = laws.resolves.0 in
      simp (laws.opens w, connect_open-connects w₁)
        (
          refl,
          refl,
          laws.read_by_connect ip 9090 w₁ ∙ laws.read_by_socket w,
          laws.written_by_connect ip 9090 w₁ ∙ laws.written_by_socket w,
        )

  disconnect-written : (c : Client) (w : W) → written (Client.disconnect os c w).1 ≡ written w
  unfolding Client.disconnect Connection.disconnect Socket.close
  disconnect-written c w =
      ground (arith, laws.written_by_close c.transport.connection.socket.descriptor w)

  destroy-written : (c : Client) (w : W) → written (Client.destroy os c w) ≡ written w
  unfolding Client.destroy Transport.destroy Connection.destroy Connection.disconnect Socket.close
  destroy-written c w =
      let fd' = c.transport.connection.socket.descriptor in
      ground (arith, laws.written_by_close fd' w, laws.written_by_close fd' (os.close fd' w))

  module _ (writes : Sends os (pos fd) written) (reads : Receives os (pos fd) incoming)
      (reliable : Reliable os (pos fd)) where
    wind_up-written :
        (c : Client) (response : Packet) (w : W)
        → written (wind_up os host c response w).2 ≡ written w
    unfolding wind_up Client.send Client.receive
    wind_up-written c response w =
        let w₁ = (Client.disconnect os c (os.wait_enter w)).1 in
        simp (disconnect-new_client os c (os.wait_enter w)) (
          disconnect-written new_client w₁
          ∙ disconnect-written c (os.wait_enter w)
          ∙ writes.kept_by_wait_enter w)

    receive-written :
        (old : Packet) (w : W) → written (Client.receive os host established old w).3 ≡ written w
    unfolding Client.receive
    receive-written old w =
        receive_packet-written os host established.transport old none w written writes

    talk-written : (w : W) → written (talk os host established w).2 ≡ written w ++ wire request
    unfolding talk is_valid
    talk-written w =
        let (g, u) = request-Fits in
        let (good, sent, _) =
          send-wire os host established written incoming writes reads reliable refl request w g u in
        let w₁ = (Client.send os host established request w).1 in
        let (e, response, c₁, w₂) = Client.receive os host established new_packet w₁ in
        let kept = receive-written new_packet w₁ ∙ sent in
        elim (Bool-cases (ok e)) [
          | inl arrived ↦ simp (good, arrived) (wind_up-written c₁ response w₂ ∙ kept)
          | inr failed ↦ simp (good, failed) (disconnect-written c₁ w₂ ∙ kept)
        ]

    -- Whatever arrives, the program writes its request and nothing else.
    pub main-written : (w : W) → written (main os host w).1 ≡ written w ++ wire request
    unfolding main
    main-written w =
        let (e, c, w₁) = Client.connect os new_client "127.0.0.1" 9090 w in
        let (good, same, _, kept) = connect_establishes w in
        let (ending, c', w₂) = talk os host established w₁ in
        simp (good, same)
          (destroy-written c' w₂ ∙ talk-written w₁ ∙ ap (λ x. x ++ wire request) kept)

    -- The answer at the front of the stream is what the program prints.
    pub main-finishes :
        (answer : Packet) (rest : List ℕ) (w : W)
        → Fits answer
        → is_valid answer ≡ true
        → incoming w ≡ wire answer ++ rest
        → (main os host w).0 ≡ finishes (print_payload answer) not_established not_established
    unfolding main
    main-finishes answer rest w f v stream =
        let (e, c, w₁) = Client.connect os new_client "127.0.0.1" 9090 w in
        let (good, same, unread, _) = connect_establishes w in
        simp (good, same)
          (talk-finishes os host established written incoming writes reads reliable refl answer rest
            w₁ f v (unread ∙ stream)).1
