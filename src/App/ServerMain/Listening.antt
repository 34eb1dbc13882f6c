-- ===== src/App/ServerMain/Listening.antt =====
-- PacketForge_V1/apps/server_main.cpp: `main` from the listener to the cleanup, when no call fails.
use thread_pool.Base.{
  ℕ, ◌≡◌, refl, sym, ◌∙◌, ap, List, ◌++◌, All, Option, none, some, true, false, ℤ, pos, is_negative,
  arith, subst, Bool-cases, inl, inr,
}
use thread_pool.Error.{no_error}
use thread_pool.Endian.{Endianness, IsByte}
use thread_pool.Os.{Os, Sends, Receives}
use thread_pool.Socket
use thread_pool.Socket.{Socket, new_socket, is_positive, close, create, bind, bind_open, listen}
use thread_pool.Connection
use thread_pool.Connection.{Connection, new_connection, disconnect}
use thread_pool.Transport.{Transport, of_connection}
use thread_pool.Transport.Reliable.{Reliable}
use thread_pool.Server
use thread_pool.Server.{Server, new_server, start, note_port, accept, stop}
use thread_pool.App.ServerMain.{main, session, serve, close_transport, server_address, server_port}
use thread_pool.App.ServerMain.Promise.{promised, serve-promised}

-- A machine where the program can listen on a descriptor, and where a client connects and gets
-- another one: none of these calls fails, and none of them touches the client's two streams.
pub record Listens {W : Type 0} (os : Os W) (listener client : ℕ) (incoming written : W → List ℕ)
    : Type 0 where
  pub opens : (w : W) → (os.socket w).0 ≡ pos listener
  pub reuses : (w : W) → is_negative (os.set_reuse_address (pos listener) w).0 ≡ false
  pub resolves : (ip : ℕ) × (os.inet_pton server_address ≡ some ip)
  pub binds : (ip port : ℕ) (w : W) → is_negative (os.bind (pos listener) ip port w).0 ≡ false
  pub has_backlog : is_positive os.somaxconn ≡ true
  pub listens : (w : W) → is_negative (os.listen (pos listener) os.somaxconn w).0 ≡ false
  pub names : (w : W) → (port : ℕ) × ((os.getsockname (pos listener) w).0 ≡ some port)
  pub accepts : (w : W) → (os.accept (pos listener) w).0 ≡ pos client
  pub read_by_socket : (w : W) → incoming (os.socket w).1 ≡ incoming w
  pub read_by_reuse : (w : W) → incoming (os.set_reuse_address (pos listener) w).1 ≡ incoming w
  pub read_by_bind :
      (ip port : ℕ) (w : W) → incoming (os.bind (pos listener) ip port w).1 ≡ incoming w
  pub read_by_listen : (w : W) → incoming (os.listen (pos listener) os.somaxconn w).1 ≡ incoming w
  pub read_by_getsockname : (w : W) → incoming (os.getsockname (pos listener) w).1 ≡ incoming w
  pub read_by_accept : (w : W) → incoming (os.accept (pos listener) w).1 ≡ incoming w
  pub read_by_interrupted : (w : W) → incoming (os.interrupted w).1 ≡ incoming w
  pub written_by_socket : (w : W) → written (os.socket w).1 ≡ written w
  pub written_by_reuse : (w : W) → written (os.set_reuse_address (pos listener) w).1 ≡ written w
  pub written_by_bind :
      (ip port : ℕ) (w : W) → written (os.bind (pos listener) ip port w).1 ≡ written w
  pub written_by_listen : (w : W) → written (os.listen (pos listener) os.somaxconn w).1 ≡ written w
  pub written_by_getsockname : (w : W) → written (os.getsockname (pos listener) w).1 ≡ written w
  pub written_by_accept : (w : W) → written (os.accept (pos listener) w).1 ≡ written w
  pub written_by_close : (fd : ℤ) (w : W) → written (os.close fd w) ≡ written w

module _ {W : Type 0} (os : Os W) (host : Endianness) (listener client : ℕ)
    (incoming written : W → List ℕ) (laws : Listens os listener client incoming written) where
  abbrev Untouched : W → W → Type 0
  Untouched w w' = (incoming w' ≡ incoming w) × (written w' ≡ written w)

  abbrev running : ℕ → Server
  running port = record {
    socket = record { descriptor = pos listener };
    running = true;
    port = port;
  }

  abbrev listening : Socket
  listening = record { descriptor = pos listener }

  create_opens : (w : W) → create os new_socket w ≡ (no_error, listening, (os.socket w).1)
  unfolding create
  create_opens w = simp (laws.opens w) refl

  bind_binds :
      (port : ℕ) (w : W)
      → let w₁ = (os.set_reuse_address (pos listener) w).1 in
        let w₂ = (os.bind (pos listener) laws.resolves.0 port w₁).1 in
        bind os listening server_address port w ≡ (no_error, listening, w₂)
  unfolding bind bind_open
  bind_binds port w =
      let w₁ = (os.set_reuse_address (pos listener) w).1 in
      let (ip, found) = laws.resolves in simp (laws.reuses w, found, laws.binds ip port w₁) refl

  listen_listens :
      (w : W)
      → listen os listening os.somaxconn w ≡ (no_error, (os.listen (pos listener) os.somaxconn w).1)
  unfolding listen
  listen_listens w = simp (laws.has_backlog, laws.listens w) refl

  note_port_notes :
      (w : W)
      → note_port os (record new_server { socket = listening }) w
        ≡ (no_error, running (laws.names w).0, (os.getsockname (pos listener) w).1)
  unfolding note_port
  note_port_notes w = rw ((laws.names w).1, note_port)

  -- The program's server starts, and the client's streams stay as they are.
  start_runs :
      (w : W)
      → let (e, s, w') = start os new_server server_address server_port w in
        (e ≡ no_error) × ((port : ℕ) × (s ≡ running port)) × Untouched w w'
  unfolding start
  start_runs w =
      let w₁ = (os.socket w).1 in
      let ip = laws.resolves.0 in
      let w₂ = (os.set_reuse_address (pos listener) w₁).1 in
      let w₃ = (os.bind (pos listener) ip server_port w₂).1 in
      let w₄ = (os.listen (pos listener) os.somaxconn w₃).1 in
      simp (create_opens w, bind_binds server_port w₁, listen_listens w₃, note_port_notes w₄)
        (
          refl,
          ((laws.names w₄).0, refl),
          (
            laws.read_by_getsockname w₄
                ∙ laws.read_by_listen w₃
                ∙ laws.read_by_bind ip server_port w₂
                ∙ laws.read_by_reuse w₁
                ∙ laws.read_by_socket w,
            laws.written_by_getsockname w₄
                ∙ laws.written_by_listen w₃
                ∙ laws.written_by_bind ip server_port w₂
                ∙ laws.written_by_reuse w₁
                ∙ laws.written_by_socket w,
          ),
        )

  abbrev accepted : Connection
  accepted = record { socket = record { descriptor = pos client }; connected = true }

  accept_connects :
      (port : ℕ) (w : W)
      → let (e, c, w') = accept os (running port) new_connection w in
        (e ≡ no_error) × (c ≡ accepted) × Untouched w w'
  unfolding accept Connection.accept Socket.accept close
  accept_connects port w =
      simp (laws.accepts w) (refl, refl, (laws.read_by_accept w, laws.written_by_accept w))

  disconnect-written : (c : Connection) (w : W) → written (disconnect os c w).1 ≡ written w
  unfolding disconnect close
  disconnect-written c w = ground (arith, laws.written_by_close c.socket.descriptor w)

  destroy-written : (c : Connection) (w : W) → written (Connection.destroy os c w) ≡ written w
  unfolding Connection.destroy close
  destroy-written c w =
      let (c', w') = disconnect os c w in
      ground (arith, disconnect-written c w, laws.written_by_close c'.socket.descriptor w')

  stop-written : (s : Server) (w : W) → written (stop os s w).1 ≡ written w
  unfolding stop close
  stop-written s w = ground (arith, laws.written_by_close s.socket.descriptor w)

  destroy_server-written : (s : Server) (w : W) → written (Server.destroy os s w) ≡ written w
  unfolding Server.destroy close
  destroy_server-written s w =
      let (s', w') = stop os s w in
      ground (arith, stop-written s w, laws.written_by_close s'.socket.descriptor w')

  close_transport-written :
      (t : Option Transport) (w : W) → written (close_transport os host t w) ≡ written w
  unfolding close_transport
  close_transport-written none w = refl
  close_transport-written (some t) w =
      let (c, w') = disconnect os t.connection w in
      destroy-written c w' ∙ disconnect-written t.connection w

  abbrev served : Transport
  served = record { connection = accepted }

  module _ (writes : Sends os (pos client) written) (reads : Receives os (pos client) incoming)
      (reliable : Reliable os (pos client)) (calm : (w : W) → (os.interrupted w).0 ≡ false) where
    session-promised :
        (w : W)
        → All IsByte (incoming w)
        → let (exit_code, t, s, w') = session os host new_server w in
          (exit_code ≡ (promised (incoming w)).0)
          × (written w' ≡ written w ++ (promised (incoming w)).1)
    unfolding session
    session-promised w bytes =
        let (e, s, w₁) = start os new_server server_address server_port w in
        let (started, (port, runs), (read₁, written₁)) = start_runs w in
        let w₂ = (os.interrupted w₁).1 in
        let (connects, accepts, (read₃, written₃)) = accept_connects port w₂ in
        let w₃ = (accept os (running port) new_connection w₂).2 in
        let w₄ = (os.interrupted w₃).1 in
        let same_in : incoming w₄ ≡ incoming w =
          laws.read_by_interrupted w₃ ∙ read₃ ∙ laws.read_by_interrupted w₁ ∙ read₁ in
        let same_out : written w₄ ≡ written w =
          writes.kept_by_interrupted w₃ ∙ written₃ ∙ writes.kept_by_interrupted w₁ ∙ written₁ in
        let (exits, answered) =
          serve-promised os host written calm served incoming writes reads reliable refl w₄
            (subst (λ xs. All IsByte xs) (sym same_in) bytes) in
        let left = (of_connection accepted).1 in
        let w₅ = (serve os host served w₄).2 in
        simp (started, runs, calm w₁, calm w₃, connects, accepts)
          (
            exits ∙ ap (λ x. (promised x).0) same_in,
            destroy-written left w₅
                ∙ answered
                ∙ ap (λ x. x ++ (promised (incoming w₄)).1) same_out
                ∙ ap (λ x. written w ++ (promised x).1) same_in,
          )

    pub main-promised :
        (w : W)
        → All IsByte (incoming w)
        → let (exit_code, w') = main os host w in
          (exit_code ≡ (promised (incoming w)).0)
          × (written w' ≡ written w ++ (promised (incoming w)).1)
    unfolding main
    main-promised w bytes =
        let (exit_code, t, s, w₁) = session os host new_server w in
        let (exits, answered) = session-promised w bytes in
        let w₂ = close_transport os host t w₁ in
        let closed = close_transport-written t w₁ ∙ answered in
        let (s', w₃) = stop os s w₂ in
        (
          ground (arith, exits),
          elim (Bool-cases s.running) [
            | inl on ↦ simp on (destroy_server-written s' w₃ ∙ stop-written s w₂ ∙ closed)
            | inr off ↦ simp off (destroy_server-written s w₂ ∙ closed)
          ],
        )
