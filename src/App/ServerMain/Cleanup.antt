-- ===== src/App/ServerMain/Cleanup.antt =====
-- PacketForge_V1/apps/server_main.cpp: what becomes of the descriptors on each way out of `main`.
use thread_pool.Base.{ℕ, ◌+◌, ◌≤◌, ◌≡◌, Option, some, none, ℤ, Bool-cases, inl, inr, arith}
use thread_pool.Error.{Error, ok}
use thread_pool.Endian.{Endianness}
use thread_pool.Opcode.{ProtocolError, invalid_packet}
use thread_pool.Packet.{Packet, new_packet}
use thread_pool.Dispatch.{dispatch}
use thread_pool.Os.{Os, Descriptors}
use thread_pool.Socket.Ownership.{holds}
use thread_pool.Connection.{Connection, new_connection, disconnect}
use thread_pool.Connection.Lifecycle
use thread_pool.Transport.{Transport, of_connection}
use thread_pool.PacketIo
use thread_pool.PacketIo.Ownership.{send-kept, receive_packet-Balanced}
use thread_pool.Server
use thread_pool.Server.{Server, new_server, start, accept, stop}
use thread_pool.Server.Lifecycle.{start-Balanced, stop-Balanced, stop_twice}
use thread_pool.App.ServerMain.{
  main, session, serve, respond, report_error, answer_request, close_transport,
  protocol_error_response, server_address, server_port, code_or,
}

module _ {W : Type 0} (os : Os W) (host : Endianness) (d : ℤ) (opened : W → ℕ)
    (laws : Descriptors os d opened) where
  report_error-opened :
      (t : Transport) (e : ProtocolError) (w : W) → opened (report_error os host t e w).1 ≡ opened w
  unfolding report_error
  report_error-opened t e w =
      let sent = PacketIo.send os host t (protocol_error_response e) w in
      ground (
        arith,
        send-kept os host d opened laws t (protocol_error_response e) w,
        laws.by_interrupted sent.1,
      )

  answer_request-opened :
      (t : Transport) (request : Packet) (w : W)
      → opened (answer_request os host t request w).1 ≡ opened w
  unfolding answer_request
  answer_request-opened t request w =
      let response = (dispatch request new_packet).0 in
      let w₁ = (os.interrupted w).1 in
      let w₂ = (PacketIo.send os host t response w₁).1 in
      ground (
        arith,
        laws.by_interrupted w,
        send-kept os host d opened laws t response w₁,
        laws.by_interrupted w₂,
        laws.by_wait_enter (os.interrupted w₂).1,
      )

  respond-opened :
      (t : Transport) (e : Error) (request : Packet) (code : Option ProtocolError) (w : W)
      → opened (respond os host t e request code w).1 ≡ opened w
  unfolding respond
  respond-opened t e request code w =
      ground (arith, report_error-opened t (code_or code) w, answer_request-opened t request w)

  serve-Balanced :
      (t : Transport) (w : W)
      → holds t.connection.socket d ≤ opened w
      → let (exit_code, t', w') = serve os host t w in
        opened w' + holds t.connection.socket d ≡ opened w + holds t'.connection.socket d
  unfolding serve
  serve-Balanced t w h =
      let (e, request, code, t', w₁) =
        PacketIo.receive os host t new_packet (some invalid_packet) w in
      let w₂ = (os.interrupted w₁).1 in
      ground (
        arith,
        receive_packet-Balanced os host d opened laws t new_packet (some invalid_packet) w h,
        laws.by_interrupted w₁,
        respond-opened t' e request code w₂,
      )

  accept_server-Balanced :
      (s : Server) (c : Connection) (w : W)
      → holds c.socket d ≤ opened w
      → let (e, c', w') = accept os s c w in
        opened w' + holds c.socket d ≡ opened w + holds c'.socket d
  unfolding accept
  accept_server-Balanced s c w h =
      ground (arith, Lifecycle.accept-Balanced os d opened laws c s.socket w h)

  abbrev held : Option Transport → ℕ
  held none = 0
  held (some t) = holds t.connection.socket d

  close_transport-closes :
      (t : Option Transport) (w : W)
      → held t ≤ opened w
      → opened (close_transport os host t w) + held t ≡ opened w
  unfolding close_transport
  close_transport-closes none w h = omega arith
  close_transport-closes (some t) w h =
      let (c, w') = disconnect os t.connection w in
      let closed = Lifecycle.disconnect-Balanced os d opened laws t.connection w h in
      omega (arith, closed, Lifecycle.destroy_closes os d opened laws c w' (omega (arith, closed)))

  -- The scope from the accepted connection on.
  session-Balanced :
      (server : Server) (w : W)
      → holds server.socket d ≤ opened w
      → let (exit_code, t, server', w') = session os host server w in
        opened w' + holds server.socket d ≡ opened w + held t + holds server'.socket d
  unfolding session
  session-Balanced server w h =
      let (e₁, server₁, w₁) = start os server server_address server_port w in
      let started = start-Balanced os d opened laws server server_address server_port w h in
      let (stop₁, w₂) = os.interrupted w₁ in
      let kept₂ = laws.by_interrupted w₁ in
      let (e₃, c, w₃) = accept os server₁ new_connection w₂ in
      let accepted = accept_server-Balanced server₁ new_connection w₂ (omega arith) in
      let (stop₂, w₄) = os.interrupted w₃ in
      let kept₄ = laws.by_interrupted w₃ in
      let unused = Lifecycle.destroy_closes os d opened laws new_connection w₂ (omega arith) in
      let room : holds c.socket d ≤ opened w₄ = omega (arith, accepted, kept₄) in
      let dropped = Lifecycle.destroy_closes os d opened laws c w₄ room in
      let (t, left) = of_connection c in
      let served = serve-Balanced t w₄ room in
      let emptied =
        Lifecycle.destroy_closes os d opened laws left (serve os host t w₄).2 (omega arith) in
      elim (Bool-cases (ok e₁)) [
        | inr bad₁ ↦ simp bad₁ (omega (arith, started))
        | inl good₁ ↦ simp good₁ (elim (Bool-cases stop₁) [
          | inl out ↦ simp out (omega (arith, started, kept₂, unused))
          | inr on ↦ simp on (elim (Bool-cases stop₂) [
            | inl out ↦ simp out (omega (arith, started, kept₂, accepted, kept₄, dropped))
            | inr on' ↦ simp on' (elim (Bool-cases (ok e₃)) [
              | inr bad₃ ↦ simp bad₃ (omega (arith, started, kept₂, accepted, kept₄, dropped))
              | inl good₃ ↦
                  simp good₃ (omega (arith, started, kept₂, accepted, kept₄, served, emptied))
            ])
          ])
        ])
      ]

  -- Whatever the operating system answers, and whenever the signal arrives, `main` leaves every
  -- descriptor open exactly as often as it found it: no exit path leaks or closes too much.
  pub main_closes_all : (w : W) → opened (main os host w).1 ≡ opened w
  unfolding main
  main_closes_all w =
      let (exit_code, t, server, w₁) = session os host new_server w in
      let ran = session-Balanced new_server w (omega arith) in
      let w₂ = close_transport os host t w₁ in
      let closed = close_transport-closes t w₁ (omega (arith, ran)) in
      let room : holds server.socket d ≤ opened w₂ = omega (arith, ran, closed) in
      let (server', w₃) = stop os server w₂ in
      let stopped = stop-Balanced os d opened laws server w₂ room in
      elim (Bool-cases server.running) [
        | inl on ↦ simp on (
            rw (stop_twice os server w₂).0 (
              omega (
                arith,
                ran,
                closed,
                stopped,
                Server.Lifecycle.destroy_closes os d opened laws new_server w₃ (omega arith),
              )))
        | inr off ↦ simp off (
            omega
              (arith, ran, closed, Server.Lifecycle.destroy_closes os d opened laws server w₂ room))
      ]
