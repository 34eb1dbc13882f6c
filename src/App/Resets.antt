-- ===== src/App/Resets.antt =====
-- PacketForge_V1/apps/packetforge_receive_failure_client.cpp, packetforge_response_send_failure_client.cpp
-- and packetforge_gap035_client.cpp: three clients that reset their connection to the server, before a
-- request, after one, and after one when the operator says so. Console output is left out.
pub mod Leaves
use thread_pool.Base.{
  ℕ, List, [], ◌∷◌, ◌++◌, Bool, true, false, not, ◌==◌, if◌then◌else◌, none, some, codes, ℤ, pos,
  negsuc, is_negative, length,
}
use thread_pool.Error.{ok}
use thread_pool.Endian.{Endianness}
use thread_pool.Exception.{Outcome, returns, throws}
use thread_pool.Packet.{is_valid}
use thread_pool.Codec.{encode}
use thread_pool.Os.{Os}
use thread_pool.Connection
use thread_pool.Connection.{new_connection, disconnect}
use thread_pool.Transport
use thread_pool.Transport.{Transport, of_connection}
use thread_pool.App.ClientMain.{request}
use thread_pool.App.MalformedPacket.{close_socket}
use thread_pool.App.SendFailure.{configure_abortive_close}

-- `packet` of packetforge_response_send_failure_client.cpp.
abbrev pub packet_bytes : List ℕ
packet_bytes =
    0x50
    ∷ 0x46
    ∷ 0x4B
    ∷ 0x54
    ∷ 0x01
    ∷ 0x00
    ∷ 0x00
    ∷ 0x01
    ∷ 0x00
    ∷ 0x00
    ∷ 0x00
    ∷ 0x01
    ∷ 0x00
    ∷ 0x00
    ∷ 0x00
    ∷ 0x11
    ∷ codes "Hello PacketForge"

-- Whether `send` has returned this size.
abbrev is_count : ℤ → ℕ → Bool
is_count (pos n) size = n == size
is_count (negsuc n) size = false

module _ {W : Type 0} (os : Os W) where
  unfoldable pub receive_failure_client : W → ℕ × W
  receive_failure_client w =
      let (connected, c, w₁) = Connection.connect os new_connection "127.0.0.1" 9090 w in
      if not (ok connected)
      then (1, Connection.destroy os c w₁)
      else if not (Connection.is_connected c)
      then (1, Connection.destroy os c w₁)
      else (let (r, w₂) = os.set_linger c.socket.descriptor w₁ in
          let (c', w₃) = disconnect os c w₂ in
          if is_negative r
          then (1, Connection.destroy os c' w₃)
          else if Connection.is_connected c'
          then (1, Connection.destroy os c' w₃)
          else (0, Connection.destroy os c' w₃))

  -- `main` of packetforge_response_send_failure_client.cpp, from `connect` on.
  unfoldable pub send_and_reset : ℤ → ℕ → W → ℕ × W
  send_and_reset fd ip w =
      let (r, w₁) = os.connect fd ip 9090 w in
      if is_negative r
      then (1, close_socket os fd w₁)
      else (let (sent, w₂) = os.send fd packet_bytes w₁ in
          if not (is_count sent (length packet_bytes))
          then (1, close_socket os fd w₂)
          else (let (lingers, w₃) = os.set_linger fd w₂ in
              if is_negative lingers
              then (1, close_socket os fd w₃)
              else (0, close_socket os fd w₃)))

  unfoldable pub response_send_failure_client : W → ℕ × W
  response_send_failure_client w =
      let (fd, w₁) = os.socket w in
      if is_negative fd then (1, w₁) else elim (os.inet_pton "127.0.0.1") [
        | none ↦ (1, close_socket os fd w₁)
        | some ip ↦ send_and_reset fd ip w₁
      ]

  module _ (host : Endianness) where
    -- `main` of packetforge_gap035_client.cpp, from the sent request on.
    unfoldable pub wait_and_reset : Transport → W → ℕ × Transport × W
    wait_and_reset t w =
        let (configured, w₁) =
          configure_abortive_close os t.connection.socket.descriptor (os.wait_enter w) in
        if not configured
        then (1, t, w₁)
        else (let (c, w₂) = disconnect os t.connection w₁ in (0, record { connection = c }, w₂))

    unfoldable pub send_and_wait : Outcome (List ℕ) → Transport → W → ℕ × Transport × W
    send_and_wait (throws e) t w = (1, t, w)
    send_and_wait (returns bytes) t w =
        let (sent, w') = Transport.send os t bytes w in
        if not (ok sent) then (1, t, w') else wait_and_reset t w'

    unfoldable pub gap035_client : W → ℕ × W
    gap035_client w =
        let (connected, c, w₁) = Connection.connect os new_connection "127.0.0.1" 9090 w in
        if not (ok connected)
        then (1, Connection.destroy os c w₁)
        else (let (t, left) = of_connection c in
            let (exit_code, t', w₂) =
              (if not (is_valid request)
                then (1, t, w₁)
                else send_and_wait (encode host request) t w₁) in
            (exit_code, Connection.destroy os left (Connection.destroy os t'.connection w₂)))
