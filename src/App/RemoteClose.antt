-- ===== src/App/RemoteClose.antt =====
-- PacketForge_V1/apps/remote_close_client_main.cpp and shutdown_client_main.cpp: two clients that wait,
-- the first for the server to close the connection, the second for the operator. Of the first one's
-- console output the errors that it prints after the answer are kept; the rest is left out.
pub mod Outlives
use thread_pool.Base.{ℕ, not, if◌then◌else◌}
use thread_pool.Error.{Error, ok}
use thread_pool.Endian.{Endianness}
use thread_pool.Opcode.{opcode_value, hello_request}
use thread_pool.Packet.{
  Packet, current_version, new_packet, set_version, set_flags, set_opcode, set_sequence_id,
}
use thread_pool.Os.{Os}
use thread_pool.Connection
use thread_pool.Connection.{new_connection}
use thread_pool.Client
use thread_pool.Client.{Client, new_client}

-- `request` and `postClosePacket`, which differ in the sequence id.
abbrev pub hello : ℕ → Packet
hello n =
    set_sequence_id n (
      set_opcode (opcode_value hello_request)
        (set_flags 0 (set_version current_version new_packet)))

-- How `main` ends: with exit code 1, or with 0 after it has printed three errors.
pub data Ending : Type 0 where
  gives_up : Ending
  outlives : Error → Error → Error → Ending

module _ {W : Type 0} (os : Os W) (host : Endianness) where
  -- `main` from the answer on.
  unfoldable pub wait_for_close : Client → W → Ending × Client × W
  wait_for_close c w =
      let (closed, second, c₁, w₁) = Client.receive os host c new_packet w in
      let (sent, w₂) = Client.send os host c₁ (hello 2) w₁ in
      let (received, third, c₂, w₃) = Client.receive os host c₁ new_packet w₂ in
      let (c₃, w₄) = Client.disconnect os c₂ w₃ in (outlives closed sent received, c₃, w₄)

  -- `main` on a connected client, up to its destructor.
  unfoldable pub converse : Client → W → Ending × Client × W
  converse c w =
      let (sent, w₁) = Client.send os host c (hello 1) w in
      if not (ok sent)
      then (gives_up, c, w₁)
      else (let (received, response, c₁, w₂) = Client.receive os host c new_packet w₁ in
          if not (ok received) then (gives_up, c₁, w₂) else wait_for_close c₁ w₂)

  unfoldable pub main : W → Ending × W
  main w =
      let (connected, c, w₁) = Client.connect os new_client "127.0.0.1" 9090 w in
      if not (ok connected)
      then (gives_up, Client.destroy os c w₁)
      else (let (ending, c', w₂) = converse c w₁ in (ending, Client.destroy os c' w₂))

-- `main` of shutdown_client_main.cpp: the exit code.
unfoldable pub shutdown_client : {W : Type 0} → Os W → W → ℕ × W
shutdown_client os w =
    let (connected, c, w₁) = Connection.connect os new_connection "127.0.0.1" 9090 w in
    if not (ok connected)
    then (1, Connection.destroy os c w₁)
    else (let (c', w₂) = Connection.disconnect os c (os.wait_enter w₁) in
        (0, Connection.destroy os c' w₂))
