-- ===== src/App/ClientMain.antt =====
-- PacketForge_V1/apps/client_main.cpp: one hello request, and the answer printed. Of the console
-- output the printed answer and the two errors after the disconnect are kept; the rest is left out.
pub mod Greeting
pub mod Connecting
pub mod Cleanup
use thread_pool.Base.{
  ℕ, List, [], ◌∷◌, ◌++◌, Bool, true, false, not, ◌==◌, if◌then◌else◌, codes, String, Option, none,
  some,
}
use thread_pool.Decimal.{to_string}
use thread_pool.Error.{Error, ok}
use thread_pool.Endian.{Endianness}
use thread_pool.Opcode.{opcode_value, hello_request, error_response}
use thread_pool.Packet.{
  Packet, current_version, new_packet, set_version, set_flags, set_opcode, set_sequence_id,
  set_payload, is_valid,
}
use thread_pool.Os.{Os}
use thread_pool.Client
use thread_pool.Client.{Client, new_client}

-- `protocolErrorName`, on the byte that is cast to the enumeration.
abbrev pub protocol_error_name : ℕ → List ℕ
protocol_error_name e =
    if e == 1
    then codes "InvalidPacket"
    else if e == 2
    then codes "UnsupportedOpcode"
    else if e == 3
    then codes "UnsupportedVersion"
    else if e == 4
    then codes "InvalidPayload"
    else codes "UnknownProtocolError"

abbrev print_error : List ℕ → List ℕ
print_error [] = codes "  Error: Missing error code\n"
print_error (c ∷ cs) =
    codes "  Error: " ++ protocol_error_name c ++ codes " (code: " ++ to_string c ++ codes ")\n"

-- `printPayload`: what it writes to the console.
abbrev pub print_payload : Packet → List ℕ
print_payload packet =
    if packet.opcode == opcode_value error_response
    then print_error packet.payload
    else codes "  Payload: " ++ packet.payload ++ codes "\n"

abbrev pub request : Packet
request = set_payload (codes "Hello PacketForge") (
    set_sequence_id 1 (
      set_opcode (opcode_value hello_request)
        (set_flags 0 (set_version current_version new_packet))))

-- How `main` ends: with exit code 1, or with 0 after it has printed the answer and what sending and
-- receiving came back with once the client was disconnected.
pub data Ending : Type 0 where
  gives_up : Ending
  finishes : List ℕ → Error → Error → Ending

abbrev pub exit_code : Ending → ℕ
exit_code gives_up = 1
exit_code (finishes printed sent received) = 0

module _ {W : Type 0} (os : Os W) (host : Endianness) where
  -- After the answer has arrived: print it, wait for the operator, disconnect, and try the dead client.
  unfoldable pub wind_up : Client → Packet → W → Ending × Client × W
  wind_up c response w =
      let (c₁, w₁) = Client.disconnect os c (os.wait_enter w) in
      let (sent, w₂) = Client.send os host c₁ request w₁ in
      let (received, packet, c₂, w₃) = Client.receive os host c₁ new_packet w₂ in
      let (c₃, w₄) = Client.disconnect os c₂ w₃ in
      (finishes (print_payload response) sent received, c₃, w₄)

  -- `main` on a connected client, up to its destructor.
  unfoldable pub talk : Client → W → Ending × Client × W
  talk c w =
      if not (is_valid request)
      then (let (c', w') = Client.disconnect os c w in (gives_up, c', w'))
      else (let (sent, w₁) = Client.send os host c request w in
          if not (ok sent)
          then (let (c', w') = Client.disconnect os c w₁ in (gives_up, c', w'))
          else (let (received, response, c₁, w₂) = Client.receive os host c new_packet w₁ in
              if not (ok received)
              then (let (c', w') = Client.disconnect os c₁ w₂ in (gives_up, c', w'))
              else wind_up c₁ response w₂))

  unfoldable pub main : W → Ending × W
  main w =
      let (connected, c, w₁) = Client.connect os new_client "127.0.0.1" 9090 w in
      if not (ok connected)
      then (gives_up, Client.destroy os c w₁)
      else (let (ending, c', w₂) = talk c w₁ in (ending, Client.destroy os c' w₂))
