-- ===== src/App/IntegrationSuccess.antt =====
-- PacketForge_V1/apps/PacketForge_integration_success_client.cpp: one hello request, whose answer is
-- compared with the server's greeting. Console output is left out, so all of `fail`'s messages are one.
pub mod Passes
pub mod Cleanup
use thread_pool.Base.{ℕ, List, Bool, true, false, not, ◌&&◌, ◌==◌, if◌then◌else◌, codes, length}
use thread_pool.Error.{ok}
use thread_pool.Endian.{Endianness}
use thread_pool.Opcode.{opcode_value, hello_request, hello_response}
use thread_pool.Packet.{
  Packet, current_version, magic_number, new_packet, set_version, set_flags, set_opcode,
  set_sequence_id, set_payload, payload_length, is_valid,
}
use thread_pool.Config.{same_text}
use thread_pool.Os.{Os}
use thread_pool.Client
use thread_pool.Client.{Client, new_client}

abbrev request_payload : List ℕ
request_payload = codes "Hello PacketForge"

abbrev pub expected_response_payload : List ℕ
expected_response_payload = codes "Hello from PacketForge Server"

abbrev pub request : Packet
request = set_payload request_payload (
    set_sequence_id 1 (
      set_opcode (opcode_value hello_request)
        (set_flags 0 (set_version current_version new_packet))))

-- The four checks of the request before it is sent.
abbrev request_is_right : Packet → Bool
request_is_right p =
    is_valid p
    && (p.opcode == opcode_value hello_request)
    && (p.sequence_id == 1)
    && same_text p.payload request_payload

-- The eight checks of the response.
unfoldable pub response_is_right : Packet → Bool
response_is_right p =
    (p.magic == magic_number)
    && (p.version == current_version)
    && (p.opcode == opcode_value hello_response)
    && (p.flags == 0)
    && (p.sequence_id == 1)
    && same_text p.payload expected_response_payload
    && (payload_length p == length expected_response_payload)
    && is_valid p

module _ {W : Type 0} (os : Os W) (host : Endianness) where
  fail : Client → W → ℕ × Client × W
  fail c w = let (c', w') = Client.disconnect os c w in (1, c', w')

  -- `main` from the response on.
  finish : Client → Packet → W → ℕ × Client × W
  finish c response w =
      if not (response_is_right response)
      then fail c w
      else (let (c', w') = Client.disconnect os c w in
          if Client.is_connected c' then fail c' w' else (0, c', w'))

  -- `main` on a connected client, up to its destructor: the exit code.
  unfoldable pub converse : Client → W → ℕ × Client × W
  unfolding fail finish
  converse c w =
      if not (request_is_right request)
      then fail c w
      else (let (sent, w₁) = Client.send os host c request w in
          if not (ok sent)
          then fail c w₁
          else (let (received, response, c₁, w₂) = Client.receive os host c new_packet w₁ in
              if not (ok received) then fail c₁ w₂ else finish c₁ response w₂))

  unfoldable pub main : W → ℕ × W
  unfolding fail
  main w =
      let (connected, c, w₁) = Client.connect os new_client "127.0.0.1" 9090 w in
      if not (ok connected)
      then (let (exit_code, c', w₂) = fail c w₁ in (exit_code, Client.destroy os c' w₂))
      else if not (Client.is_connected c)
      then (let (exit_code, c', w₂) = fail c w₁ in (exit_code, Client.destroy os c' w₂))
      else (let (exit_code, c', w₂) = converse c w₁ in (exit_code, Client.destroy os c' w₂))
