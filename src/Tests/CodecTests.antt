-- ===== src/Tests/CodecTests.antt =====
-- A hello request on the wire, decoded, damaged and answered; and the theorems on it.
use thread_pool.Base.{ℕ, ◌≡◌, refl, List, [], ◌∷◌, true, arith}
use thread_pool.Endian.{little, big, uint32, host_to_network, object_bytes}
use thread_pool.Endian.Order.{object_bytes-host_to_network}
use thread_pool.Error.{no_error}
use thread_pool.Exception.{returns, throws, protocol_decode_error, invalid_argument}
use thread_pool.Opcode.{invalid_packet, is_valid_opcode}
use thread_pool.Packet.{Packet, Fits, is_valid, new_packet, payload_length, set_version}
use thread_pool.Codec.{encode, decode}
use thread_pool.Codec.Wire.{encode-wire}
use thread_pool.Codec.Header.{parse, decode-parse}
use thread_pool.Codec.RoundTrip.{decode-encode, encode-decode}
use thread_pool.Dispatch.{dispatch}
use thread_pool.Dispatch.Answers.{dispatch-answers}

abbrev pub hello : Packet
hello = record {
  magic = 0x50464B54;
  version = 1;
  flags = 0;
  opcode = 1;
  sequence_id = 7;
  payload = b'H' ∷ b'i' ∷ [];
}

abbrev pub hello_bytes : List ℕ
hello_bytes =
    0x50 ∷ 0x46 ∷ 0x4B ∷ 0x54 ∷ 1 ∷ 0 ∷ 0 ∷ 1 ∷ 0 ∷ 0 ∷ 0 ∷ 7 ∷ 0 ∷ 0 ∷ 0 ∷ 2 ∷ b'H' ∷ b'i' ∷ []

pub hello-Fits : Fits hello
hello-Fits = omega arith

hello-is_valid : is_valid hello ≡ true
unfolding is_valid
hello-is_valid = refl

pub hello_encoded : encode big hello ≡ returns hello_bytes
unfolding encode object_bytes is_valid payload_length
hello_encoded = encode-wire big hello hello-Fits hello-is_valid

hello_decoded : decode little hello_bytes ≡ returns hello
hello_decoded = decode-encode big little hello hello_bytes hello-Fits hello_encoded

short_refused :
    decode big (0x50 ∷ 0x46 ∷ [])
    ≡ throws (protocol_decode_error invalid_packet "Invalid packet size")
unfolding decode
short_refused = refl

old_version_refused :
    encode big (set_version 2 hello) ≡ throws (invalid_argument "Cannot encode invalid packet")
unfolding encode is_valid
old_version_refused = refl

object_bytes-host_to_network_example :
    object_bytes little 4 (host_to_network uint32 little 0x12345678)
    ≡ 0x12 ∷ 0x34 ∷ 0x56 ∷ 0x78 ∷ []
object_bytes-host_to_network_example =
    object_bytes-host_to_network uint32 little 0x12345678 (omega arith)

encode-wire_example : encode little hello ≡ returns hello_bytes
encode-wire_example = encode-wire little hello hello-Fits hello-is_valid

decode-parse_example : decode little hello_bytes ≡ parse hello_bytes
decode-parse_example = decode-parse little hello_bytes (omega arith)

decode-encode_example : decode little hello_bytes ≡ returns hello
decode-encode_example = decode-encode big little hello hello_bytes hello-Fits hello_encoded

encode-decode_example :
    Fits hello × (is_valid hello ≡ true) × (encode big hello ≡ returns hello_bytes)
encode-decode_example = encode-decode little big hello_bytes hello (omega arith) hello_decoded

dispatch-answers_example :
    let (answer, e) = dispatch hello new_packet in
    (e ≡ no_error)
    × (is_valid answer ≡ true)
    × Fits answer
    × (answer.sequence_id ≡ 7)
    × (is_valid_opcode answer.opcode ≡ true)
dispatch-answers_example = dispatch-answers hello new_packet hello-Fits
