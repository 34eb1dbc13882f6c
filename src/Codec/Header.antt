-- ===== src/Codec/Header.antt =====
-- PacketForge_V1/src/protocol/decoder.cpp against a decoder that is read off the wire format.
use thread_pool.Base.{
  ℕ, zero, suc, ◌+◌, ◌≤◌, ◌≡◌, List, [], ◌∷◌, length, take, drop, All, not, ltb, ◌==◌,
  if◌then◌else◌, get_or, arith, sym, ◌∙◌, length-take, length-drop, drop-zero_length, Bool-cases,
  inl, inr,
}
use thread_pool.Endian.{
  Endianness, IsByte, uint16, uint32, network_to_host, object_value, network_value,
}
use thread_pool.Endian.Order.{network_to_host16-value, network_to_host32-value}
use thread_pool.Exception.{Outcome, returns, throws, protocol_decode_error}
use thread_pool.Opcode.{invalid_packet, unsupported_version, invalid_payload}
use thread_pool.Packet.{Packet, magic_number}
use thread_pool.Codec.{decode, read_uint32, read_uint16, construct_packet}

pub All-take : (n : ℕ) (xs : List ℕ) → All IsByte xs → All IsByte (take n xs)
All-take zero xs h = tt
All-take (suc n) [] h = tt
All-take (suc n) (x ∷ xs) h = (h.0, All-take n xs h.1)

pub All-drop : (n : ℕ) (xs : List ℕ) → All IsByte xs → All IsByte (drop n xs)
All-drop zero xs h = h
All-drop (suc n) [] h = tt
All-drop (suc n) (x ∷ xs) h = All-drop n xs h.1

-- The field of `size` bytes at `offset`.
abbrev pub field : List ℕ → ℕ → ℕ → ℕ
field bytes offset size = network_value (take size (drop offset bytes))

module _ (host : Endianness) where
  pub read_four :
      (xs : List ℕ)
      → length xs ≡ 4
      → All IsByte xs
      → network_to_host uint32 host (object_value host xs) ≡ network_value xs
  read_four (a ∷ b ∷ c ∷ d ∷ []) e h =
      network_to_host32-value host a b c d h.0 h.1.0 h.1.1.0 h.1.1.1.0
  read_four [] e h = absurd (omega arith)
  read_four (a ∷ []) e h = absurd (omega arith)
  read_four (a ∷ b ∷ []) e h = absurd (omega arith)
  read_four (a ∷ b ∷ c ∷ []) e h = absurd (omega arith)
  read_four (a ∷ b ∷ c ∷ d ∷ x ∷ xs) e h = absurd (omega arith)

  pub read_two :
      (xs : List ℕ)
      → length xs ≡ 2
      → All IsByte xs
      → network_to_host uint16 host (object_value host xs) ≡ network_value xs
  read_two (a ∷ b ∷ []) e h = network_to_host16-value host a b h.0 h.1.0
  read_two [] e h = absurd (omega arith)
  read_two (a ∷ []) e h = absurd (omega arith)
  read_two (a ∷ b ∷ x ∷ xs) e h = absurd (omega arith)

  pub read_uint32-field :
      (offset : ℕ) (bytes : List ℕ)
      → All IsByte bytes
      → offset + 4 ≤ length bytes
      → read_uint32 host bytes offset ≡ field bytes offset 4
  unfolding read_uint32
  read_uint32-field offset bytes h fits =
      read_four (take 4 (drop offset bytes))
        (omega (arith, length-take 4 (drop offset bytes), length-drop offset bytes))
        (All-take 4 (drop offset bytes) (All-drop offset bytes h))

  read_uint16-field :
      (offset : ℕ) (bytes : List ℕ)
      → All IsByte bytes
      → offset + 2 ≤ length bytes
      → read_uint16 host bytes offset ≡ field bytes offset 2
  unfolding read_uint16
  read_uint16-field offset bytes h fits =
      read_two (take 2 (drop offset bytes))
        (omega (arith, length-take 2 (drop offset bytes), length-drop offset bytes))
        (All-take 2 (drop offset bytes) (All-drop offset bytes h))

-- The decoder's checks and its result, read off the wire format.
unfoldable pub parse : List ℕ → Outcome Packet
parse bytes =
    if ltb (length bytes) 16
    then throws (protocol_decode_error invalid_packet "Invalid packet size")
    else if not (field bytes 0 4 == magic_number)
    then throws (protocol_decode_error invalid_packet "Invalid magic number")
    else if not (get_or bytes 4 0 == 1)
    then throws (protocol_decode_error unsupported_version "Unsupported protocol version")
    else if not (length bytes == 16 + field bytes 12 4)
    then throws (protocol_decode_error invalid_payload "Payload size mismatch")
    else returns (record {
      magic = magic_number;
      version = get_or bytes 4 0;
      flags = get_or bytes 5 0;
      opcode = field bytes 6 2;
      sequence_id = field bytes 8 4;
      payload = drop 16 bytes;
    })

-- With no payload there is nothing left behind the header.
construct_packet-payload :
    (host : Endianness) (bytes : List ℕ) (v f o s n : ℕ)
    → length bytes ≡ 16 + n
    → construct_packet host bytes v f o s n ≡ record {
      magic = magic_number;
      version = v;
      flags = f;
      opcode = o;
      sequence_id = s;
      payload = drop 16 bytes;
    }
unfolding construct_packet
construct_packet-payload host bytes v f o s zero e =
    let empty : drop 16 bytes ≡ [] =
      drop-zero_length (drop 16 bytes) (omega (arith, length-drop 16 bytes)) in
    rw empty
construct_packet-payload host bytes v f o s (suc n) e = ground arith

-- On every host, and for every list of bytes, the decoder agrees with the one read off the wire
-- format: the same packet or the same exception, in the same order of checks.
pub decode-parse :
    (host : Endianness) (bytes : List ℕ) → All IsByte bytes → decode host bytes ≡ parse bytes
unfolding decode parse
decode-parse host bytes h = elim (Bool-cases (ltb (length bytes) 16)) [
  | inl short ↦ rw short
  | inr long ↦
      let fits : 16 ≤ length bytes = ground arith in
      let construct = construct_packet-payload host bytes in
      ground (
        arith,
        read_uint32-field host 0 bytes h,
        read_uint32-field host 8 bytes h,
        read_uint32-field host 12 bytes h,
        read_uint16-field host 6 bytes h,
        construct (get_or bytes 4 0) (get_or bytes 5 0) (field bytes 6 2) (field bytes 8 4)
            (field bytes 12 4),
      )
]

-- Header bytes, and the payload whose length they announce.
pub record IsFrame (front payload : List ℕ) : Type 0 where
  pub front_bytes : All IsByte front
  pub front_size : length front ≡ 16
  pub announced : length payload ≡ field front 12 4

pub IsFrame-announces :
    (host : Endianness) (front payload : List ℕ)
    → IsFrame front payload
    → network_to_host uint32 host (object_value host (take 4 (drop 12 front))) ≡ length payload
IsFrame-announces host front payload v =
    read_four host (take 4 (drop 12 front))
      (omega (arith, v.front_size, length-take 4 (drop 12 front), length-drop 12 front))
      (All-take 4 (drop 12 front) (All-drop 12 front v.front_bytes))
    ∙ sym v.announced
