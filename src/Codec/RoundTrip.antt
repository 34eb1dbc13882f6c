-- ===== src/Codec/RoundTrip.antt =====
-- PacketForge_V1/src/protocol/encoder.cpp and decoder.cpp, each against the other.
use thread_pool.Base.{
  ℕ, zero, suc, ◌<◌, ◌≡◌, refl, ◌∙◌, sym, ap, subst, ◌≢◌, List, [], ◌∷◌, ◌++◌, length, All, true,
  arith, Bool-cases, inl, inr, length-append, All-append, drop,
}
use thread_pool.Endian.{Endianness, IsByte, network_value, network_bytes}
use thread_pool.Exception.{returns, throws, protocol_decode_error}
use thread_pool.Opcode.{invalid_payload}
use thread_pool.Packet.{Packet, Fits, is_valid}
use thread_pool.Codec.{encode, decode}
use thread_pool.Codec.Wire.{wire, encode-wire, is_valid_parts}
use thread_pool.Codec.Header.{parse, decode-parse}

network_bytes-All : (n v : ℕ) → All IsByte (network_bytes n v)
network_bytes-All zero v = tt
network_bytes-All (suc n) v = (omega arith, network_bytes-All n v)

pub wire-All : (p : Packet) → Fits p → All IsByte (wire p)
wire-All p f =
    All-append IsByte (network_bytes 4 p.magic) (drop 4 (wire p)) (network_bytes-All 4 p.magic) (
      f.version_fits,
      (
        f.flags_fit,
        All-append IsByte (network_bytes 2 p.opcode) (drop 8 (wire p))
            (network_bytes-All 2 p.opcode)
            (All-append IsByte (network_bytes 4 p.sequence_id) (drop 12 (wire p))
              (network_bytes-All 4 p.sequence_id)
              (All-append IsByte (network_bytes 4 (length p.payload)) p.payload
                (network_bytes-All 4 (length p.payload)) f.payload_bytes)),
      ),
    )

parse-wire : (p : Packet) → Fits p → is_valid p ≡ true → parse (wire p) ≡ returns p
unfolding parse
parse-wire p f v = let (magic, version, short) = is_valid_parts p v in ground arith

encode_returns :
    (host : Endianness) (p : Packet) {bytes : List ℕ}
    → encode host p ≡ returns bytes
    → is_valid p ≡ true
unfolding encode
encode_returns host p e = elim (Bool-cases (is_valid p)) [ inl v ↦ v | inr v ↦ cc (rw v at e) ]

four_bytes :
    (a b c d : ℕ)
    → a < 256
    → b < 256
    → c < 256
    → d < 256
    → network_bytes 4 (network_value (a ∷ b ∷ c ∷ d ∷ [])) ≡ a ∷ b ∷ c ∷ d ∷ []
four_bytes a b c d ha hb hc hd = ground arith

two_bytes :
    (a b : ℕ) → a < 256 → b < 256 → network_bytes 2 (network_value (a ∷ b ∷ [])) ≡ a ∷ b ∷ []
two_bytes a b ha hb = ground arith

-- The bytes that were parsed are the wire format of the packet they were parsed as.
wire-parse :
    (bytes : List ℕ)
    → All IsByte bytes
    → (p : Packet) → parse bytes ≡ returns p
    → Fits p × (is_valid p ≡ true) × (wire p ≡ bytes)
unfolding parse is_valid
wire-parse (a ∷ b ∷ c ∷ d ∷ v ∷ f ∷ o ∷ q ∷ s ∷ t ∷ x ∷ y ∷ k ∷ l ∷ m ∷ n ∷ rest) h p e = (
  ground arith,
  ground arith,
  ground (arith, four_bytes a b c d, four_bytes s t x y, four_bytes k l m n, two_bytes o q),
)
wire-parse _ h p e = absurd (ground arith)

pub encoded :
    (host : Endianness) (p : Packet) (bytes : List ℕ)
    → Fits p
    → encode host p ≡ returns bytes
    → (is_valid p ≡ true) × (wire p ≡ bytes)
encoded host p bytes f e = let v = encode_returns host p e in (v, cc (encode-wire host p f v))

-- A packet that one host encodes is decoded to itself by any other, whatever their byte orders.
pub decode-encode :
    (sender receiver : Endianness) (p : Packet) (bytes : List ℕ)
    → Fits p
    → encode sender p ≡ returns bytes
    → decode receiver bytes ≡ returns p
decode-encode sender receiver p bytes f e =
    let (v, same) = encoded sender p bytes f e in
    subst (λ b. decode receiver b ≡ returns p) same
      (decode-parse receiver (wire p) (wire-All p f) ∙ parse-wire p f v)

-- Bytes that decode are the encoding of the packet they decode to, which is valid and fits its
-- fields: no packet has two encodings.
pub encode-decode :
    (receiver sender : Endianness) (bytes : List ℕ) (p : Packet)
    → All IsByte bytes
    → decode receiver bytes ≡ returns p
    → Fits p × (is_valid p ≡ true) × (encode sender p ≡ returns bytes)
encode-decode receiver sender bytes p h e =
    let (f, v, same) = wire-parse bytes h p (sym (decode-parse receiver bytes h) ∙ e) in
    (f, v, encode-wire sender p f v ∙ ap returns same)

parse-append :
    (bytes more : List ℕ) (p : Packet)
    → more ≢ []
    → parse bytes ≡ returns p
    → parse (bytes ++ more) ≡ throws (protocol_decode_error invalid_payload "Payload size mismatch")
unfolding parse
parse-append (a ∷ b ∷ c ∷ d ∷ v ∷ f ∷ o ∷ q ∷ s ∷ t ∷ x ∷ y ∷ k ∷ l ∷ m ∷ n ∷ rest) [] p ne e =
    absurd (ne refl)
parse-append (a ∷ b ∷ c ∷ d ∷ v ∷ f ∷ o ∷ q ∷ s ∷ t ∷ x ∷ y ∷ k ∷ l ∷ m ∷ n ∷ rest) (z ∷ zs) p ne
      e =
    ground (arith, length-append rest (z ∷ zs))
parse-append _ more p ne e = absurd (ground arith)

-- A packet with bytes behind it is refused as a whole: framing is exact.
pub decode-append :
    (host : Endianness) (bytes more : List ℕ) (p : Packet)
    → All IsByte bytes
    → All IsByte more
    → more ≢ []
    → decode host bytes ≡ returns p
    → decode host (bytes ++ more)
      ≡ throws (protocol_decode_error invalid_payload "Payload size mismatch")
decode-append host bytes more p h h' nonempty e =
    decode-parse host (bytes ++ more) (All-append IsByte bytes more h h')
    ∙ parse-append bytes more p nonempty (sym (decode-parse host bytes h) ∙ e)
