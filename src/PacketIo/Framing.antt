-- ===== src/PacketIo/Framing.antt =====
-- PacketForge_V1/src/protocol/packet_io.cpp: packets against the bytes of the stream.
use thread_pool.Base.{
  ℕ, ◌<◌, ◌≡◌, refl, sym, ◌∙◌, ap, ◌⊎◌, inl, inr, List, [], ◌++◌, length, take, drop, true, Option,
  arith, ◌^◌, ltb, append_split, drop-zero_length, subst, length-append, Bool-cases,
}
use thread_pool.Error.{Error, no_error, error, socket_error}
use thread_pool.Endian.{Endianness, uint32, network_to_host, object_value}
use thread_pool.Endian.Order.{network_to_host32-value}
use thread_pool.Exception.{Outcome, returns}
use thread_pool.Opcode.{ProtocolError, invalid_packet}
use thread_pool.Packet.{Packet, Fits, is_valid}
use thread_pool.Codec.{encode, decode}
use thread_pool.Codec.Wire.{wire, is_valid_parts, encode-wire}
use thread_pool.Codec.RoundTrip.{decode-encode, encoded}
use thread_pool.Os.{Os, Sends, Receives}
use thread_pool.Transport
use thread_pool.Transport.{Transport}
use thread_pool.Transport.Streams.{
  Receipt, block, peer_closed, broken, receive-Receipt, Sent, send-Sent,
}
use thread_pool.PacketIo.{send, receive, receive_payload, received, store}

-- A block that is on the stream arrives, unless a receive call fails.
Receipt-arrives :
    {size : ℕ} {before : List ℕ} {t : Transport} {e : Error} {bytes : List ℕ} {t' : Transport}
    {after : List ℕ}
    → Receipt size before t e bytes t' after
    → (front rest : List ℕ) → before ≡ front ++ rest
    → length front ≡ size
    → ((e ≡ no_error) × (bytes ≡ front) × (t' ≡ t) × (after ≡ rest))
      ⊎ (e ≡ error socket_error "Receive failed")
Receipt-arrives (block bytes after split n) front rest e n' =
    let (same, left) = append_split bytes front after rest (n ∙ sym n') (sym split ∙ e) in
    inl (refl, same, refl, left)
Receipt-arrives (peer_closed after short) front rest e n =
    absurd (omega (arith, ap length e, length-append front rest))
Receipt-arrives (broken read after split n) front rest e n' = inr refl

abbrev pub header : Packet → List ℕ
header p = take 16 (wire p)

pub announced :
    (host : Endianness) (p : Packet)
    → length p.payload < 2 ^ 32
    → network_to_host uint32 host (object_value host (take 4 (drop 12 (header p))))
      ≡ length p.payload
announced host p short =
    network_to_host32-value host _ _ _ _ (omega arith) (omega arith) (omega arith) (omega arith)
    ∙ omega arith

-- The packet has arrived and the stream stands right behind it, or a receive call has failed.
abbrev pub Delivered : Transport → Packet → List ℕ → Error → Packet → Transport → List ℕ → Type 0
Delivered t p rest e packet t' after =
    ((e ≡ no_error) × (packet ≡ p) × (t' ≡ t) × (after ≡ rest))
    ⊎ (e ≡ error socket_error "Receive failed")

-- What the decoder makes of a frame has come back and the stream stands right behind it, or a receive
-- call has failed.
abbrev pub Framed :
    Transport
    → Outcome Packet
    → Packet
    → Option ProtocolError
    → List ℕ
    → Error
    → Packet
    → Option ProtocolError
    → Transport
    → List ℕ
    → Type 0
Framed t o old code rest e packet code' t' after =
    ((e ≡ (received o old code).0)
      × (packet ≡ (received o old code).1)
      × (code' ≡ (received o old code).2)
      × (t' ≡ t)
      × (after ≡ rest))
    ⊎ (e ≡ error socket_error "Receive failed")

module _ {W : Type 0} (os : Os W) (receiver : Endianness) where
  module _ (t : Transport) (incoming : W → List ℕ)
      (laws : Receives os t.connection.socket.descriptor incoming)
      (up : Transport.is_connected t ≡ true) (front payload : List ℕ)
      (announces : network_to_host uint32 receiver (object_value receiver (take 4 (drop 12 front)))
        ≡ length payload) where
    receive_payload-Framed :
        (old : Packet) (code : Option ProtocolError) (rest : List ℕ) (w : W)
        → incoming w ≡ payload ++ rest
        → let (e, packet, code', t', w') = receive_payload os receiver t front old code w in
          Framed t
            (decode receiver (front ++ payload))
            old
            code
            rest
            e
            packet
            code'
            t'
            (incoming w')
    unfolding receive_payload
    receive_payload-Framed old code rest w stream = elim (Bool-cases (ltb 0 (length payload))) [
      | inl more ↦
          simp (announces, more)
            (elim (Receipt-arrives (receive-Receipt os t [] (length payload) w incoming laws up)
              payload rest stream refl) [
                | inl (e, same, t', after) ↦
                    simp (e, same, t') (inl (refl, refl, refl, refl, after))
                | inr e ↦ simp e (inr refl)
              ])
      | inr none_left ↦
          let empty : payload ≡ [] = drop-zero_length payload (ground arith) in
          simp (announces, none_left)
            (subst
              (λ x.
                Framed t (decode receiver (front ++ x)) old code rest
                  (received (decode receiver (front ++ [])) old code).0
                  (received (decode receiver (front ++ [])) old code).1
                  (received (decode receiver (front ++ [])) old code).2 t (incoming w))
              (sym empty)
              (inl (refl, refl, refl, refl, subst (λ x. incoming w ≡ x ++ rest) empty stream)))
    ]

    -- If the stream starts with 16 bytes that announce the payload behind them, then `receive` hands all
    -- of these bytes and no others to the decoder, or a receive call fails.
    pub receive-Framed :
        (old : Packet) (code : Option ProtocolError) (rest : List ℕ) (w : W)
        → length front ≡ 16
        → incoming w ≡ front ++ (payload ++ rest)
        → let (e, packet, code', t', w') = receive os receiver t old code w in
          Framed t
            (decode receiver (front ++ payload))
            old
            (store invalid_packet code)
            rest
            e
            packet
            code'
            t'
            (incoming w')
    unfolding receive
    receive-Framed old code rest w size stream =
        elim (Receipt-arrives (receive-Receipt os t [] 16 w incoming laws up) front
          (payload ++ rest) stream size) [
            | inl (e, same, t', after) ↦
                simp (e, same, t')
                  (receive_payload-Framed old (store invalid_packet code) rest
                    (Transport.receive os t [] 16 w).3 after)
            | inr e ↦ simp e (inr refl)
          ]

  -- If the next bytes of the stream are a packet's encoding, made on any host, then `receive` gives
  -- back that packet and leaves the stream right behind it; or else a receive call failed, and the
  -- error says so. No other outcome is possible, however the bytes arrive.
  pub receive-Delivered :
      (sender : Endianness) (t : Transport) (p old : Packet) (code : Option ProtocolError)
      (bytes rest : List ℕ) (w : W) (incoming : W → List ℕ)
      → Receives os t.connection.socket.descriptor incoming
      → Transport.is_connected t ≡ true
      → Fits p
      → encode sender p ≡ returns bytes
      → incoming w ≡ bytes ++ rest
      → let (e, packet, code', t', w') = receive os receiver t old code w in
        Delivered t p rest e packet t' (incoming w')
  unfolding received
  receive-Delivered sender t p old code bytes rest w incoming laws up f enc stream =
      let (v, same) = encoded sender p bytes f enc in
      let (_, _, short) = is_valid_parts p v in
      let decoded : decode receiver (header p ++ p.payload) ≡ returns p =
        subst (λ x. decode receiver x ≡ returns p) (sym same)
          (decode-encode sender receiver p bytes f enc) in
      elim (receive-Framed t incoming laws up (header p) p.payload (announced receiver p short) old
        code rest w refl (subst (λ x. incoming w ≡ x ++ rest) (sym same) stream)) [
          | inl (e, packet, _, t', after) ↦ inl (
            e ∙ ap (λ o. (received o old (store invalid_packet code)).0) decoded,
            packet ∙ ap (λ o. (received o old (store invalid_packet code)).1) decoded,
            t',
            after,
          )
          | inr failed ↦ inr failed
        ]

module _ {W : Type 0} (os : Os W) (host : Endianness) where
  -- A packet that the encoder accepts goes onto the stream in the wire format.
  pub send-Sent_packet :
      (t : Transport) (p : Packet) (w : W) (written : W → List ℕ)
      → Sends os t.connection.socket.descriptor written
      → Transport.is_connected t ≡ true
      → Fits p
      → is_valid p ≡ true
      → let (e, w') = send os host t p w in Sent (written w) (wire p) (written w') e
  unfolding send
  send-Sent_packet t p w written laws up f v =
      rw (encode-wire host p f v, send) (send-Sent os t (wire p) w written laws up)
