-- ===== src/PacketIo/Truncated.antt =====
-- PacketForge_V1/src/protocol/packet_io.cpp: a packet that has not arrived whole.
use thread_pool.Base.{
  ℕ, ◌+◌, ◌<◌, ◌≡◌, refl, sym, ◌∙◌, ap, List, [], ◌++◌, length, take, drop, true, false, Option,
  arith, inl, inr, ltb, append_split, append_assoc, length-append, ◌⊎◌,
}
use thread_pool.Error.{Error, no_error, error, ok, connection_closed, socket_error}
use thread_pool.Endian.{Endianness, uint32, network_to_host, object_value}
use thread_pool.Opcode.{ProtocolError, invalid_packet}
use thread_pool.Packet.{Packet}
use thread_pool.Os.{Os, Receives}
use thread_pool.Transport
use thread_pool.Transport.{Transport}
use thread_pool.Transport.Streams.{Receipt, block, peer_closed, broken, receive-Receipt}
use thread_pool.PacketIo.{receive, receive_payload, store}

-- The errors of a receive that the stream did not satisfy.
abbrev pub Ended : Error → Type 0
Ended e =
    (e ≡ error connection_closed "Connection closed by peer")
    ⊎ (e ≡ error socket_error "Receive failed")

pub Ended-ok : {e : Error} → Ended e → ok e ≡ false
Ended-ok (inl e) = ap ok e
Ended-ok (inr e) = ap ok e

Receipt-Ended :
    {size : ℕ} {before : List ℕ} {t : Transport} {e : Error} {bytes : List ℕ} {t' : Transport}
    {after : List ℕ}
    → Receipt size before t e bytes t' after
    → length before < size
    → Ended e
Receipt-Ended (block bytes after split n) short =
    absurd (omega (arith, ap length split, length-append bytes after))
Receipt-Ended (peer_closed after _) short = inl refl
Receipt-Ended (broken read after split n) short = inr refl

-- The first block of a stream that is cut somewhere.
Receipt-front :
    {size : ℕ} {before : List ℕ} {t : Transport} {e : Error} {bytes : List ℕ} {t' : Transport}
    {after : List ℕ}
    → Receipt size before t e bytes t' after
    → (cut front payload : List ℕ) → length front ≡ size
    → before ++ cut ≡ front ++ payload
    → Ended e
      ⊎ ((e ≡ no_error)
          × (bytes ≡ front)
          × (t' ≡ t)
          × (after ++ cut ≡ payload)
          × (length before ≡ size + length after))
Receipt-front (block bytes after split n) cut front payload n' stream =
    let (same, rest) =
      append_split bytes front (after ++ cut) payload (n ∙ sym n')
        (sym (append_assoc bytes after cut) ∙ ap (λ x. x ++ cut) (sym split) ∙ stream) in
    inr (refl, same, refl, rest, omega (arith, ap length split, length-append bytes after))
Receipt-front (peer_closed after _) cut front payload n stream = inl (inl refl)
Receipt-front (broken read after split n) cut front payload n' stream = inl (inr refl)

module _ {W : Type 0} (os : Os W) (host : Endianness) (t : Transport) (incoming : W → List ℕ)
    (laws : Receives os t.connection.socket.descriptor incoming)
    (up : Transport.is_connected t ≡ true) where
  -- Where the stream holds less than a header, `receive` says that the peer closed or that a call failed.
  pub receive_header-Ended :
      (old : Packet) (code : Option ProtocolError) (w : W)
      → length (incoming w) < 16
      → Ended (receive os host t old code w).0
  unfolding receive
  receive_header-Ended old code w short =
      elim (Receipt-Ended (receive-Receipt os t [] 16 w incoming laws up) short) [
        | inl e ↦ simp e (inl refl)
        | inr e ↦ simp e (inr refl)
      ]

  module _ (front payload : List ℕ)
      (announces : network_to_host uint32 host (object_value host (take 4 (drop 12 front)))
        ≡ length payload) where
    receive_payload-Ended :
        (old : Packet) (code : Option ProtocolError) (w : W)
        → length (incoming w) < length payload
        → Ended (receive_payload os host t front old code w).0
    unfolding receive_payload
    receive_payload-Ended old code w short =
        let more : ltb 0 (length payload) ≡ true = ground (arith, short) in
        elim (Receipt-Ended (receive-Receipt os t [] (length payload) w incoming laws up) short) [
          | inl e ↦ simp (announces, more, e) (inl refl)
          | inr e ↦ simp (announces, more, e) (inr refl)
        ]

    -- Where the stream holds less than a packet's bytes, `receive` says that the peer closed or that
    -- a call failed.
    pub receive_packet-Ended :
        (old : Packet) (code : Option ProtocolError) (w : W) (cut : List ℕ)
        → length front ≡ 16
        → length (incoming w) < 16 + length payload
        → incoming w ++ cut ≡ front ++ payload
        → Ended (receive os host t old code w).0
    unfolding receive
    receive_packet-Ended old code w cut size short stream =
        elim (Receipt-front (receive-Receipt os t [] 16 w incoming laws up) cut front payload size
          stream) [
            | inl (inl e) ↦ simp e (inl refl)
            | inl (inr e) ↦ simp e (inr refl)
            | inr (e, same, t', rest, n) ↦
                simp (e, same, t')
                  (receive_payload-Ended old (store invalid_packet code)
                    (Transport.receive os t [] 16 w).3 (omega (arith, short, n)))
          ]
