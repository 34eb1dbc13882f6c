-- ===== src/PacketIo/Sequence.antt =====
-- PacketForge_V1/src/protocol/packet_io.cpp: many packets, one behind the other.
use thread_pool.Base.{
  ℕ, zero, suc, ◌≡◌, ◌⊎◌, refl, sym, ◌∙◌, ap, List, [], ◌∷◌, ◌++◌, length, true, false, none, arith,
  Bool-cases, inl, inr, ltb, if◌then◌else◌, append_overlap, append-nonempty, append_assoc,
  append-nil, length-append, All,
}
use thread_pool.Error.{Error, no_error, ok}
use thread_pool.Endian.{Endianness}
use thread_pool.Packet.{Packet, new_packet, Fits, is_valid}
use thread_pool.Codec.Wire.{wire, encode-wire, is_valid_parts}
use thread_pool.Os.{Os, Sends, Receives}
use thread_pool.Transport
use thread_pool.Transport.{Transport}
use thread_pool.Transport.Streams.{Sent}
use thread_pool.Transport.Reliable.{Reliable}
use thread_pool.PacketIo.Framing.{header, announced, receive-Delivered, send-Sent_packet}
use thread_pool.PacketIo.Truncated.{Ended-ok, receive_header-Ended, receive_packet-Ended}
use thread_pool.PacketIo.Reliable.{send_packet-ok, receive_packet}
use thread_pool.PacketIo.{send, receive}

-- A packet that the encoder accepts.
abbrev pub Sendable : Packet → Type 0
Sendable p = Fits p × (is_valid p ≡ true)

-- What a list of packets is on the wire.
abbrev pub wires : List Packet → List ℕ
wires [] = []
wires (p ∷ ps) = wire p ++ wires ps

module _ {W : Type 0} (os : Os W) (host : Endianness) where
  -- Calls of `send`, one for each packet, up to the first that fails.
  unfoldable pub send_packets : Transport → List Packet → W → Error × W
  send_packets t [] w = (no_error, w)
  send_packets t (p ∷ ps) w =
      let (e, w') = send os host t p w in
      let rest = send_packets t ps w' in if ok e then rest else (e, w')

  -- So many calls of `receive`, up to the first that fails, and the packets that they give.
  unfoldable pub receive_packets : ℕ → Transport → W → List Packet
  receive_packets zero t w = []
  receive_packets (suc n) t w =
      let (e, packet, code, t', w') = receive os host t new_packet none w in
      let rest = receive_packets n t' w' in if ok e then packet ∷ rest else []

  module _ (t : Transport) (written : W → List ℕ)
      (laws : Sends os t.connection.socket.descriptor written)
      (up : Transport.is_connected t ≡ true) where
    pub send_packets-Sent :
        (ps : List Packet) (w : W)
        → All Sendable ps
        → let (e, w') = send_packets t ps w in Sent (written w) (wires ps) (written w') e
    unfolding send_packets
    send_packets-Sent [] w fine = ([], [], refl, sym (append-nil (written w)), inr (refl, refl))
    send_packets-Sent (p ∷ ps) w ((f, v), fine) =
        let (e, w') = send os host t p w in
        let (front, back, split, stream, end) =
          send-Sent_packet os host t p w written laws up f v in
        elim (Bool-cases (ok e)) [
          | inl good ↦
              (let whole : front ≡ wire p = elim end [
                | inl bad ↦ absurd cc
                | inr (_, none_left) ↦
                    sym (append-nil front) ∙ ap (λ x. front ++ x) (sym none_left) ∙ split
              ] in
                let (front', back', split', stream', end') = send_packets-Sent ps w' fine in
                rw good (
                  wire p ++ front',
                  back',
                  append_assoc (wire p) front' back' ∙ ap (λ x. wire p ++ x) split',
                  stream'
                      ∙ ap (λ x. x ++ front') (stream ∙ ap (λ x. written w ++ x) whole)
                      ∙ append_assoc (written w) (wire p) front',
                  end',
                ))
          | inr bad ↦ rw bad (
            front,
            back ++ wires ps,
            sym (append_assoc front back (wires ps)) ∙ ap (λ x. x ++ wires ps) split,
            stream,
            elim end [
              | inl (_, more) ↦ inl (bad, append-nonempty back (wires ps) more)
              | inr (good, _) ↦ absurd cc
            ],
          )
        ]

    pub send_packets-ok :
        (ps : List Packet) (w : W)
        → Reliable os t.connection.socket.descriptor
        → All Sendable ps
        → ok (send_packets t ps w).0 ≡ true
    unfolding send_packets
    send_packets-ok [] w sure fine = refl
    send_packets-ok (p ∷ ps) w sure ((f, v), fine) =
        rw (send_packet-ok os host t p w sure up f v)
          (send_packets-ok ps (send os host t p w).1 sure fine)

  module _ (t : Transport) (incoming : W → List ℕ)
      (laws : Receives os t.connection.socket.descriptor incoming)
      (up : Transport.is_connected t ≡ true) where
    -- A stream that starts within a packet's bytes gives an error, and one that has them all has the rest
    -- behind them.
    arrived_or_short :
        (p : Packet) (ps : List Packet) (cut : List ℕ) (w : W)
        → Sendable p
        → incoming w ++ cut ≡ wire p ++ wires ps
        → (ok (receive os host t new_packet none w).0 ≡ false)
          ⊎ ((rest : List ℕ) × (incoming w ≡ wire p ++ rest) × (rest ++ cut ≡ wires ps))
    arrived_or_short p ps cut w (f, v) stream =
        let (_, _, small) = is_valid_parts p v in
        elim (Bool-cases (ltb (length (incoming w)) (length (wire p)))) [
          | inl less ↦
              (let (mid, whole, _) =
                  append_overlap (incoming w) (wire p) cut (wires ps) (ground (arith, less))
                    stream in
                inl (
                  Ended-ok (
                    receive_packet-Ended os host t incoming laws up (header p) p.payload
                      (announced host p small) new_packet none w mid refl (ground (arith, less))
                      (sym whole))))
          | inr enough ↦
              (let (mid, whole, rest) =
                  append_overlap (wire p) (incoming w) (wires ps) cut (ground (arith, enough))
                    (sym stream) in
                inr (mid, whole, sym rest))
        ]

    pub receive_packets-front :
        (n : ℕ) (ps : List Packet) (cut : List ℕ) (w : W)
        → All Sendable ps
        → incoming w ++ cut ≡ wires ps
        → (more : List Packet) × (receive_packets n t w ++ more ≡ ps)
    unfolding receive_packets
    receive_packets-front zero ps cut w fine stream = (ps, refl)
    receive_packets-front (suc n) [] cut w fine stream =
        let bad : ok (receive os host t new_packet none w).0 ≡ false = Ended-ok (
          receive_header-Ended os host t incoming laws up new_packet none w (
            omega (arith, ap (λ (x : List ℕ). length x) stream, length-append (incoming w) cut))) in
        rw bad ([], refl)
    receive_packets-front (suc n) (p ∷ ps) cut w ((f, v), fine) stream =
        elim (arrived_or_short p ps cut w (f, v) stream) [
          | inl bad ↦ rw bad (p ∷ ps, refl)
          | inr (rest, whole, left) ↦
              elim (receive-Delivered os host host t p new_packet none (wire p) rest w incoming laws
                up f (encode-wire host p f v) whole) [
                  | inl (good, same, t', after) ↦
                      (let w' = (receive os host t new_packet none w).4 in
                        let (more, list) =
                          receive_packets-front n ps cut w' fine
                            (ap (λ x. x ++ cut) after ∙ left) in
                        simp (good, same, t') (more, ap (λ x. p ∷ x) list))
                  | inr broken ↦ simp broken (p ∷ ps, refl)
                ]
        ]

    pub receive_packets_complete :
        (ps : List Packet) (w : W)
        → Reliable os t.connection.socket.descriptor
        → All Sendable ps
        → incoming w ≡ wires ps
        → receive_packets (length ps) t w ≡ ps
    unfolding receive_packets
    receive_packets_complete [] w sure fine stream = refl
    receive_packets_complete (p ∷ ps) w sure ((f, v), fine) stream =
        let (good, same, t', after) =
          receive_packet os host host t p new_packet none (wire p) (wires ps) w incoming laws sure
            up f (encode-wire host p f v) stream in
        simp (good, same, t')
          (ap (λ x. p ∷ x)
            (receive_packets_complete ps (receive os host t new_packet none w).4 sure fine after))

module _ {S R : Type 0} (sender_os : Os S) (receiver_os : Os R) (sender receiver : Endianness)
    (out back : Transport) (written : S → List ℕ) (incoming : R → List ℕ)
    (sends : Sends sender_os out.connection.socket.descriptor written)
    (receives : Receives receiver_os back.connection.socket.descriptor incoming)
    (sender_up : Transport.is_connected out ≡ true)
    (receiver_up : Transport.is_connected back ≡ true) where
  -- Packets are sent one after the other up to the first failure, on a stream to which nothing was written
  -- before, and the receiver's stream holds what has been written, or a front part of it that ends anywhere.
  -- Then the receiver, up to its first error, gets a front part of these packets: none is changed, left
  -- out or made up, whatever the systems answer and whatever the byte orders of the two hosts.
  pub packets_in_order :
      (ps : List Packet) (n : ℕ) (w : S) (v : R) (lost : List ℕ)
      → All Sendable ps
      → written w ≡ []
      → incoming v ++ lost ≡ written (send_packets sender_os sender out ps w).1
      → (more : List Packet) × (receive_packets receiver_os receiver n back v ++ more ≡ ps)
  packets_in_order ps n w v lost fine fresh arrives =
      let (front, unsent, split, stream, _) =
        send_packets-Sent sender_os sender out written sends sender_up ps w fine in
      receive_packets-front receiver_os receiver back incoming receives receiver_up n ps
        (lost ++ unsent) v fine
        (sym (append_assoc (incoming v) lost unsent)
          ∙ ap (λ x. x ++ unsent) (arrives ∙ stream ∙ ap (λ x. x ++ front) fresh)
          ∙ split)

  -- If no call fails on either side and the receiver's stream holds all that has been written, the receiver
  -- gets all of the packets.
  pub packets_arrive :
      (ps : List Packet) (w : S) (v : R)
      → Reliable sender_os out.connection.socket.descriptor
      → Reliable receiver_os back.connection.socket.descriptor
      → All Sendable ps
      → written w ≡ []
      → incoming v ≡ written (send_packets sender_os sender out ps w).1
      → receive_packets receiver_os receiver (length ps) back v ≡ ps
  packets_arrive ps w v out_sure back_sure fine fresh arrives =
      let (front, unsent, split, stream, end) =
        send_packets-Sent sender_os sender out written sends sender_up ps w fine in
      let good = send_packets-ok sender_os sender out written sends sender_up ps w out_sure fine in
      let whole : front ≡ wires ps = elim end [
        | inl bad ↦ absurd cc
        | inr (_, none_left) ↦ sym (append-nil front) ∙ ap (λ x. front ++ x) (sym none_left) ∙ split
      ] in
      receive_packets_complete receiver_os receiver back incoming receives receiver_up ps v
        back_sure fine (arrives ∙ stream ∙ ap (λ x. x ++ front) fresh ∙ whole)
