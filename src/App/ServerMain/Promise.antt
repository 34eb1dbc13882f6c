-- ===== src/App/ServerMain/Promise.antt =====
-- PacketForge_V1/apps/server_main.cpp: what the program owes a client, read off the client's bytes alone.
use thread_pool.Base.{
  ℕ, zero, suc, ◌+◌, ◌-◌, ◌<◌, ◌≤◌, ◌≡◌, refl, sym, ◌∙◌, ap, List, [], ◌∷◌, ◌++◌, length, take,
  drop, All, append-nil, append_assoc, length-append, length-take, length-drop, take-append-drop,
  take_plus, take-drop-take, some, Bool-cases, true, false, ltb, ◌==◌, if◌then◌else◌, get_or, arith,
  inl, inr, ◌⊎◌, String,
}
use thread_pool.Endian.{Endianness, IsByte, network_value}
use thread_pool.Exception.{Outcome, returns, throws, protocol_decode_error}
use thread_pool.Opcode.{ProtocolError, invalid_packet}
use thread_pool.Packet.{Packet, new_packet, magic_number}
use thread_pool.Codec.{decode}
use thread_pool.Codec.Wire.{wire}
use thread_pool.Codec.Header.{field, parse, decode-parse, IsFrame, IsFrame-announces, All-take}
use thread_pool.Codec.RoundTrip.{encode-decode}
use thread_pool.Dispatch.{dispatch}
use thread_pool.Os.{Os, Sends, Receives}
use thread_pool.Transport
use thread_pool.Transport.{Transport}
use thread_pool.Transport.Reliable.{Reliable}
use thread_pool.PacketIo
use thread_pool.PacketIo.Truncated.{Ended, receive_header-Ended, receive_packet-Ended}
use thread_pool.PacketIo.Quiet.{receive_packet-written}
use thread_pool.PacketIo.Reliable.{receive_packet-is_socket_error}
use thread_pool.App.ServerMain.{serve, respond, protocol_error_response}
use thread_pool.App.ServerMain.Refusal.{serve-refuses}
use thread_pool.App.ServerMain.Success.{serve-succeeds}

-- The exit code and the bytes for a frame: the dispatcher's answer to a packet, or the error response.
abbrev pub frame_answer : Outcome Packet → ℕ × List ℕ
frame_answer (returns request) = (0, wire (dispatch request new_packet).0)
frame_answer (throws (protocol_decode_error e what)) = (1, wire (protocol_error_response e))
frame_answer (throws _) = (1, [])

-- A stream that ends before the frame that its first 16 bytes announce gets nothing.
unfoldable pub promised : List ℕ → ℕ × List ℕ
promised stream =
    let size = 16 + field stream 12 4 in
    if ltb (length stream) 16
    then (0, [])
    else if ltb (length stream) size
    then (0, [])
    else frame_answer (parse (take size stream))

parse-cases :
    (bytes : List ℕ)
    → ((p : Packet) × (parse bytes ≡ returns p))
      ⊎ ((e : ProtocolError) × (what : String) × (parse bytes
            ≡ throws (protocol_decode_error e what)))
unfolding parse
parse-cases bytes = elim (Bool-cases (ltb (length bytes) 16)) [
  | inl a ↦ rw a (inr (_, _, refl))
  | inr a ↦ rw a (elim (Bool-cases (field bytes 0 4 == magic_number)) [
    | inr b ↦ simp b (inr (_, _, refl))
    | inl b ↦ simp b (elim (Bool-cases (get_or bytes 4 0 == 1)) [
      | inr c ↦ simp c (inr (_, _, refl))
      | inl c ↦ simp c (elim (Bool-cases (length bytes == 16 + field bytes 12 4)) [
        | inr d ↦ simp d (inr (_, _, refl))
        | inl d ↦ simp d (inl (_, refl))
      ])
    ])
  ])
]

padding : (n : ℕ) → (xs : List ℕ) × (length xs ≡ n)
padding zero = ([], refl)
padding (suc n) = let (xs, e) = padding n in (0 ∷ xs, ap (λ k. suc k) e)

field-take : (stream : List ℕ) → field (take 16 stream) 12 4 ≡ field stream 12 4
field-take stream = ap network_value (take-drop-take 12 4 stream)

-- The frame at the front of a stream that has it whole.
take-IsFrame :
    (stream : List ℕ)
    → All IsByte stream
    → 16 + field stream 12 4 ≤ length stream
    → IsFrame (take 16 stream) (take (field stream 12 4) (drop 16 stream))
take-IsFrame stream h whole = record {
  front_bytes = All-take 16 stream h;
  front_size = omega (arith, length-take 16 stream);
  announced = omega (
    arith,
    length-take (field stream 12 4) (drop 16 stream),
    length-drop 16 stream,
    field-take stream,
  );
}

module _ {W : Type 0} (os : Os W) (host : Endianness) (written : W → List ℕ)
    (calm : (w : W) → (os.interrupted w).0 ≡ false) (t : Transport) (incoming : W → List ℕ)
    (writes : Sends os t.connection.socket.descriptor written)
    (reads : Receives os t.connection.socket.descriptor incoming)
    (laws : Reliable os t.connection.socket.descriptor) (up : Transport.is_connected t ≡ true) where
  serve-Ended :
      (w : W)
      → Ended (PacketIo.receive os host t new_packet (some invalid_packet) w).0
      → let (exit_code, t', w') = serve os host t w in
        (exit_code ≡ 0) × (written w' ≡ written w ++ [])
  unfolding serve respond
  serve-Ended w ended =
      let (e, request, code, t', w₁) =
        PacketIo.receive os host t new_packet (some invalid_packet) w in
      let silent =
        receive_packet-written os host t new_packet (some invalid_packet) w written writes in
      let kept = writes.kept_by_interrupted w₁ ∙ silent in
      elim ended [
        | inl closed ↦ simp (calm w₁, closed) (refl, kept ∙ sym (append-nil (written w)))
        | inr failed ↦
            let reliable =
              receive_packet-is_socket_error os host t new_packet (some invalid_packet) w laws in
            absurd (ground (arith, failed, reliable))
      ]

  -- The frame at the front of a stream that has it whole.
  serve_frame :
      (w : W)
      → All IsByte (incoming w)
      → 16 + field (incoming w) 12 4 ≤ length (incoming w)
      → let (exit_code, t', w') = serve os host t w in
        let answer = frame_answer (parse (take (16 + field (incoming w) 12 4) (incoming w))) in
        (exit_code ≡ answer.0) × (written w' ≡ written w ++ answer.1)
  serve_frame w h whole =
      let stream = incoming w in
      let n = field stream 12 4 in
      let front = take 16 stream in
      let payload = take n (drop 16 stream) in
      let bytes = take (16 + n) stream in
      let frame : bytes ≡ front ++ payload = take_plus 16 n stream in
      let all : All IsByte bytes = All-take (16 + n) stream h in
      let split : bytes ++ drop (16 + n) stream ≡ stream = take-append-drop (16 + n) stream in
      elim (parse-cases bytes) [
        | inl (p, e) ↦
            (let (f, v, enc) =
                encode-decode host host bytes p all (decode-parse host bytes all ∙ e) in
              rw e (
                serve-succeeds os host calm written host t p bytes (drop (16 + n) stream) w incoming
                  writes reads laws up f enc (sym split)))
        | inr (code, what, e) ↦ rw e (
            serve-refuses os host written calm t incoming writes reads laws up front payload
              (drop (16 + n) stream) code what w (take-IsFrame stream h whole)
              (ap (decode host) (sym frame) ∙ decode-parse host bytes all ∙ e)
              (sym split
                ∙ ap (λ xs. xs ++ drop (16 + n) stream) frame
                ∙ append_assoc front payload (drop (16 + n) stream)))
      ]

  -- A stream that ends within its first frame: what is missing is made up of zeros.
  serve_cut :
      (w : W)
      → All IsByte (incoming w)
      → 16 ≤ length (incoming w)
      → length (incoming w) < 16 + field (incoming w) 12 4
      → Ended (PacketIo.receive os host t new_packet (some invalid_packet) w).0
  serve_cut w h header short =
      let stream = incoming w in
      let (pad, size) = padding (field stream 12 4 - length (drop 16 stream)) in
      let front = take 16 stream in
      let payload = drop 16 stream ++ pad in
      let n : length payload ≡ field stream 12 4 =
        omega (arith, length-append (drop 16 stream) pad, size, length-drop 16 stream) in
      let front_size : length front ≡ 16 = omega (arith, length-take 16 stream) in
      let frame : IsFrame front payload = record {
        front_bytes = All-take 16 stream h;
        front_size = front_size;
        announced = n ∙ sym (field-take stream);
      } in
      receive_packet-Ended os host t incoming reads up front payload
        (IsFrame-announces host front payload frame) new_packet (some invalid_packet) w pad
        front_size (omega (arith, short, n))
        (ap (λ xs. xs ++ pad) (sym (take-append-drop 16 stream))
          ∙ append_assoc front (drop 16 stream) pad)

  -- If no call fails and no signal arrives, then the server program, whatever bytes the client sends,
  -- writes what `promised` reads off these bytes alone and nothing else, and exits with the code that it
  -- gives, on hosts of either byte order: nothing and 0 for a stream that ends within its first frame,
  -- the error response with the parser's code and 1 for a frame that is no packet, and the
  -- dispatcher's answer and 0 for a packet.
  pub serve-promised :
      (w : W)
      → All IsByte (incoming w)
      → let (exit_code, t', w') = serve os host t w in
        (exit_code ≡ (promised (incoming w)).0)
        × (written w' ≡ written w ++ (promised (incoming w)).1)
  unfolding promised
  serve-promised w h = elim (Bool-cases (ltb (length (incoming w)) 16)) [
    | inl short ↦ simp short (
        serve-Ended w (
          receive_header-Ended os host t incoming reads up new_packet (some invalid_packet) w
            (ground (arith, short))))
    | inr long ↦
        simp long (elim (Bool-cases (ltb (length (incoming w)) (16 + field (incoming w) 12 4))) [
          | inl less ↦
              simp less
                (serve-Ended w (serve_cut w h (ground (arith, long)) (ground (arith, less))))
          | inr enough ↦ simp enough (serve_frame w h (ground (arith, enough)))
        ])
  ]
