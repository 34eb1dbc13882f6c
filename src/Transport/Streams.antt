-- ===== src/Transport/Streams.antt =====
-- PacketForge_V1/src/network/transport.cpp: whole blocks against the pieces of the stream.
use mathlib.Core.WellFounded.{Acc}
use thread_pool.Base.{
  Option-cases, result_cases, ℕ, zero, suc, ◌+◌, ◌-◌, ◌<◌, ◌≤◌, ◌≡◌, ◌≢◌, refl, sym, ◌∙◌, ap, ◌⊎◌,
  inl, inr, List, [], ◌∷◌, ◌++◌, true, false, some, ℤ, length, drop, take, arith, append-nil,
  append_assoc, take-append-drop, length-append, Shorter, all_shorter, all_below, drop-Shorter,
  sub-lt-suc,
}
use thread_pool.Error.{Error, no_error, error, ok, connection_closed, socket_error}
use thread_pool.Os.{Os, Sends, Receives}
use thread_pool.Transport.{
  Transport, send_loop, send, Received, complete, closed, failed, receive_loop, receive,
  is_connected, new_transport, receive_end,
}
use thread_pool.Connection.Lifecycle.{disconnect_twice}

-- How far a block got: a front part of it is on the stream, and all of it exactly if there was no error.
abbrev pub Sent : List ℕ → List ℕ → List ℕ → Error → Type 0
Sent before bytes after e =
    (front back : List ℕ) × (front ++ back ≡ bytes)
    × (after ≡ before ++ front)
    × (((ok e ≡ false) × (back ≢ [])) ⊎ ((ok e ≡ true) × (back ≡ [])))

-- How a call of `receive` may end: a block of `size` bytes, the peer's end of the stream before
-- that, or a failed call. `before` and the last argument are what the stream held before and after.
pub data Receipt (size : ℕ) (before : List ℕ) (t : Transport)
    : Error → List ℕ → Transport → List ℕ → Type 0 where
  block :
      (bytes after : List ℕ)
      → before ≡ bytes ++ after
      → length bytes ≡ size
      → Receipt size before t no_error bytes t after
  peer_closed :
      (after : List ℕ)
      → length before < size
      → Receipt size before t
          (error connection_closed "Connection closed by peer")
          []
          new_transport
          after
  broken :
      (read after : List ℕ)
      → before ≡ read ++ after
      → length read ≤ size
      → Receipt size before t (error socket_error "Receive failed") [] t after

module _ {W : Type 0} (os : Os W) where
  module _ (fd : ℤ) (written : W → List ℕ) (laws : Sends os fd written) where
    pub send_loop-Sent :
        (rest : List ℕ) (a : Acc Shorter rest) (w : W)
        → let (e, w') = send_loop os fd rest a w in Sent (written w) rest (written w') e
    unfolding send_loop
    send_loop-Sent [] a w = ([], [], refl, sym (append-nil (written w)), inr (refl, refl))
    send_loop-Sent (b ∷ bs) (Acc.intro _ smaller) w =
        elim (result_cases (os.send fd (b ∷ bs) w).0) [
          | inl (n, e) ↦
              rw (e, send_loop)
                (
                  [],
                  b ∷ bs,
                  refl,
                  laws.fails (b ∷ bs) w n e ∙ sym (append-nil (written w)),
                  inl (refl, λ same. cc),
                )
          | inr (inl e) ↦
              rw (e, send_loop)
                ([], b ∷ bs, refl, laws.takes (b ∷ bs) w 0 e, inl (refl, λ same. cc))
          | inr (inr (n, e)) ↦
              rw (e, send_loop)
                (let w' = (os.send fd (b ∷ bs) w).1 in
                  let (front, back, split, stream, end) =
                    send_loop-Sent (drop n bs) (smaller (drop n bs) (drop-Shorter n b bs)) w' in
                  (
                    b ∷ (take n bs ++ front),
                    back,
                    ap (λ t. b ∷ t)
                        (append_assoc (take n bs) front back
                          ∙ ap (λ t. take n bs ++ t) split
                          ∙ take-append-drop n bs),
                    stream
                        ∙ ap (λ t. t ++ front) (laws.takes (b ∷ bs) w (suc n) e)
                        ∙ append_assoc (written w) (b ∷ take n bs) front,
                    end,
                  ))
        ]

  -- On a connected transport, whatever pieces the system takes, the stream grows by a front part
  -- of the data, in order and with nothing between, and by all of it exactly when `send` reports success.
  pub send-Sent :
      (t : Transport) (bytes : List ℕ) (w : W) (written : W → List ℕ)
      → Sends os t.connection.socket.descriptor written
      → is_connected t ≡ true
      → let (e, w') = send os t bytes w in Sent (written w) bytes (written w') e
  unfolding send
  send-Sent t bytes w written laws up =
      simp up
        (send_loop-Sent t.connection.socket.descriptor written laws bytes (all_shorter bytes) w)

  module _ (fd : ℤ) (incoming : W → List ℕ) (laws : Receives os fd incoming) where
    -- Where the receiving loop stops, and what it has read by then.
    abbrev pub Stops : List ℕ → ℕ → List ℕ → Received × W → Type 0
    Stops got missing before (failed, w') =
        (read : List ℕ) × (before ≡ read ++ incoming w') × (length read ≤ missing)
    Stops got missing before (closed, w') = length before < missing
    Stops got missing before (complete all, w') =
        (read : List ℕ) × (before ≡ read ++ incoming w')
        × (length read ≡ missing)
        × (all ≡ got ++ read)

    -- A piece that came first is put in front of what the rest of the loop reads.
    Stops-piece :
        (got : List ℕ) (m k : ℕ) (piece rest : List ℕ) (r : Received × W)
        → k + length piece ≡ m
        → Stops (got ++ piece) k rest r
        → Stops got m (piece ++ rest) r
    Stops-piece got m k piece rest (failed, w') fits (read, split, n) = (
      piece ++ read,
      rw split (sym (append_assoc piece read (incoming w'))),
      omega (arith, length-append piece read),
    )
    Stops-piece got m k piece rest (closed, w') fits n = omega (arith, length-append piece rest)
    Stops-piece got m k piece rest (complete all, w') fits (read, split, n, e) = (
      piece ++ read,
      rw split (sym (append_assoc piece read (incoming w'))),
      omega (arith, length-append piece read),
      e ∙ append_assoc got piece read,
    )

    receive_loop_step :
        (m : ℕ) (smaller : (k : ℕ) → k < suc m → Acc ◌<◌ k) (got : List ℕ) (w : W) (b : ℕ)
        (bs : List ℕ)
        → (os.recv fd (suc m) w).0 ≡ some (b ∷ bs)
        → receive_loop os fd (suc m) (Acc.intro (suc m) smaller) got w
          ≡ receive_loop os fd
              (m - length bs)
              (smaller (m - length bs) (sub-lt-suc m (length bs)))
              (got ++ (b ∷ bs))
              (os.recv fd (suc m) w).1
    unfolding receive_loop
    receive_loop_step m smaller got w b bs e = rw (e, receive_loop)

    pub receive_loop-Stops :
        (missing : ℕ) (a : Acc ◌<◌ missing) (got : List ℕ) (w : W)
        → Stops got missing (incoming w) (receive_loop os fd missing a got w)
    unfolding receive_loop
    receive_loop-Stops zero a got w = ([], refl, refl, sym (append-nil got))
    receive_loop-Stops (suc m) (Acc.intro _ smaller) got w =
        elim (Option-cases (os.recv fd (suc m) w).0) [
          | inl e ↦ rw (e, receive_loop) ([], sym (laws.fails (suc m) w e), omega arith)
          | inr ([], e) ↦
              rw (e, receive_loop) (rw (laws.ends (suc m) w (omega arith) e) (omega arith))
          | inr (b ∷ bs, e) ↦
              let w' = (os.recv fd (suc m) w).1 in
              let (piece, short) = laws.gives (suc m) w (b ∷ bs) e in
              rw (receive_loop_step m smaller got w b bs e) (
                rw piece (
                  Stops-piece got (suc m) (m - length bs) (b ∷ bs) (incoming w') _ (omega arith) (
                    receive_loop-Stops (m - length bs)
                      (smaller (m - length bs) (sub-lt-suc m (length bs))) (got ++ (b ∷ bs)) w')))
        ]

  receive_end-Receipt :
      (t : Transport) (size : ℕ) (incoming : W → List ℕ) (before : List ℕ) (r : Received × W)
      → (laws : Receives os t.connection.socket.descriptor incoming)
      → Stops t.connection.socket.descriptor incoming laws [] size before r
      → let (e, bytes, t', w') = receive_end os t r.0 r.1 in
        Receipt size before t e bytes t' (incoming w')
  unfolding receive_end
  receive_end-Receipt t size incoming before (failed, w) laws (read, split, n) =
      broken read _ split n
  receive_end-Receipt t size incoming before (closed, w) laws n =
      rw ((disconnect_twice os t.connection w).0) (peer_closed _ n)
  receive_end-Receipt t size incoming before (complete all, w) laws (read, split, n, e) =
      rw e (block read _ split n)

  -- On a connected transport, whatever pieces the system gives, `receive` ends in one of the three
  -- ways of `Receipt`: with exactly the next `size` bytes of the stream; disconnected, because fewer
  -- were left; or with the error of a failed call, before it read behind the block.
  pub receive-Receipt :
      (t : Transport) (buffer : List ℕ) (size : ℕ) (w : W) (incoming : W → List ℕ)
      → Receives os t.connection.socket.descriptor incoming
      → is_connected t ≡ true
      → let (e, bytes, t', w') = receive os t buffer size w in
        Receipt size (incoming w) t e bytes t' (incoming w')
  unfolding receive
  receive-Receipt t buffer size w incoming laws up = simp up (
      receive_end-Receipt t size incoming (incoming w) _ laws (
        receive_loop-Stops t.connection.socket.descriptor incoming laws size (all_below size) [] w))
