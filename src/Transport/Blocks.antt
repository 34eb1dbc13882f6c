-- ===== src/Transport/Blocks.antt =====
-- PacketForge_V1/src/network/transport.cpp: the two loops when no call fails.
use mathlib.Core.WellFounded.{Acc}
use thread_pool.Base.{
  ℕ, ◌<◌, ◌≡◌, ◌∙◌, ap, sym, subst, List, [], ◌++◌, append-nil, length, length-append, append_split,
  false, true, ℤ, inl, inr, arith, Shorter, all_shorter, refl, ◌∷◌, drop, drop-Shorter,
  result_cases,
}
use thread_pool.Error.{Error, ok}
use thread_pool.Os.{Os, Sends, Receives}
use thread_pool.Transport.{
  Transport, send, send_loop, receive_loop, Received, complete, closed, failed,
}
use thread_pool.Transport.Streams.{Sent, send_loop-Sent, Stops, receive_loop-Stops}
use thread_pool.Transport.Reliable.{Reliable, send_loop-ok, receive_loop-is_failed, is_failed}

-- A send that succeeded has put all of the bytes on the stream.
pub Sent-all :
    (before bytes after : List ℕ) (e : Error)
    → Sent before bytes after e
    → ok e ≡ true
    → after ≡ before ++ bytes
Sent-all before bytes after e (front, back, split, stream, end) good =
    let empty : back ≡ [] = elim end [
      | inl (bad, _) ↦ absurd (ground (arith, bad, good))
      | inr (_, none_left) ↦ none_left
    ] in
    stream
    ∙ ap (λ x. before ++ x) (sym (append-nil front) ∙ ap (λ x. front ++ x) (sym empty) ∙ split)

-- Sending reads nothing.
pub send_loop-incoming :
    {W : Type 0} (os : Os W) (fd : ℤ) (incoming : W → List ℕ) (reads : Receives os fd incoming)
    (rest : List ℕ) (a : Acc Shorter rest) (w : W)
    → incoming (send_loop os fd rest a w).1 ≡ incoming w
unfolding send_loop
send_loop-incoming os fd incoming reads [] a w = refl
send_loop-incoming os fd incoming reads (b ∷ bs) (Acc.intro _ smaller) w =
    let w' = (os.send fd (b ∷ bs) w).1 in
    elim (result_cases (os.send fd (b ∷ bs) w).0) [
      | inl (n, e) ↦ rw (e, send_loop) (reads.kept_by_send (b ∷ bs) w)
      | inr (inl e) ↦ rw (e, send_loop) (reads.kept_by_send (b ∷ bs) w)
      | inr (inr (n, e)) ↦
          rw (e, send_loop)
            (send_loop-incoming os fd incoming reads (drop n bs)
                (smaller (drop n bs) (drop-Shorter n b bs)) w'
              ∙ reads.kept_by_send (b ∷ bs) w)
    ]

pub send-incoming :
    {W : Type 0} (os : Os W) (t : Transport) (incoming : W → List ℕ)
    (reads : Receives os t.connection.socket.descriptor incoming) (bytes : List ℕ) (w : W)
    → incoming (send os t bytes w).1 ≡ incoming w
unfolding send
send-incoming os t incoming reads bytes w = ground (
  arith,
  send_loop-incoming os t.connection.socket.descriptor incoming reads bytes (all_shorter bytes) w,
)

module _ {W : Type 0} (os : Os W) (fd : ℤ) (laws : Reliable os fd) where
  pub send_loop-written :
      (written : W → List ℕ) (writes : Sends os fd written) (rest : List ℕ) (a : Acc Shorter rest)
      (w : W)
      → let (e, w') = send_loop os fd rest a w in written w' ≡ written w ++ rest
  send_loop-written written writes rest a w =
      let (e, w') = send_loop os fd rest a w in
      Sent-all (written w) rest (written w') e (send_loop-Sent os fd written writes rest a w)
        (send_loop-ok os fd laws rest a w)

  Stops-block :
      (incoming : W → List ℕ) (reads : Receives os fd incoming) (bytes rest : List ℕ)
      (r : Received × W)
      → Stops os fd incoming reads [] (length bytes) (bytes ++ rest) r
      → is_failed r.0 ≡ false
      → (r.0 ≡ complete bytes) × (incoming r.1 ≡ rest)
  Stops-block incoming reads bytes rest (failed, w') stops fine = absurd (ground (arith, fine))
  Stops-block incoming reads bytes rest (closed, w') stops fine =
      absurd (omega (arith, stops, length-append bytes rest))
  Stops-block incoming reads bytes rest (complete all, w') (read, split, n, e) fine =
      let (front, back) = append_split bytes read rest (incoming w') (sym n) split in
      (ap complete (e ∙ sym front), sym back)

  -- When the next bytes of the stream are there, the loop comes back with them.
  pub receive_loop-block :
      (incoming : W → List ℕ) (reads : Receives os fd incoming) (bytes rest : List ℕ)
      (a : Acc ◌<◌ (length bytes)) (w : W)
      → incoming w ≡ bytes ++ rest
      → let (r, w') = receive_loop os fd (length bytes) a [] w in
        (r ≡ complete bytes) × (incoming w' ≡ rest)
  receive_loop-block incoming reads bytes rest a w stream =
      let r = receive_loop os fd (length bytes) a [] w in
      let stops = receive_loop-Stops os fd incoming reads (length bytes) a [] w in
      Stops-block incoming reads bytes rest r
        (subst (λ x. Stops os fd incoming reads [] (length bytes) x r) stream stops)
        (receive_loop-is_failed os fd laws (length bytes) a [] w)
