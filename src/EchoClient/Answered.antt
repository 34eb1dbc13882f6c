-- ===== src/EchoClient/Answered.antt =====
-- Version_2/src/Client.cpp: that the client ends, and what it has sent and printed by then.
use thread_pool.Base.{
  ℕ, zero, suc, ◌<◌, ◌≡◌, ◌≢◌, ◌⊎◌, refl, sym, ap, ◌∙◌, List, [], ◌∷◌, ◌++◌, append-nil,
  append_assoc, Bool, true, length, length-drop, take, drop, take-append-drop, Option-cases, inl,
  inr, some, ℤ, arith,
}
use thread_pool.Os.{Os, Sends, Receives}
use thread_pool.Transport.Reliable.{Reliable}
use thread_pool.EchoClient.{
  message, prints, response_line, send_message, receive_response, after_sending, finish, talk,
}

module _ {W : Type 0} (os : Os W) (was_interrupted : W → Bool) (fd : ℤ)
    (written incoming : W → List ℕ) (writes : Sends os fd written) (reads : Receives os fd incoming)
    (laws : Reliable os fd) where
  send_message-sends :
      (fuel : ℕ) (rest : List ℕ) (w : W)
      → length rest < fuel
      → (w' : W) × (send_message os was_interrupted fuel fd rest w ≡ some (true, w'))
        × (written w' ≡ written w ++ rest)
        × (incoming w' ≡ incoming w)
  unfolding send_message
  send_message-sends zero rest w h = absurd (omega (arith, h))
  send_message-sends (suc fuel) [] w h = (w, refl, sym (append-nil (written w)), refl)
  send_message-sends (suc fuel) (b ∷ bs) w h =
      let (n, e) = laws.takes_some b bs w in
      let w₁ = (os.send fd (b ∷ bs) w).1 in
      let (w', same, stream, unread) =
        send_message-sends fuel (drop n bs) w₁ (omega (arith, h, length-drop n bs)) in
      rw (e, send_message)
        (
          w',
          same,
          stream
              ∙ ap (λ x. x ++ drop n bs) (writes.takes (b ∷ bs) w (suc n) e)
              ∙ append_assoc (written w) (b ∷ take n bs) (drop n bs)
              ∙ ap (λ x. written w ++ (b ∷ x)) (take-append-drop n bs),
          unread ∙ reads.kept_by_send (b ∷ bs) w,
        )

  receive_response-gives :
      (fuel : ℕ) (w : W)
      → 0 < fuel
      → (bytes : List ℕ) × (w' : W) × (receive_response os was_interrupted fuel fd w
          ≡ some (some bytes, w'))
        × (incoming w ≡ bytes ++ incoming w')
        × ((bytes ≢ []) ⊎ (incoming w ≡ []))
        × (written w' ≡ written w)
  unfolding receive_response
  receive_response-gives zero w h = absurd (omega (arith, h))
  receive_response-gives (suc fuel) w h = elim (Option-cases (os.recv fd 1024 w).0) [
    | inl e ↦ absurd (laws.gives 1024 w e)
    | inr ([], e) ↦
        rw (e, receive_response)
          (
            [],
            _,
            refl,
            (reads.gives 1024 w [] e).0,
            inr (reads.ends 1024 w (omega arith) e),
            writes.kept_by_recv 1024 w,
          )
    | inr (b ∷ bs, e) ↦
        rw (e, receive_response)
          (
            b ∷ bs,
            _,
            refl,
            (reads.gives 1024 w (b ∷ bs) e).0,
            inl (λ same. absurd cc),
            writes.kept_by_recv 1024 w,
          )
  ]

  -- If no call fails, 13 rounds of each loop are enough for the client to end: it has then sent its
  -- message and nothing else, and prints what one call of `recv` gave it of the server's answer, or that
  -- the server has closed the connection, which it has then.
  pub talk-prints :
      (fuel : ℕ) (w : W)
      → length message < fuel
      → (bytes rest : List ℕ) × (w' : W) × (talk os was_interrupted fuel fd w
          ≡ some (prints (response_line bytes), w'))
        × (incoming w ≡ bytes ++ rest)
        × ((bytes ≢ []) ⊎ (incoming w ≡ []))
        × (written w' ≡ written w ++ message)
  unfolding talk finish
  talk-prints fuel w h =
      let (w₁, sent, stream, unread) = send_message-sends fuel message w h in
      let (bytes, w₂, given, split, end, quiet) =
        receive_response-gives fuel w₁ (omega (arith, h)) in
      (
        bytes,
        incoming w₂,
        os.close fd w₂,
        rw (sent, talk) (rw (given, after_sending) refl),
        sym unread ∙ split,
        elim end [ inl some_bytes ↦ inl some_bytes | inr nothing ↦ inr (sym unread ∙ nothing) ],
        writes.kept_by_close w₂ ∙ quiet ∙ stream,
      )
