-- ===== src/Transport/Reliable.antt =====
-- PacketForge_V1/src/network/transport.cpp on a descriptor whose calls do not fail.
use mathlib.Core.WellFounded.{Acc}
use thread_pool.Base.{
  ℕ, zero, suc, ◌-◌, ◌<◌, ◌≡◌, ◌≢◌, refl, List, [], ◌∷◌, ◌++◌, Bool, true, false, none, ℤ, pos,
  length, drop, arith, Option-cases, inl, inr, Bool-cases, Shorter, all_shorter, all_below,
  drop-Shorter, sub-lt-suc,
}
use thread_pool.Error.{ErrorCode, socket_error, ok}
use thread_pool.Os.{Os}
use thread_pool.Transport.{
  Transport, send_loop, send, Received, complete, closed, failed, receive_loop, receive,
  receive_end, is_connected,
}

-- `recv` does not fail, and `send` takes at least one byte.
pub record Reliable {W : Type 0} (os : Os W) (fd : ℤ) : Type 0 where
  pub gives : (n : ℕ) (w : W) → (os.recv fd n w).0 ≢ none
  pub takes_some :
      (b : ℕ) (bs : List ℕ) (w : W) → (n : ℕ) × ((os.send fd (b ∷ bs) w).0 ≡ pos (suc n))

abbrev pub is_socket_error : ErrorCode → Bool
is_socket_error socket_error = true
is_socket_error _ = false

abbrev pub is_failed : Received → Bool
is_failed failed = true
is_failed closed = false
is_failed (complete bytes) = false

module _ {W : Type 0} (os : Os W) where
  module _ (fd : ℤ) (laws : Reliable os fd) where
    pub send_loop-ok :
        (rest : List ℕ) (a : Acc Shorter rest) (w : W) → ok (send_loop os fd rest a w).0 ≡ true
    unfolding send_loop
    send_loop-ok [] a w = refl
    send_loop-ok (b ∷ bs) (Acc.intro _ smaller) w =
        let (n, e) = laws.takes_some b bs w in
        rw (e, send_loop)
          (send_loop-ok (drop n bs) (smaller (drop n bs) (drop-Shorter n b bs))
            (os.send fd (b ∷ bs) w).1)

    pub receive_loop-is_failed :
        (m : ℕ) (a : Acc ◌<◌ m) (got : List ℕ) (w : W)
        → is_failed (receive_loop os fd m a got w).0 ≡ false
    unfolding receive_loop
    receive_loop-is_failed zero a got w = refl
    receive_loop-is_failed (suc m) (Acc.intro _ smaller) got w =
        elim (Option-cases (os.recv fd (suc m) w).0) [
          | inl e ↦ absurd (laws.gives (suc m) w e)
          | inr ([], e) ↦ rw (e, receive_loop) refl
          | inr (b ∷ bs, e) ↦
              rw (e, receive_loop)
                (receive_loop-is_failed (m - length bs)
                  (smaller (m - length bs) (sub-lt-suc m (length bs))) (got ++ (b ∷ bs))
                  (os.recv fd (suc m) w).1)
        ]

  receive_end-is_socket_error :
      (t : Transport) (r : Received) (w : W)
      → is_failed r ≡ false
      → is_socket_error (receive_end os t r w).0.code ≡ false
  unfolding receive_end
  receive_end-is_socket_error t failed w e = absurd (ground (arith, e))
  receive_end-is_socket_error t closed w e = refl
  receive_end-is_socket_error t (complete bytes) w e = refl

  pub send-ok :
      (t : Transport) (bytes : List ℕ) (w : W)
      → Reliable os t.connection.socket.descriptor
      → is_connected t ≡ true
      → ok (send os t bytes w).0 ≡ true
  unfolding send
  send-ok t bytes w laws up =
      simp up (send_loop-ok t.connection.socket.descriptor laws bytes (all_shorter bytes) w)

  pub receive-is_socket_error :
      (t : Transport) (buffer : List ℕ) (size : ℕ) (w : W)
      → Reliable os t.connection.socket.descriptor
      → is_socket_error (receive os t buffer size w).0.code ≡ false
  unfolding receive
  receive-is_socket_error t buffer size w laws = elim (Bool-cases (is_connected t)) [
    | inr down ↦ simp down refl
    | inl up ↦ simp up (
        receive_end-is_socket_error t _ _
          (receive_loop-is_failed t.connection.socket.descriptor laws size (all_below size) [] w))
  ]
