-- ===== src/Transport/Quiet.antt =====
-- PacketForge_V1/src/network/transport.cpp: what receiving leaves as it was.
use mathlib.Core.WellFounded.{Acc}
use thread_pool.Base.{
  ℕ, zero, suc, ◌-◌, ◌<◌, ◌≡◌, refl, ◌∙◌, List, [], ◌∷◌, ◌++◌, ℤ, length, arith, Option-cases, inl,
  inr, Bool-cases, true, all_below, sub-lt-suc,
}
use thread_pool.Os.{Os}
use thread_pool.Error.{ok}
use thread_pool.Connection.{Connection, disconnect}
use thread_pool.Transport.{
  Transport, Received, complete, closed, failed, receive_loop, receive, receive_end, is_connected,
}

module _ {W A : Type 0} (os : Os W) (fd : ℤ) (seen : W → A)
    (by_recv : (n : ℕ) (w : W) → seen (os.recv fd n w).1 ≡ seen w)
    (by_close : (w : W) → seen (os.close fd w) ≡ seen w) where
  pub receive_loop-seen :
      (m : ℕ) (a : Acc ◌<◌ m) (got : List ℕ) (w : W)
      → seen (receive_loop os fd m a got w).1 ≡ seen w
  unfolding receive_loop
  receive_loop-seen zero a got w = refl
  receive_loop-seen (suc m) (Acc.intro _ smaller) got w =
      elim (Option-cases (os.recv fd (suc m) w).0) [
        | inl e ↦ rw (e, receive_loop) (by_recv (suc m) w)
        | inr ([], e) ↦ rw (e, receive_loop) (by_recv (suc m) w)
        | inr (b ∷ bs, e) ↦
            rw (e, receive_loop)
              (receive_loop-seen (m - length bs)
                  (smaller (m - length bs) (sub-lt-suc m (length bs))) (got ++ (b ∷ bs))
                  (os.recv fd (suc m) w).1
                ∙ by_recv (suc m) w)
      ]

  disconnect-seen :
      (c : Connection) (w : W) → c.socket.descriptor ≡ fd → seen (disconnect os c w).1 ≡ seen w
  unfolding disconnect
  disconnect-seen c w e = ground (arith, by_close w)

  receive_end-seen :
      (t : Transport) (r : Received × W)
      → t.connection.socket.descriptor ≡ fd
      → seen (receive_end os t r.0 r.1).3 ≡ seen r.1
  unfolding receive_end
  receive_end-seen t (failed, w) e = refl
  receive_end-seen t (complete bytes, w) e = refl
  receive_end-seen t (closed, w) e = disconnect-seen t.connection w e

  pub receive-seen :
      (t : Transport) (buffer : List ℕ) (size : ℕ) (w : W)
      → t.connection.socket.descriptor ≡ fd
      → seen (receive os t buffer size w).3 ≡ seen w
  unfolding receive
  receive-seen t buffer size w e = elim (Bool-cases (is_connected t)) [
    | inl up ↦
        simp (up, e)
          (receive_end-seen t (receive_loop os fd size (all_below size) [] w) e
            ∙ receive_loop-seen size (all_below size) [] w)
    | inr down ↦ simp down
  ]

-- A successful receive leaves the transport as it is.
pub receive-ok :
    {W : Type 0} (os : Os W) (t : Transport) (buffer : List ℕ) (size : ℕ) (w : W)
    → ok (receive os t buffer size w).0 ≡ true
    → (receive os t buffer size w).2 ≡ t
unfolding receive
receive-ok os t buffer size w h = ground arith
