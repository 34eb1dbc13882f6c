-- ===== src/Transport/Ownership.antt =====
-- PacketForge_V1/src/network/transport.cpp: the descriptors that sending and receiving open or close.
use mathlib.Core.WellFounded.{Acc}
use thread_pool.Base.{
  ℕ, zero, suc, ◌+◌, ◌-◌, ◌≤◌, ◌<◌, ◌≡◌, refl, ◌∙◌, List, [], ◌∷◌, ◌++◌, ℤ, length, drop, arith,
  result_cases, Option-cases, inl, inr, Bool-cases, Shorter, all_shorter, all_below, drop-Shorter,
  sub-lt-suc,
}
use thread_pool.Os.{Os, Descriptors}
use thread_pool.Socket.Ownership.{holds}
use thread_pool.Connection.Lifecycle.{disconnect-Balanced, assign_connection-Balanced}
use thread_pool.Transport.{
  Transport, send_loop, send, Received, complete, closed, failed, receive_loop, receive,
  receive_end, is_connected, assign_transport,
}

module _ {W : Type 0} (os : Os W) (d : ℤ) (opened : W → ℕ) (laws : Descriptors os d opened) where
  pub send_loop-opened :
      (fd : ℤ) (rest : List ℕ) (a : Acc Shorter rest) (w : W)
      → opened (send_loop os fd rest a w).1 ≡ opened w
  unfolding send_loop
  send_loop-opened fd [] a w = refl
  send_loop-opened fd (b ∷ bs) (Acc.intro _ smaller) w =
      elim (result_cases (os.send fd (b ∷ bs) w).0) [
        | inl (n, e) ↦ rw (e, send_loop) (laws.by_send fd (b ∷ bs) w)
        | inr (inl e) ↦ rw (e, send_loop) (laws.by_send fd (b ∷ bs) w)
        | inr (inr (n, e)) ↦
            rw (e, send_loop)
              (send_loop-opened fd (drop n bs) (smaller (drop n bs) (drop-Shorter n b bs))
                  (os.send fd (b ∷ bs) w).1
                ∙ laws.by_send fd (b ∷ bs) w)
      ]

  pub send-opened :
      (t : Transport) (bytes : List ℕ) (w : W) → opened (send os t bytes w).1 ≡ opened w
  unfolding send
  send-opened t bytes w =
      ground (arith, send_loop-opened t.connection.socket.descriptor bytes (all_shorter bytes) w)

  pub receive_loop-opened :
      (fd : ℤ) (m : ℕ) (a : Acc ◌<◌ m) (got : List ℕ) (w : W)
      → opened (receive_loop os fd m a got w).1 ≡ opened w
  unfolding receive_loop
  receive_loop-opened fd zero a got w = refl
  receive_loop-opened fd (suc m) (Acc.intro _ smaller) got w =
      elim (Option-cases (os.recv fd (suc m) w).0) [
        | inl e ↦ rw (e, receive_loop) (laws.by_recv fd (suc m) w)
        | inr ([], e) ↦ rw (e, receive_loop) (laws.by_recv fd (suc m) w)
        | inr (b ∷ bs, e) ↦
            rw (e, receive_loop)
              (receive_loop-opened fd (m - length bs)
                  (smaller (m - length bs) (sub-lt-suc m (length bs))) (got ++ (b ∷ bs))
                  (os.recv fd (suc m) w).1
                ∙ laws.by_recv fd (suc m) w)
      ]

  receive_end-Balanced :
      (t : Transport) (r : Received × W)
      → holds t.connection.socket d ≤ opened r.1
      → let (e, bytes, t', w') = receive_end os t r.0 r.1 in
        opened w' + holds t.connection.socket d ≡ opened r.1 + holds t'.connection.socket d
  unfolding receive_end
  receive_end-Balanced t (failed, w) h = refl
  receive_end-Balanced t (complete bytes, w) h = refl
  receive_end-Balanced t (closed, w) h = disconnect-Balanced os d opened laws t.connection w h

  pub receive-Balanced :
      (t : Transport) (buffer : List ℕ) (size : ℕ) (w : W)
      → holds t.connection.socket d ≤ opened w
      → let (e, bytes, t', w') = receive os t buffer size w in
        opened w' + holds t.connection.socket d ≡ opened w + holds t'.connection.socket d
  unfolding receive
  receive-Balanced t buffer size w h =
      let r = receive_loop os t.connection.socket.descriptor size (all_below size) [] w in
      let same = receive_loop-opened t.connection.socket.descriptor size (all_below size) [] w in
      elim (Bool-cases (is_connected t)) [
        | inl up ↦ simp up (omega (arith, same, receive_end-Balanced t r (omega (arith, same))))
        | inr down ↦ simp down
      ]

  -- Move assignment closes what the target held and nothing else, hands over what the source held,
  -- and leaves the source without a descriptor.
  pub assign_transport-Balanced :
      (t other : Transport) (w : W)
      → holds t.connection.socket d + holds other.connection.socket d ≤ opened w
      → let (t', left, w') = assign_transport os t other w in
        (opened w' + holds t.connection.socket d ≡ opened w)
        × (holds t'.connection.socket d ≡ holds other.connection.socket d)
        × (holds left.connection.socket d ≡ 0)
  unfolding assign_transport
  assign_transport-Balanced t other w h =
      assign_connection-Balanced os d opened laws t.connection other.connection w h
