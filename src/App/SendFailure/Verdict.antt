-- ===== src/App/SendFailure/Verdict.antt =====
-- PacketForge_V1/apps/packetforge_transport_send_failure_client.cpp and
-- packetforge_packetio_send_failure_client.cpp: which sends they pass.
use mathlib.Core.WellFounded.{Acc}
use thread_pool.Base.{ℕ, ◌≡◌, refl, List, ◌∷◌, true, false, ℤ, negsuc, Shorter, all_shorter}
use thread_pool.Error.{error, socket_error}
use thread_pool.Endian.{Endianness}
use thread_pool.Os.{Os}
use thread_pool.Connection.Lifecycle.{disconnect_twice}
use thread_pool.Codec.Wire.{wire, encode-wire}
use thread_pool.Transport
use thread_pool.Transport.{Transport, send_loop}
use thread_pool.PacketIo
use thread_pool.App.ClientMain.{request}
use thread_pool.App.ClientMain.Greeting.{request-Fits}
use thread_pool.App.SendFailure.{Sender, by_transport, by_packet_io, test_data, attempt, judge}

-- The bytes that a program gives to `send` first.
abbrev pub bytes_of : Sender → List ℕ
bytes_of by_transport = test_data
bytes_of by_packet_io = wire request

module _ {W : Type 0} (os : Os W) where
  send_loop-refused :
      (fd : ℤ) (b : ℕ) (bs : List ℕ) (a : Acc Shorter (b ∷ bs)) (w : W) (n : ℕ)
      → (os.send fd (b ∷ bs) w).0 ≡ negsuc n
      → (send_loop os fd (b ∷ bs) a w).0 ≡ error socket_error "Send failed"
  unfolding send_loop
  send_loop-refused fd b bs (Acc.intro _ smaller) w n e = rw (e, send_loop) refl

  send-refused :
      (t : Transport) (b : ℕ) (bs : List ℕ) (w : W) (n : ℕ)
      → Transport.is_connected t ≡ true
      → (os.send t.connection.socket.descriptor (b ∷ bs) w).0 ≡ negsuc n
      → (Transport.send os t (b ∷ bs) w).0 ≡ error socket_error "Send failed"
  unfolding Transport.send
  send-refused t b bs w n up e =
      simp up (send_loop-refused t.connection.socket.descriptor b bs (all_shorter (b ∷ bs)) w n e)

  module _ (host : Endianness) where
    attempt-refused :
        (sender : Sender) (t : Transport) (w : W) (n : ℕ)
        → Transport.is_connected t ≡ true
        → (os.send t.connection.socket.descriptor (bytes_of sender) w).0 ≡ negsuc n
        → (attempt os host sender t w).0 ≡ error socket_error "Send failed"
    unfolding PacketIo.send
    attempt-refused by_transport t w n up e = send-refused t _ _ w n up e
    attempt-refused by_packet_io t w n up e =
        let (f, v) = request-Fits in
        rw (encode-wire host request f v, PacketIo.send) (send-refused t _ _ w n up e)

    -- A program that has a connected transport whose first call of `send` fails exits with 0, and its
    -- transport is then disconnected.
    pub judge-refused :
        (sender : Sender) (t : Transport) (w : W) (n : ℕ)
        → Transport.is_connected t ≡ true
        → (os.send t.connection.socket.descriptor (bytes_of sender) w).0 ≡ negsuc n
        → let (exit_code, t', w') = judge os host sender t w in
          (exit_code ≡ 0) × (Transport.is_connected t' ≡ false)
    unfolding judge
    judge-refused sender t w n up e =
        let refused = attempt-refused sender t w n up e in
        let gone = (disconnect_twice os t.connection (attempt os host sender t w).1).0 in
        simp (refused, gone) (refl, refl)
