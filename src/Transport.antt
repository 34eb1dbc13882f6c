-- ===== src/Transport.antt =====
-- PacketForge_V1/src/network/transport.cpp: sending and receiving whole blocks of bytes over a
-- connection. The two loops recur on the bytes still to be sent and on the number still to come.
pub mod Streams
pub mod Ownership
pub mod Quiet
pub mod Reliable
pub mod Blocks
use mathlib.Core.WellFounded.{Acc}
use thread_pool.Base.{
  ℕ, zero, suc, ◌+◌, ◌-◌, ◌<◌, List, [], ◌∷◌, ◌++◌, Bool, not, Option, none, some, ℤ, pos, negsuc,
  length, drop, if◌then◌else◌, Shorter, all_shorter, all_below, drop-Shorter, sub-lt-suc,
}
use thread_pool.Error.{Error, no_error, error, connection_failed, connection_closed, socket_error}
use thread_pool.Os.{Os}
use thread_pool.Connection
use thread_pool.Connection.{Connection, disconnect, new_connection, move_connection}

pub record Transport : Type 0 where
  pub connection : Connection

-- `Transport::Transport`, and the one that takes over a connection: what is left of it comes second.
abbrev pub new_transport : Transport
new_transport = record { connection = new_connection }

abbrev pub of_connection : Connection → Transport × Connection
of_connection c = let (taken, left) = move_connection c in (record { connection = taken }, left)

abbrev pub is_connected : Transport → Bool
is_connected t = Connection.is_connected t.connection

-- How the receiving loop ends: a negative result, a result of 0, or all bytes.
pub data Received : Type 0 where
  failed closed : Received
  complete : List ℕ → Received

-- The move constructor: the new object, and what is left of the old one.
abbrev pub move_transport : Transport → Transport × Transport
move_transport other =
    let (c, left) = move_connection other.connection in
    (record { connection = c }, record { connection = left })

module _ {W : Type 0} (os : Os W) where
  -- The destructor is the connection's.
  unfoldable pub destroy : Transport → W → W
  destroy t w = Connection.destroy os t.connection w

  -- Move assignment between distinct objects.
  unfoldable pub assign_transport : Transport → Transport → W → Transport × Transport × W
  assign_transport t other w =
      let (c, left, w') = Connection.assign_connection os t.connection other.connection w in
      (record { connection = c }, record { connection = left }, w')

  -- The loop of `send`; the list is the part of the data from `totalSent` on.
  unfoldable pub send_loop : ℤ → (rest : List ℕ) → Acc Shorter rest → W → Error × W
  send_loop fd [] _ w = (no_error, w)
  send_loop fd (b ∷ bs) (Acc.intro _ smaller) w = elim (os.send fd (b ∷ bs) w).0 [
    | negsuc _ ↦ (error socket_error "Send failed", (os.send fd (b ∷ bs) w).1)
    | pos zero ↦ (error socket_error "Send failed: connection closed", (os.send fd (b ∷ bs) w).1)
    | pos (suc n) ↦
        send_loop fd (drop n bs) (smaller (drop n bs) (drop-Shorter n b bs))
          (os.send fd (b ∷ bs) w).1
  ]

  unfoldable pub send : Transport → List ℕ → W → Error × W
  send t bytes w =
      if not (is_connected t)
      then (error connection_failed "Connection not established", w)
      else send_loop t.connection.socket.descriptor bytes (all_shorter bytes) w

  -- The loop of `receive`; the number is `size - totalReceived`, and `got` is the filled part of
  -- the buffer.
  unfoldable pub receive_loop : ℤ → (missing : ℕ) → Acc ◌<◌ missing → List ℕ → W → Received × W
  receive_loop fd zero _ got w = (complete got, w)
  receive_loop fd (suc m) (Acc.intro _ smaller) got w = elim (os.recv fd (suc m) w).0 [
    | none ↦ (failed, (os.recv fd (suc m) w).1)
    | some [] ↦ (closed, (os.recv fd (suc m) w).1)
    | some (b ∷ bs) ↦
        receive_loop fd (m - length bs) (smaller (m - length bs) (sub-lt-suc m (length bs)))
          (got ++ (b ∷ bs)) (os.recv fd (suc m) w).1
  ]

  -- `receive` after its loop. The buffer is cleared on an error, and the connection is given up
  -- when the peer has closed it.
  receive_end : Transport → Received → W → Error × List ℕ × Transport × W
  receive_end t failed w = (error socket_error "Receive failed", [], t, w)
  receive_end t closed w =
      let (c, w') = disconnect os t.connection w in
      (error connection_closed "Connection closed by peer", [], record t { connection = c }, w')
  receive_end t (complete bytes) w = (no_error, bytes, t, w)

  unfoldable pub receive : Transport → List ℕ → ℕ → W → Error × List ℕ × Transport × W
  unfolding receive_end
  receive t buffer size w =
      if not (is_connected t)
      then (error connection_failed "Connection not established", buffer, t, w)
      else (let (r, w') = receive_loop t.connection.socket.descriptor size (all_below size) [] w in
          receive_end t r w')
