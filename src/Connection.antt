-- ===== src/Connection.antt =====
-- PacketForge_V1/src/network/connection.cpp: a socket and whether it is connected.
pub mod Lifecycle
use thread_pool.Base.{
  ℕ, Bool, true, false, not, String, Option, none, some, ℤ, is_negative, if◌then◌else◌,
}
use thread_pool.Error.{
  Error, no_error, error, ok, invalid_argument, connection_failed, socket_error,
}
use thread_pool.Os.{Os}
use thread_pool.Socket
use thread_pool.Socket.{Socket, new_socket, is_open, create, close, move_socket, assign_socket}

pub record Connection : Type 0 where
  pub socket : Socket
  pub connected : Bool

-- `Connection::Connection`.
abbrev pub new_connection : Connection
new_connection = record { socket = new_socket; connected = false }

abbrev pub is_connected : Connection → Bool
is_connected c = c.connected

-- The move constructor: the new object, and what is left of the old one.
abbrev pub move_connection : Connection → Connection × Connection
move_connection other =
    let (s, left) = move_socket other.socket in
    (
      record { socket = s; connected = other.connected },
      record { socket = left; connected = false },
    )

module _ {W : Type 0} (os : Os W) where
  unfoldable pub disconnect : Connection → W → Connection × W
  unfolding close
  disconnect c w =
      if is_open c.socket
      then (let (s, w') = close os c.socket w in (record c { socket = s; connected = false }, w'))
      else (record c { connected = false }, w)

  -- The destructor, and after it the socket's.
  unfoldable pub destroy : Connection → W → W
  unfolding disconnect
  destroy c w = let (c', w') = disconnect c w in (close os c'.socket w').1

  -- Move assignment between distinct objects.
  unfoldable pub assign_connection : Connection → Connection → W → Connection × Connection × W
  unfolding disconnect assign_socket
  assign_connection c other w =
      let (c', w₁) = disconnect c w in
      let (s, left, w₂) = assign_socket os c'.socket other.socket w₁ in
      (
        record { socket = s; connected = other.connected },
        record { socket = left; connected = false },
        w₂,
      )

  -- `Connection::open`.
  unfoldable pub open_socket : Connection → W → Error × Connection × W
  unfolding create
  open_socket c w = let (e, s, w') = create os c.socket w in (e, record c { socket = s }, w')

  unfoldable pub connect_open : Connection → String → ℕ → W → Error × Connection × W
  connect_open c address port w = elim (os.inet_pton address) [
    | none ↦ (error invalid_argument "Invalid IPv4 address", c, w)
    | some ip ↦
        (let (r, w') = os.connect c.socket.descriptor ip port w in
          if is_negative r
          then (error connection_failed (os.last_error w'), c, w')
          else (no_error, record c { connected = true }, w'))
  ]

  unfoldable pub connect : Connection → String → ℕ → W → Error × Connection × W
  unfolding create connect_open
  connect c address port w =
      if not (is_open c.socket)
      then (let (e, s, w') = create os c.socket w in
          let c' = record c { socket = s } in
          if not (ok e) then (e, c', w') else connect_open c' address port w')
      else connect_open c address port w

  unfoldable pub accept : Connection → Socket → W → Error × Connection × W
  unfolding Socket.accept
  accept c listening w =
      if not (is_open listening)
      then (error socket_error "Listening socket is not open", c, w)
      else if is_connected c
      then (error connection_failed "Connection is already established", c, w)
      else (let (e, s, w') = Socket.accept os listening c.socket w in
          if not (ok e)
          then (e, record c { socket = s }, w')
          else (no_error, record { socket = s; connected = true }, w'))
