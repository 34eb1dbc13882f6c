-- ===== src/Server.antt =====
-- PacketForge_V1/src/server/server.cpp: a listening socket, whether it runs, and its port.
pub mod Lifecycle
use thread_pool.Base.{ℕ, Bool, true, false, not, String, Option, none, some, ℤ, if◌then◌else◌}
use thread_pool.Error.{Error, no_error, error, ok, connection_failed, socket_error}
use thread_pool.Os.{Os}
use thread_pool.Socket
use thread_pool.Socket.{
  Socket, new_socket, is_open, close, create, bind, listen, move_socket, assign_socket,
}
use thread_pool.Connection
use thread_pool.Connection.{Connection}

pub record Server : Type 0 where
  pub socket : Socket
  pub running : Bool
  pub port : ℕ

-- `Server::Server`.
abbrev pub new_server : Server
new_server = record { socket = new_socket; running = false; port = 0 }

-- The move constructor: the new object, and what is left of the old one.
abbrev pub move_server : Server → Server × Server
move_server other =
    let (s, left) = move_socket other.socket in
    (
      record { socket = s; running = other.running; port = other.port },
      record { socket = left; running = false; port = 0 },
    )

module _ {W : Type 0} (os : Os W) where
  -- A failure of `start` after the socket was created closes it and forgets the port.
  unfoldable pub give_up : Server → Error → W → Error × Server × W
  give_up s e w =
      let (socket, w') = close os s.socket w in (e, record s { socket = socket; port = 0 }, w')

  -- The end of `start`, with the socket listening.
  unfoldable pub note_port : Server → W → Error × Server × W
  note_port s w = elim (os.getsockname s.socket.descriptor w).0 [
    | none ↦
        give_up s (error socket_error (os.last_error (os.getsockname s.socket.descriptor w).1))
          (os.getsockname s.socket.descriptor w).1
    | some port ↦ (
      no_error,
      record s { port = port; running = true },
      (os.getsockname s.socket.descriptor w).1,
    )
  ]

  unfoldable pub start : Server → String → ℕ → W → Error × Server × W
  start s address port w =
      if s.running
      then (error socket_error "Server is already running", s, w)
      else (let (e₁, s₁, w₁) = create os s.socket w in
          if not (ok e₁)
          then (e₁, record s { socket = s₁; port = 0 }, w₁)
          else (let (e₂, s₂, w₂) = bind os s₁ address port w₁ in
              if not (ok e₂)
              then give_up (record s { socket = s₂ }) e₂ w₂
              else (let (e₃, w₃) = listen os s₂ os.somaxconn w₂ in
                  if not (ok e₃)
                  then give_up (record s { socket = s₂ }) e₃ w₃
                  else note_port (record s { socket = s₂ }) w₃)))

  unfoldable pub stop : Server → W → Server × W
  unfolding close
  stop s w =
      if is_open s.socket
      then (let (socket, w') = close os s.socket w in
          (record { socket = socket; running = false; port = 0 }, w'))
      else (record s { running = false; port = 0 }, w)

  -- The destructor, and after it the socket's.
  unfoldable pub destroy : Server → W → W
  unfolding stop
  destroy s w = let (s', w') = stop s w in (close os s'.socket w').1

  -- Move assignment between distinct objects.
  unfoldable pub assign_server : Server → Server → W → Server × Server × W
  unfolding stop assign_socket
  assign_server s other w =
      let (s', w₁) = stop s w in
      let (socket, left, w₂) = assign_socket os s'.socket other.socket w₁ in
      (
        record { socket = socket; running = other.running; port = other.port },
        record { socket = left; running = false; port = 0 },
        w₂,
      )

  unfoldable pub accept : Server → Connection → W → Error × Connection × W
  unfolding Connection.accept
  accept s connection w =
      if not s.running
      then (error connection_failed "Server is not running", connection, w)
      else Connection.accept os connection s.socket w
