-- ===== src/Socket.antt =====
-- PacketForge_V1/src/network/socket.cpp: a socket owns a descriptor, or -1. A method returns the
-- socket's new value and the new world.
pub mod Ownership
use thread_pool.Base.{
  ℕ, zero, suc, Bool, true, false, not, String, Option, none, some, ℤ, pos, negsuc, is_minus_one,
  is_negative, if◌then◌else◌,
}
use thread_pool.Error.{Error, no_error, error, ok, invalid_argument, socket_error}
use thread_pool.Os.{Os}

pub record Socket : Type 0 where
  pub descriptor : ℤ

abbrev pub closed_descriptor : ℤ
closed_descriptor = negsuc 0

-- `Socket::Socket`.
abbrev pub new_socket : Socket
new_socket = record { descriptor = closed_descriptor }

abbrev pub is_open : Socket → Bool
is_open s = not (is_minus_one s.descriptor)

abbrev pub is_positive : ℤ → Bool
is_positive (pos zero) = false
is_positive (pos (suc n)) = true
is_positive (negsuc n) = false

-- The move constructor: the new object, and what is left of the old one.
abbrev pub move_socket : Socket → Socket × Socket
move_socket other =
    (record { descriptor = other.descriptor }, record other { descriptor = closed_descriptor })

module _ {W : Type 0} (os : Os W) where
  -- `Socket::close`, which is also the destructor.
  unfoldable pub close : Socket → W → Socket × W
  close s w =
      if is_open s
      then (record s { descriptor = closed_descriptor }, os.close s.descriptor w)
      else (s, w)

  -- Move assignment between distinct objects; an object moved to itself stays as it is.
  unfoldable pub assign_socket : Socket → Socket → W → Socket × Socket × W
  unfolding close
  assign_socket s other w =
      let (s', w') = close s w in
      (
        record s' { descriptor = other.descriptor },
        record other { descriptor = closed_descriptor },
        w',
      )

  unfoldable pub create : Socket → W → Error × Socket × W
  create s w =
      if is_open s
      then (no_error, s, w)
      else (let (fd, w') = os.socket w in
          let s' = record s { descriptor = fd } in
          if is_minus_one fd
          then (error socket_error (os.last_error w'), s', w')
          else (no_error, s', w'))

  -- `bind` once the socket is open.
  unfoldable pub bind_open : Socket → String → ℕ → W → Error × W
  bind_open s address port w =
      let (reused, w₁) = os.set_reuse_address s.descriptor w in
      if is_negative reused
      then (error socket_error (os.last_error w₁), w₁)
      else elim (os.inet_pton address) [
        | none ↦ (error invalid_argument "Invalid IPv4 address", w₁)
        | some ip ↦
            (let (bound, w₂) = os.bind s.descriptor ip port w₁ in
              if is_negative bound
              then (error socket_error (os.last_error w₂), w₂)
              else (no_error, w₂))
      ]

  unfoldable pub bind : Socket → String → ℕ → W → Error × Socket × W
  unfolding bind_open create
  bind s address port w =
      if not (is_open s)
      then (let (e, s', w') = create s w in
          if not (ok e)
          then (e, s', w')
          else (let (e', w'') = bind_open s' address port w' in (e', s', w'')))
      else (let (e', w'') = bind_open s address port w in (e', s, w''))

  unfoldable pub listen : Socket → ℤ → W → Error × W
  listen s backlog w =
      if not (is_open s)
      then (error socket_error "Socket is not open", w)
      else if not (is_positive backlog)
      then (error invalid_argument "Invalid listen backlog", w)
      else (let (r, w') = os.listen s.descriptor backlog w in
          if is_negative r then (error socket_error (os.last_error w'), w') else (no_error, w'))

  -- The listening socket stays as it is; `client` is the argument that changes.
  unfoldable pub accept : Socket → Socket → W → Error × Socket × W
  unfolding close
  accept s client w =
      if not (is_open s)
      then (error socket_error "Socket is not open", client, w)
      else (let (fd, w') = os.accept s.descriptor w in
          if is_negative fd
          then (error socket_error (os.last_error w'), client, w')
          else (let (client', w'') = close client w' in
              (no_error, record client' { descriptor = fd }, w'')))
