-- ===== src/Client.antt =====
-- PacketForge_V1/include/client/client.hpp and src/client/client.cpp: a client over a transport. The
-- member `packetIO_` refers to the member `transport_` of the same object, also after a move, so the
-- transport is the whole state.
pub mod Exchange
pub mod Ownership
use thread_pool.Base.{ℕ, Bool, not, none, String, if◌then◌else◌}
use thread_pool.Endian.{Endianness}
use thread_pool.Error.{Error, error, connection_failed}
use thread_pool.Packet.{Packet}
use thread_pool.Os.{Os}
use thread_pool.Connection
use thread_pool.Transport
use thread_pool.Transport.{Transport, new_transport, move_transport, assign_transport}
use thread_pool.PacketIo

pub record Client : Type 0 where
  pub transport : Transport

-- `Client::Client`.
abbrev pub new_client : Client
new_client = record { transport = new_transport }

-- The move constructor: the new object, and what is left of the old one.
abbrev pub move_client : Client → Client × Client
move_client other =
    let (t, left) = move_transport other.transport in
    (record { transport = t }, record { transport = left })

abbrev pub is_connected : Client → Bool
is_connected c = Transport.is_connected c.transport

abbrev with_connection : Client → Connection.Connection → Client
with_connection c connection = record { transport = record { connection = connection } }

module _ {W : Type 0} (os : Os W) where
  -- The destructor is the transport's.
  unfoldable pub destroy : Client → W → W
  unfolding Transport.destroy
  destroy c w = Transport.destroy os c.transport w

  -- Move assignment between distinct objects.
  unfoldable pub assign_client : Client → Client → W → Client × Client × W
  assign_client c other w =
      let (t, left, w') = assign_transport os c.transport other.transport w in
      (record { transport = t }, record { transport = left }, w')

  unfoldable pub connect : Client → String → ℕ → W → Error × Client × W
  connect c host port w =
      let (e, connection, w') = Connection.connect os c.transport.connection host port w in
      (e, with_connection c connection, w')

  unfoldable pub disconnect : Client → W → Client × W
  disconnect c w =
      let (connection, w') = Connection.disconnect os c.transport.connection w in
      (with_connection c connection, w')

  -- Every operation below runs on a host with its own byte order.
  module _ (host : Endianness) where
    unfoldable pub send : Client → Packet → W → Error × W
    send c packet w =
        if not (is_connected c)
        then (error connection_failed "Connection not established", w)
        else PacketIo.send os host c.transport packet w

    -- The packet that is filled in is an argument with its new value in the result.
    unfoldable pub receive : Client → Packet → W → Error × Packet × Client × W
    receive c packet w =
        if not (is_connected c)
        then (error connection_failed "Connection not established", packet, c, w)
        else (let (e, packet', code, t, w') = PacketIo.receive os host c.transport packet none w in
            (e, packet', record { transport = t }, w'))
