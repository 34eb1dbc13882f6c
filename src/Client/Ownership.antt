-- ===== src/Client/Ownership.antt =====
-- PacketForge_V1/src/client/client.cpp: the descriptors that a client's operations open and close.
use thread_pool.Base.{ℕ, ◌+◌, ◌≤◌, ◌≡◌, none, ℤ, String, arith}
use thread_pool.Endian.{Endianness}
use thread_pool.Packet.{Packet}
use thread_pool.Os.{Os, Descriptors}
use thread_pool.Socket.Ownership.{holds}
use thread_pool.Connection.Lifecycle
use thread_pool.PacketIo.Ownership.{send-kept, receive_packet-Balanced}
use thread_pool.Client
use thread_pool.Client.{Client}

module _ {W : Type 0} (os : Os W) (host : Endianness) (d : ℤ) (opened : W → ℕ)
    (laws : Descriptors os d opened) where
  abbrev pub held_by : Client → ℕ
  held_by c = holds c.transport.connection.socket d

  abbrev pub Kept : Client → W → Client → W → Type 0
  Kept c w c' w' = opened w' + held_by c ≡ opened w + held_by c'

  pub disconnect_client-Kept :
      (c : Client) (w : W)
      → held_by c ≤ opened w
      → let (c', w') = Client.disconnect os c w in Kept c w c' w'
  unfolding Client.disconnect
  disconnect_client-Kept c w h =
      Lifecycle.disconnect-Balanced os d opened laws c.transport.connection w h

  pub send_client-opened :
      (c : Client) (packet : Packet) (w : W) → opened (Client.send os host c packet w).1 ≡ opened w
  unfolding Client.send
  send_client-opened c packet w =
      ground (arith, send-kept os host d opened laws c.transport packet w)

  pub receive_client-Kept :
      (c : Client) (old : Packet) (w : W)
      → held_by c ≤ opened w
      → let (e, packet, c', w') = Client.receive os host c old w in Kept c w c' w'
  unfolding Client.receive
  receive_client-Kept c old w h =
      ground (arith, receive_packet-Balanced os host d opened laws c.transport old none w h)

  pub destroy_client-closes :
      (c : Client) (w : W)
      → held_by c ≤ opened w
      → opened (Client.destroy os c w) + held_by c ≡ opened w
  unfolding Client.destroy
  destroy_client-closes c w h = Lifecycle.destroy_closes os d opened laws c.transport.connection w h

  pub connect_client-Kept :
      (c : Client) (address : String) (port : ℕ) (w : W)
      → let (e, c', w') = Client.connect os c address port w in Kept c w c' w'
  unfolding Client.connect
  connect_client-Kept c address port w =
      Lifecycle.connect-Balanced os d opened laws c.transport.connection address port w
