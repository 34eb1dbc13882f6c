-- ===== src/Connection/Lifecycle.antt =====
-- PacketForge_V1/src/network/connection.cpp: when a connection counts as connected, and what becomes of its descriptor.
use thread_pool.Base.{Option-cases, inl, inr, ℕ, ◌⊎◌, ◌+◌, ◌≤◌, ◌≡◌, true, false, String, ℤ, arith}
use thread_pool.Os.{Os, Descriptors}
use thread_pool.Socket.{Socket, is_open}
use thread_pool.Socket.Ownership.{holds}
use thread_pool.Connection.{
  Connection, new_connection, disconnect, destroy, assign_connection, open_socket, connect, accept,
}

-- A connected connection has an open socket.
abbrev pub IsSound : Connection → Type 0
IsSound c = (c.connected ≡ false) ⊎ (is_open c.socket ≡ true)

module _ {W : Type 0} (os : Os W) where
  -- A connection that connects or accepts keeps its socket open while it is connected, whatever
  -- the operating system answers.
  pub connect-IsSound :
      (c : Connection) (address : String) (port : ℕ) (w : W)
      → IsSound c
      → IsSound (connect os c address port w).1
  unfolding connect
  connect-IsSound c address port w h = ground arith

  pub accept-IsSound :
      (c : Connection) (listening : Socket) (w : W)
      → IsSound c
      → IsSound (accept os c listening w).1
  unfolding accept
  accept-IsSound c listening w h = ground arith

  pub open_socket-IsSound : (c : Connection) (w : W) → IsSound c → IsSound (open_socket os c w).1
  unfolding open_socket
  open_socket-IsSound c w h = ground arith

  -- After `disconnect` the connection is closed, and disconnecting again does nothing.
  pub disconnect_twice :
      (c : Connection) (w : W)
      → let (c', w') = disconnect os c w in (c' ≡ new_connection) × (disconnect os c' w' ≡ (c', w'))
  unfolding disconnect
  disconnect_twice c w = ground arith

  module _ (d : ℤ) (opened : W → ℕ) (laws : Descriptors os d opened) where
    abbrev pub BalancedC : Connection → W → Connection → W → Type 0
    BalancedC c w c' w' = opened w' + holds c.socket d ≡ opened w + holds c'.socket d

    pub disconnect-Balanced :
        (c : Connection) (w : W)
        → holds c.socket d ≤ opened w
        → let (c', w') = disconnect os c w in BalancedC c w c' w'
    unfolding disconnect
    disconnect-Balanced c w h = ground (arith, laws.by_close c.socket.descriptor w)

    pub destroy_closes :
        (c : Connection) (w : W)
        → holds c.socket d ≤ opened w
        → opened (destroy os c w) + holds c.socket d ≡ opened w
    unfolding destroy
    destroy_closes c w h = ground (arith, laws.by_close c.socket.descriptor w)

    pub connect-Balanced :
        (c : Connection) (address : String) (port : ℕ) (w : W)
        → let (e, c', w') = connect os c address port w in BalancedC c w c' w'
    unfolding connect
    connect-Balanced c address port w =
        let fresh = (os.socket w).0 in
        let w₀ = (os.socket w).1 in
        elim (Option-cases (os.inet_pton address)) [
          | inl e ↦ ground (arith, e, laws.by_socket w)
          | inr (ip, e) ↦ ground (
            arith,
            e,
            laws.by_socket w,
            laws.by_connect c.socket.descriptor ip port w,
            laws.by_connect fresh ip port w₀,
          )
        ]

    pub accept-Balanced :
        (c : Connection) (listening : Socket) (w : W)
        → holds c.socket d ≤ opened w
        → let (e, c', w') = accept os c listening w in BalancedC c w c' w'
    unfolding accept
    accept-Balanced c listening w h = ground (
      arith,
      laws.by_accept listening.descriptor w,
      laws.by_close c.socket.descriptor (os.accept listening.descriptor w).1,
    )

    -- Move assignment closes what the target held, and hands over what the source holds.
    pub assign_connection-Balanced :
        (c other : Connection) (w : W)
        → holds c.socket d + holds other.socket d ≤ opened w
        → let (c', left, w') = assign_connection os c other w in
          (opened w' + holds c.socket d ≡ opened w)
          × (holds c'.socket d ≡ holds other.socket d)
          × (holds left.socket d ≡ 0)
    unfolding assign_connection
    assign_connection-Balanced c other w h = ground (arith, laws.by_close c.socket.descriptor w)
